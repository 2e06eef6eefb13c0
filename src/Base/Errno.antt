-- ===== src/Base/Errno.antt =====
-- The error numbers that the program returns, negated, and the result of a call that may fail.

pub data Errno : Type 0 where
  einval enomem eio enametoolong eoverflow erange ebusy etimedout : Errno

-- `err e` is the return value -e.
pub data Result {ℓ} (A : Type ℓ) : Type ℓ where
  ok : A → Result A
  err : Errno → Result A

-- The next step of a chain runs where the last one went well.
infixl 5 ◌>>=◌
abbrev pub ◌>>=◌ {ℓ κ} : {A : Type ℓ} {B : Type κ} → Result A → (A → Result B) → Result B
err e >>= next = err e
ok a >>= next = next a

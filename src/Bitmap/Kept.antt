-- ===== src/Bitmap/Kept.antt =====
-- Writes to a bitmap leave it an array of as many words.
use mpipin.Base.{
  ℕ, zero, suc, ◌+◌, ◌/◌, ◌%◌, ◌≡◌, ◌∙◌, arith, [], ◌∷◌, length, set, length-set, Option,
}
use mpipin.Base.Errno.{Errno}
use mpipin.Word.{IsWord, bit_or-IsWord, shl-IsWord}
use mpipin.Bitops.{Words, IsWords, set_bit}
use mpipin.Bitmap.Logic.{write_words}
use mpipin.Bitmap.{bits_to_longs}
use mpipin.Bitmap.Fold.{bitmap_zero}

-- An array of `n` words.
pub record IsMask (n : ℕ) (m : Words) : Type 0 where
  pub size : length m ≡ n
  pub words : IsWords m

set-IsWords : (m : Words) (i w : ℕ) → IsWords m → IsWord w → IsWords (set m i w)
set-IsWords [] i w h word k = h k
set-IsWords (x ∷ xs) zero w h word zero = word
set-IsWords (x ∷ xs) zero w h word (suc k) = h (suc k)
set-IsWords (x ∷ xs) (suc i) w h word zero = h 0
set-IsWords (x ∷ xs) (suc i) w h word (suc k) = set-IsWords xs i w (λ k. h (suc k)) word k

pub set-IsMask : {n : ℕ} {m : Words} (i w : ℕ) → IsMask n m → IsWord w → IsMask n (set m i w)
set-IsMask {m} i w h word = record {
  size = length-set m i w ∙ h.size;
  words = set-IsWords m i w h.words word;
}

pub write_words-IsMask :
    {n : ℕ} (left k : ℕ) (f : ℕ → ℕ) {m : Words}
    → IsMask n m
    → ((j : ℕ) → IsWord (f j))
    → IsMask n (write_words left k f m)
unfolding write_words
write_words-IsMask zero k f h word = h
write_words-IsMask (suc left) k f h word =
    write_words-IsMask left (k + 1) f (set-IsMask k (f k) h (word k)) word

pub bitmap_zero-IsMask : {n : ℕ} {m : Words} (bits : ℕ) → IsMask n m → IsMask n (bitmap_zero m bits)
unfolding bitmap_zero
bitmap_zero-IsMask bits h = write_words-IsMask (bits_to_longs bits) 0 (λ _. 0) h (λ j. omega arith)

pub set_bit-IsMask : {n : ℕ} {m : Words} (nr : ℕ) → IsMask n m → IsMask n (set_bit nr m)
unfolding set_bit
set_bit-IsMask {m} nr h =
    set-IsMask (nr / 64) _ h (bit_or-IsWord _ _ (h.words (nr / 64)) (shl-IsWord 1 (nr % 64)))

-- What a routine that may fail leaves behind is an array of `n` words.
pub record Leaves (n : ℕ) (r : Option Errno × Words) : Type 0 where
  pub mask : IsMask n r.1

abbrev pub leave : {n : ℕ} {m : Words} (e : Option Errno) → IsMask n m → Leaves n (e, m)
leave e h = record { mask = h }

-- ===== src/Ascii/Strtol.antt =====
-- strtol with base 0, and the conversion of its result to `int`.
use mpipin.Base.{
  ℕ, ◌+◌, ◌-◌, ◌*◌, ◌%◌, ◌^◌, Bool, true, false, ◌&&◌, ltb, ◌==◌, if◌then◌else◌, [], ◌∷◌,
}
use mpipin.Base.Int.{ℤ, pos, negsuc}
use mpipin.Ascii.{Text, is_space, is_digit, is_hex_digit, to_lower, char_at, next_char, to_long}

-- The value of a digit or letter.
abbrev digit_value : ℕ → ℕ
digit_value c = if is_digit c then c - b'0' else (to_lower c - b'a' + 10)

-- Of the digits and the letters a to f, those that the base has.
abbrev in_base : (base c : ℕ) → Bool
in_base base c = is_hex_digit c && ltb (digit_value c) base

-- The value of the digits, and what stands behind them.
unfoldable pub base_digits : (base : ℕ) → Text → (value : ℕ) → ℕ × Text
base_digits base [] value = (value, [])
base_digits base (c ∷ s) value =
    let rest = base_digits base s (value * base + digit_value c) in
    if in_base base c then rest else (value, c ∷ s)

-- Behind the sign: `0x` and a digit begin a number of base 16, `0` one of base 8.
unfoldable pub unsigned_digits : Text → ℕ × Text
unsigned_digits s =
    if char_at s == b'0'
      && to_lower (char_at (next_char s)) == b'x'
      && is_hex_digit (char_at (next_char (next_char s)))
    then base_digits 16 (next_char (next_char s)) 0
    else (if char_at s == b'0' then base_digits 8 s 0 else base_digits 10 s 0)

-- A text without a number has the value 0, and the rest is all of it.
unfoldable pub signed_digits : (negative : Bool) → (s whole : Text) → ℤ × Text
signed_digits negative s whole =
    let (value, rest) = unsigned_digits s in
    if is_digit (char_at s) then (to_long negative value, rest) else (pos 0, whole)

unfoldable pub skip_sign : (s whole : Text) → ℤ × Text
skip_sign [] whole = (pos 0, whole)
skip_sign (c ∷ s) whole =
    let rest = skip_sign s whole in
    if is_space c
    then rest
    else if c == b'-'
    then signed_digits true s whole
    else if c == b'+'
    then signed_digits false s whole
    else signed_digits false (c ∷ s) whole

unfoldable pub strtol : Text → ℤ × Text
strtol s = skip_sign s s

-- A `long` as an `int` of 32 bits.
abbrev low_bits : ℕ → ℤ
low_bits w = if ltb w (2 ^ 31) then pos w else negsuc (2 ^ 32 - 1 - w)

unfoldable pub to_int : ℤ → ℤ
to_int (pos n) = low_bits (n % 2 ^ 32)
to_int (negsuc n) = low_bits (2 ^ 32 - 1 - n % 2 ^ 32)

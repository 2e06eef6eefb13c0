-- ===== src/Ascii.antt =====
-- Characters and texts of C: what the program uses of <ctype.h>, of the string functions and of the
-- formats of printf and scanf.
pub mod Decimal
pub mod Strtol
use Prim.Native.Char.{code}
use Prim.Native.String.{String}
use mpipin.Base.{
  ℕ, zero, suc, ◌+◌, ◌-◌, ◌*◌, ◌/◌, ◌%◌, ◌^◌, Bool, true, false, ◌&&◌, ◌||◌, ltb, leb, ◌==◌,
  if◌then◌else◌, List, [], ◌∷◌, Option, none, some,
}
use mpipin.Base.Int.{ℤ, pos, negsuc}

-- A C string, without its terminator.
abbrev pub Text : Type 0
Text = List ℕ

abbrev pub codes : String → Text
codes String.[] = []
codes (String.◌∷◌ c s) = code c ∷ codes s

abbrev pub is_space : ℕ → Bool
is_space c = c == b' ' || leb 9 c && leb c 13

abbrev pub is_digit : ℕ → Bool
is_digit c = leb b'0' c && leb c b'9'

abbrev pub to_lower : ℕ → ℕ
to_lower c = if leb b'A' c && leb c b'Z' then c + 32 else c

abbrev pub is_hex_digit : ℕ → Bool
is_hex_digit c = is_digit c || leb b'a' (to_lower c) && leb (to_lower c) b'f'

-- `*p`: the terminator stands behind the characters.
abbrev pub char_at : Text → ℕ
char_at [] = 0
char_at (c ∷ s) = c

abbrev pub next_char : Text → Text
next_char [] = []
next_char (c ∷ s) = s

-- The string in a buffer: what stands before the first terminator.
abbrev pub c_string : List ℕ → Text
c_string [] = []
c_string (c ∷ s) = if c == 0 then [] else c ∷ c_string s

abbrev pub take : ℕ → Text → Text
take zero s = []
take (suc n) [] = []
take (suc n) (c ∷ s) = c ∷ take n s

-- The number of characters before the first `c`, or of all characters.
abbrev pub span_to : ℕ → Text → ℕ
span_to c [] = 0
span_to c (d ∷ s) = if c == d then 0 else suc (span_to c s)

-- `%d` of a number that is not negative, in front of a text. Each round divides by ten.
unfoldable pub decimal_onto : (fuel : ℕ) → ℕ → Text → Text
decimal_onto zero n rest = rest
decimal_onto (suc fuel) n rest =
    let digit = b'0' + n % 10 in
    let more = decimal_onto fuel (n / 10) (digit ∷ rest) in if ltb n 10 then digit ∷ rest else more

unfoldable pub decimal : ℕ → Text → Text
decimal n rest = decimal_onto (suc n) n rest

-- `%ld` of sscanf: white space, a sign, digits. A value that does not fit is the nearest one that
-- does, as for strtol.
unfoldable pub scan_digits : Text → (value : ℕ) → ℕ
scan_digits [] value = value
scan_digits (c ∷ s) value =
    let rest = scan_digits s (value * 10 + (c - b'0')) in if is_digit c then rest else value

unfoldable pub to_long : (negative : Bool) → ℕ → ℤ
to_long negative n =
    if negative
    then (if n == 0
        then pos 0
        else (if ltb (2 ^ 63) n then negsuc (2 ^ 63 - 1) else negsuc (n - 1)))
    else (if ltb n (2 ^ 63) then pos n else pos (2 ^ 63 - 1))

unfoldable pub scan_unsigned : (negative : Bool) → Text → Option ℤ
scan_unsigned negative s =
    if is_digit (char_at s) then some (to_long negative (scan_digits s 0)) else none

unfoldable pub scan_long : Text → Option ℤ
scan_long [] = none
scan_long (c ∷ s) =
    let rest = scan_long s in
    if is_space c
    then rest
    else if c == b'-'
    then scan_unsigned true s
    else if c == b'+'
    then scan_unsigned false s
    else scan_unsigned false (c ∷ s)

-- ===== src/Prelude/Text.antt =====
-- Texts as the program compares them: `toLowerCase` on ASCII letters (addresses and hashes are
-- hexadecimal), truthiness of an optional text, and `?? ''`.
use Prim.Native.Char.{Char, code}
use Prim.Native.Nat.{ℕ, zero, suc, ◌+◌, ◌-◌, ◌*◌, ◌<◌}
use Prim.Native.String.{String, char_at}
use mathlib.Core.Path.{◌≡◌, refl}
use mathlib.Core.Logic.{inl, inr}
use mathlib.Core.Bool.{Bool, true, false, ◌&&◌, ◌||◌, not}
use mathlib.Core.Option.{Option, none, some}
use native.Mathlib.Omega.{arith}
use text.Mathlib.Text.{◌==◌}
use transeptor_bundler.Prelude.Tests.{leb, ltb, if◌then◌else◌, Bool-cases}

is_upper : Char → Bool
is_upper c = leb b'A' (code c) && leb (code c) b'Z'

abbrev letter : ℕ → Char
letter k = char_at "abcdefghijklmnopqrstuvwxyz" k

lower_char : Char → Char
lower_char c = if is_upper c then letter (code c - b'A') else c

-- String.prototype.toLowerCase
unfoldable pub to_lower_case : String → String
unfolding lower_char is_upper
to_lower_case String.[] = String.[]
to_lower_case (String.◌∷◌ c s) = String.◌∷◌ (lower_char c) (to_lower_case s)

-- The first letters of the table are small letters.
are_small : ℕ → Bool
unfolding is_upper
are_small zero = true
are_small (suc k) = not (is_upper (letter k)) && are_small k

letters_are_small : are_small 26 ≡ true
unfolding are_small
letters_are_small = refl

is_upper-letter : (bound k : ℕ) → k < bound → are_small bound ≡ true → is_upper (letter k) ≡ false
unfolding are_small
is_upper-letter zero k below small = absurd (omega arith)
is_upper-letter (suc bound) k below small = ground (arith, is_upper-letter bound k)

letter_index : (c : Char) → is_upper c ≡ true → code c - b'A' < 26
unfolding is_upper
letter_index c h = ground arith

is_upper-lower_char : (c : Char) → is_upper (lower_char c) ≡ false
unfolding lower_char
is_upper-lower_char c = elim (Bool-cases (is_upper c)) [
  | inl up ↦ rw up (is_upper-letter 26 (code c - b'A') (letter_index c up) letters_are_small)
  | inr low ↦ rw low low
]

lower_char_idem : (c : Char) → lower_char (lower_char c) ≡ lower_char c
lower_char_idem c = let e = is_upper-lower_char c in unfold lower_char in rw e

pub to_lower_case_idem : (s : String) → to_lower_case (to_lower_case s) ≡ to_lower_case s
unfolding to_lower_case
to_lower_case_idem String.[] = refl
to_lower_case_idem (String.◌∷◌ c s) = cc (lower_char_idem c, to_lower_case_idem s)

-- `text?.toLowerCase() ?? ''`
abbrev pub lower_or_empty : Option String → String
lower_or_empty none = ""
lower_or_empty (some s) = to_lower_case s

-- text.length and text.slice(0, n)
abbrev pub text_length : String → ℕ
text_length String.[] = 0
text_length (String.◌∷◌ c s) = suc (text_length s)

abbrev pub text_take : ℕ → String → String
text_take zero s = String.[]
text_take (suc n) String.[] = String.[]
text_take (suc n) (String.◌∷◌ c s) = String.◌∷◌ c (text_take n s)

-- text.slice(n)
abbrev pub text_drop : ℕ → String → String
text_drop zero s = s
text_drop (suc n) String.[] = String.[]
text_drop (suc n) (String.◌∷◌ c s) = text_drop n s

-- text.startsWith(prefix)
abbrev pub starts_with : String → String → Bool
starts_with prefix s = text_take (text_length prefix) s == prefix

-- The value of a digit, in any base up to 16.
digit_of : Char → Option ℕ
digit_of c =
    if leb b'0' (code c) && leb (code c) b'9'
    then some (code c - b'0')
    else if leb b'a' (code c) && leb (code c) b'f'
    then some (code c - b'a' + 10)
    else if leb b'A' (code c) && leb (code c) b'F'
    then some (code c - b'A' + 10)
    else none

-- The digits up to the first letter that is none, after the number that was read so far.
read_digits : ℕ → Option ℕ → String → Option ℕ
unfolding digit_of
read_digits base so_far String.[] = so_far
read_digits base so_far (String.◌∷◌ c s) = elim (digit_of c) [
  | none ↦ so_far
  | some d ↦
      if ltb d base
      then read_digits base (some (elim so_far [ none ↦ d | some n ↦ n * base + d ])) s
      else so_far
]

unfoldable pub has_hex_prefix : String → Bool
has_hex_prefix s = starts_with "0x" s || starts_with "0X" s

-- parseInt(s) and parseInt(s, 16), for a text with no blanks and no sign; `none` is NaN.
unfoldable pub parse_int : String → Option ℕ
unfolding read_digits has_hex_prefix
parse_int s =
    if has_hex_prefix s then read_digits 16 none (text_drop 2 s) else read_digits 10 none s

unfoldable pub parse_int_hex : String → Option ℕ
unfolding read_digits has_hex_prefix
parse_int_hex s = read_digits 16 none (if has_hex_prefix s then text_drop 2 s else s)

-- BigInt(s), for a text that is known to be a number
abbrev pub big_int : String → ℕ
big_int s = elim (parse_int s) [ none ↦ 0 | some n ↦ n ]

-- The digits of a text that has no other letters, after the number that was read so far.
all_digits : ℕ → Option ℕ → String → Option ℕ
unfolding digit_of
all_digits base so_far String.[] = so_far
all_digits base so_far (String.◌∷◌ c s) = elim (digit_of c) [
  | none ↦ none
  | some d ↦
      if ltb d base
      then all_digits base (some (elim so_far [ none ↦ d | some n ↦ n * base + d ])) s
      else none
]

-- BigInt(s), where `none` is a SyntaxError: a decimal number, or a hexadecimal one after its prefix, for
-- a text with no blanks, no sign and no prefix of another base.
unfoldable pub read_big_int : String → Option ℕ
unfolding all_digits has_hex_prefix
read_big_int s =
    if has_hex_prefix s
    then all_digits 16 none (text_drop 2 s)
    else if s == ""
    then some 0
    else all_digits 10 none s

read_big_int_examples :
    (read_big_int "0x1F" ≡ some 31)
    × (read_big_int "0x" ≡ none)
    × (read_big_int "12" ≡ some 12)
    × (read_big_int "0x1g" ≡ none)
unfolding read_big_int
read_big_int_examples = (refl, refl, refl, refl)

parse_int_examples :
    (parse_int "0x31" ≡ some 49) × (parse_int "49a" ≡ some 49) × (parse_int_hex "0a" ≡ some 10)
unfolding parse_int parse_int_hex
parse_int_examples = (refl, refl, refl)

-- Whether every letter is a hexadecimal digit.
unfoldable pub all_hex : String → Bool
unfolding digit_of
all_hex String.[] = true
all_hex (String.◌∷◌ c s) = elim (digit_of c) [ none ↦ false | some d ↦ all_hex s ]

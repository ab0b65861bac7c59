-- ===== src/Integers.antt =====
-- src/parse_util.cpp, and what the source uses of the standard library to write and read integers:
-- `std::to_string`, `std::hex`, `std::stoull` and `std::stoi`. `none` stands for the
-- `std::logic_error` (`invalid_argument` or `out_of_range`) that these throw.
pub mod Parsed
use dd_opentracing_cpp.Prelude.{
  ℕ, zero, suc, ◌+◌, ◌-◌, ◌*◌, ◌/◌, ◌%◌, Bool, true, false, ◌&&◌, ◌||◌, Option, none, some, List,
  [], ◌∷◌, Text, ltb, leb, ◌==◌, if◌then◌else◌, ℤ, pos, negsuc,
}
use dd_opentracing_cpp.Floats.{u64_mod, u64_max}

-- `std::isspace` in the C locale.
abbrev pub is_space : ℕ → Bool
is_space c = (c == 32) || (leb 9 c && leb c 13)

-- The value of a digit or a letter; 36 for any other byte, which is a digit in no base.
abbrev pub plain_value : ℕ → ℕ
plain_value c =
    if leb 48 c && leb c 57
    then c - 48
    else if leb 97 c && leb c 122
    then c - 87
    else if leb 65 c && leb c 90
    then c - 55
    else 36

abbrev pub is_digit : ℕ → ℕ → Bool
is_digit base c = ltb (plain_value c) base

unfoldable pub skip_spaces : Text → Text
skip_spaces [] = []
skip_spaces (c ∷ text) = let rest = skip_spaces text in if is_space c then rest else c ∷ text

-- The sign, and the text behind it.
unfoldable pub read_sign : Text → Bool × Text
read_sign [] = (false, [])
read_sign (c ∷ text) =
    if c == b'-' then (true, text) else if c == b'+' then (false, text) else (false, c ∷ text)

-- The "0x" before a hexadecimal number.
unfoldable pub skip_prefix : ℕ → Text → Text
skip_prefix base (a ∷ x ∷ c ∷ text) =
    if (base == 16) && ((a == b'0') && (((x == b'x') || (x == b'X')) && is_digit base c))
    then c ∷ text
    else a ∷ x ∷ c ∷ text
skip_prefix base text = text

-- The digits that a text begins with, read onto a number, and what lies behind them.
unfoldable pub read_digits : ℕ → ℕ → Text → ℕ × Text
read_digits base n [] = (n, [])
read_digits base n (c ∷ text) =
    let rest = read_digits base (n * base + plain_value c) text in
    if is_digit base c then rest else (n, c ∷ text)

unfoldable pub starts_with_digit : ℕ → Text → Bool
starts_with_digit base [] = false
starts_with_digit base (c ∷ text) = is_digit base c

-- What `strtoull` and `strtol` have in common: the sign, the magnitude, and the text behind.
unfoldable pub read_integer : ℕ → Text → Option (Bool × ℕ × Text)
unfolding skip_spaces read_sign skip_prefix read_digits starts_with_digit
read_integer base text =
    let (negative, unsigned) = read_sign (skip_spaces text) in
    let digits = skip_prefix base unsigned in
    let (n, behind) = read_digits base 0 digits in
    if starts_with_digit base digits then some (negative, n, behind) else none

-- `std::stoull(text, &end_index, base)`, with the text from `end_index` on. A minus sign negates in
-- 64 bits.
unfoldable pub stoull : ℕ → Text → Option (ℕ × Text)
unfolding read_integer
stoull base text = elim (read_integer base text) [
  | none ↦ none
  | some (negative, n, behind) ↦
      if ltb u64_max n then none else some (if negative then (u64_mod - n) % u64_mod else n, behind)
]

abbrev pub all_spaces : Text → Bool
all_spaces [] = true
all_spaces (c ∷ text) = is_space c && all_spaces text

-- `parse_uint64`.
unfoldable pub parse_uint64 : ℕ → Text → Option ℕ
unfolding stoull
parse_uint64 base text = elim (stoull base text) [
  | none ↦ none
  | some (n, behind) ↦ if all_spaces behind then some n else none
]

-- `-n` as an `int`, and `n` as one.
abbrev pub negated : ℕ → ℤ
negated zero = pos 0
negated (suc n) = negsuc n

-- `std::stoi(text)`: what lies behind the digits is not looked at.
unfoldable pub stoi : Text → Option ℤ
unfolding read_integer
stoi text = elim (read_integer 10 text) [
  | none ↦ none
  | some (negative, n, behind) ↦
      if negative
      then (if ltb 2147483648 n then none else some (negated n))
      else (if ltb 2147483647 n then none else some (pos n))
]

-- The digit of a value, in lower case.
abbrev pub digit_char : ℕ → ℕ
digit_char d = if ltb d 10 then 48 + d else 87 + d

-- The digits of `n` in front of a text.
unfoldable pub write_digits : ℕ → ℕ → ℕ → Text → Text
write_digits zero base n text = text
write_digits (suc fuel) base n text =
    let rest = write_digits fuel base (n / base) (digit_char (n % base) ∷ text) in
    if ltb n base then digit_char n ∷ text else rest

-- `std::to_string` for base 10, `std::hex` for base 16. A number has at most as many digits as
-- its value plus one.
unfoldable pub to_text : ℕ → ℕ → Text
unfolding write_digits
to_text base n = write_digits (suc n) base n []

-- `std::to_string` of an `int`.
unfoldable pub int_to_text : ℤ → Text
unfolding to_text
int_to_text (pos n) = to_text 10 n
int_to_text (negsuc n) = b'-' ∷ to_text 10 (suc n)

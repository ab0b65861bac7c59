-- ===== src/Integers/Parsed.antt =====
-- `parse_uint64` of src/parse_util.cpp on what the source writes.
use dd_opentracing_cpp.Prelude.{
  ℕ, zero, suc, ◌+◌, ◌*◌, ◌/◌, ◌%◌, ◌<◌, ◌≤◌, ◌≡◌, ◌⊎◌, inl, inr, refl, ◌∙◌, true, false, some, [],
  ◌∷◌, Text, ltb, arith, if_known, ltb→lt, ap, ◌==◌, ◌||◌,
}
use dd_opentracing_cpp.Floats.{u64_max}
use dd_opentracing_cpp.Integers.{
  is_space, plain_value, is_digit, skip_spaces, read_sign, skip_prefix, read_digits,
  starts_with_digit, read_integer, stoull, parse_uint64, digit_char, write_digits, to_text,
}

-- The bases that the source uses.
abbrev pub IsBase : ℕ → Type 0
IsBase base = (base ≡ 10) ⊎ (base ≡ 16)

abbrev AllDigits : ℕ → Text → Type 0
AllDigits base [] = Unit {0}
AllDigits base (c ∷ text) = (is_digit base c ≡ true) × AllDigits base text

-- At least one digit, and nothing else.
abbrev pub IsNumeral : ℕ → Text → Type 0
IsNumeral base [] = ⊥
IsNumeral base (c ∷ text) = (is_digit base c ≡ true) × AllDigits base text

plain_value-digit_char : (d : ℕ) → d < 16 → plain_value (digit_char d) ≡ d
plain_value-digit_char d h = ground arith

digit_char-is_digit : (base d : ℕ) → IsBase base → d < base → is_digit base (digit_char d) ≡ true
digit_char-is_digit base d b h = ground (arith, b, h)

div_lt : (base n : ℕ) → IsBase base → base ≤ n → n / base < n
div_lt base n (inl e) h = rw e (omega (arith, e, h))
div_lt base n (inr e) h = rw e (omega (arith, e, h))

div_mod : (base n : ℕ) → IsBase base → n / base * base + n % base ≡ n
div_mod base n (inl e) = rw e (omega arith)
div_mod base n (inr e) = rw e (omega arith)

mod_lt : (base n : ℕ) → IsBase base → n % base < base
mod_lt base n (inl e) = rw e (omega arith)
mod_lt base n (inr e) = rw e (omega arith)

below_16 : (base n : ℕ) → IsBase base → n < base → n < 16
below_16 base n (inl e) h = omega (arith, e)
below_16 base n (inr e) h = omega (arith, e)

zero_times : (base n : ℕ) → 0 * base + n ≡ n
zero_times base n = omega arith

read_digit :
    (base m d : ℕ) (text : Text)
    → IsBase base
    → d < base
    → read_digits base m (digit_char d ∷ text) ≡ read_digits base (m * base + d) text
unfolding read_digits
read_digit base m d text b h =
    rw (read_digits, digit_char-is_digit base d b h, plain_value-digit_char d (below_16 base d b h))
      refl

read_digits-write_digits :
    (fuel base n : ℕ) (text : Text)
    → IsBase base
    → n < fuel
    → read_digits base 0 (write_digits fuel base n text) ≡ read_digits base n text
unfolding write_digits
read_digits-write_digits zero base n text b h = absurd (omega arith)
read_digits-write_digits (suc fuel) base n text b h =
    if_known (λ t. read_digits base 0 t ≡ read_digits base n text) (ltb n base) _ _
      (λ l.
        read_digit base 0 n text b (ltb→lt n base l)
        ∙ ap (λ m. read_digits base m text) (zero_times base n))
      (λ g.
        read_digits-write_digits fuel base (n / base) (digit_char (n % base) ∷ text) b
          (omega (arith, div_lt base n b (ground (arith, g)), h))
        ∙ read_digit base (n / base) (n % base) text b (mod_lt base n b)
        ∙ ap (λ m. read_digits base m text) (div_mod base n b))

write_digits-IsNumeral :
    (fuel base n : ℕ) (text : Text)
    → IsBase base
    → n < fuel
    → AllDigits base text
    → IsNumeral base (write_digits fuel base n text)
unfolding write_digits
write_digits-IsNumeral zero base n text b h d = absurd (omega arith)
write_digits-IsNumeral (suc fuel) base n text b h d =
    if_known (IsNumeral base) (ltb n base) _ _
      (λ l. (digit_char-is_digit base n b (ltb→lt n base l), d))
      (λ g.
        write_digits-IsNumeral fuel base (n / base) (digit_char (n % base) ∷ text) b
          (omega (arith, div_lt base n b (ground (arith, g)), h))
          (digit_char-is_digit base (n % base) b (mod_lt base n b), d))

no_space : (base c : ℕ) → IsBase base → is_digit base c ≡ true → is_space c ≡ false
no_space base c b h = ground (arith, b, h)

no_minus : (base c : ℕ) → IsBase base → is_digit base c ≡ true → (c == b'-') ≡ false
no_minus base c b h = ground (arith, b, h)

no_plus : (base c : ℕ) → IsBase base → is_digit base c ≡ true → (c == b'+') ≡ false
no_plus base c b h = ground (arith, b, h)

no_x : (base c : ℕ) → IsBase base → is_digit base c ≡ true → ((c == b'x') || (c == b'X')) ≡ false
no_x base c b h = ground (arith, b, h)

skip_spaces-numeral :
    (base : ℕ) (text : Text) → IsBase base → IsNumeral base text → skip_spaces text ≡ text
unfolding skip_spaces
skip_spaces-numeral base [] b d = refl
skip_spaces-numeral base (c ∷ text) b d = rw (skip_spaces, no_space base c b d.0) refl

read_sign-numeral :
    (base : ℕ) (text : Text) → IsBase base → IsNumeral base text → read_sign text ≡ (false, text)
unfolding read_sign
read_sign-numeral base [] b d = refl
read_sign-numeral base (c ∷ text) b d =
    rw (read_sign, no_minus base c b d.0, no_plus base c b d.0) refl

skip_prefix-numeral :
    (base : ℕ) (text : Text) → IsBase base → IsNumeral base text → skip_prefix base text ≡ text
unfolding skip_prefix
skip_prefix-numeral base [] b d = refl
skip_prefix-numeral base (a ∷ []) b d = refl
skip_prefix-numeral base (a ∷ x ∷ []) b d = refl
skip_prefix-numeral base (a ∷ x ∷ c ∷ text) b d = ground (arith, no_x base x b d.1.0)

starts_with_digit-numeral :
    (base : ℕ) (text : Text) → IsNumeral base text → starts_with_digit base text ≡ true
unfolding starts_with_digit
starts_with_digit-numeral base [] d = absurd d
starts_with_digit-numeral base (c ∷ text) d = d.0

read_integer-numeral :
    (base n : ℕ) (text : Text)
    → IsBase base
    → IsNumeral base text
    → read_digits base 0 text ≡ (n, [])
    → read_integer base text ≡ some (false, n, [])
unfolding read_integer
read_integer-numeral base n text b d r =
    rw
      (
        read_integer,
        skip_spaces-numeral base text b d,
        read_sign-numeral base text b d,
        skip_prefix-numeral base text b d,
        starts_with_digit-numeral base text d,
        r,
      )
      refl

to_text-IsNumeral : (base n : ℕ) → IsBase base → IsNumeral base (to_text base n)
unfolding to_text
to_text-IsNumeral base n b = write_digits-IsNumeral (suc n) base n [] b (omega arith) tt

read_digits-to_text : (base n : ℕ) → IsBase base → read_digits base 0 (to_text base n) ≡ (n, [])
unfolding to_text read_digits
read_digits-to_text base n b = read_digits-write_digits (suc n) base n [] b (omega arith)

pub read_integer-to_text :
    (base n : ℕ) → IsBase base → read_integer base (to_text base n) ≡ some (false, n, [])
read_integer-to_text base n b =
    read_integer-numeral base n (to_text base n) b (to_text-IsNumeral base n b)
      (read_digits-to_text base n b)

in_range : (n : ℕ) → n ≤ u64_max → ltb u64_max n ≡ false
in_range n h = ground arith

-- Writing an unsigned 64-bit integer in base 10 or 16 and parsing the text gives the integer back.
pub parse_uint64-to_text :
    (base n : ℕ) → IsBase base → n ≤ u64_max → parse_uint64 base (to_text base n) ≡ some n
unfolding parse_uint64 stoull
parse_uint64-to_text base n b h =
    rw (parse_uint64, stoull, read_integer-to_text base n b, in_range n h) refl

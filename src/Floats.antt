-- ===== src/Floats.antt =====
-- The operations on `double` that the samplers and the limiter use. Floating point arithmetic is
-- not modelled: the type and its operations are a parameter, with the laws that a theorem needs as
-- named hypotheses. `std::chrono` counts enter through `interval`.
use dd_opentracing_cpp.Prelude.{
  ℕ, ◌+◌, ◌*◌, ◌/◌, Bool, true, false, Option, none, some, ltb, leb, ◌==◌, ℤ, pos_part,
}

pub record Floats (D : Type 0) : Type 0 where
  pub nan : D
  pub is_nan : D → Bool
  pub rate_zero : D
  pub rate_one : D
  -- `a == b`, `a < b` and `a <= b`, each false on NaN.
  pub eq : D → D → Bool
  pub lt : D → D → Bool
  pub le : D → D → Bool
  pub add : D → D → D
  -- `double(a) / double(b)`.
  pub ratio : ℕ → ℕ → D
  -- `a / n`.
  pub over : D → ℕ → D
  -- `uint64_t(rate * max_trace_id_double)`.
  pub scale : D → ℕ
  -- `double(i)` of an `int`.
  pub of_int : ℤ → D
  -- `long(std::ceil(a))`.
  pub ceil : D → ℕ
  -- `std::chrono::nanoseconds(1s) / rate`, as a count of nanoseconds.
  pub interval : D → ℕ

-- 2^64, and `std::numeric_limits<uint64_t>::max()`.
abbrev pub u64_mod : ℕ
u64_mod = 18446744073709551616

abbrev pub u64_max : ℕ
u64_max = 18446744073709551615

-- Thousandths, with `none` for NaN: a concrete instance for tests.
abbrev pub millis : Floats (Option ℕ)
millis = record {
  nan = none;
  is_nan = λ a. elim a [ none ↦ true | some _ ↦ false ];
  rate_zero = some 0;
  rate_one = some 1000;
  eq = λ a b. elim a [ none ↦ false | some x ↦ elim b [ none ↦ false | some y ↦ x == y ] ];
  lt = λ a b. elim a [ none ↦ false | some x ↦ elim b [ none ↦ false | some y ↦ ltb x y ] ];
  le = λ a b. elim a [ none ↦ false | some x ↦ elim b [ none ↦ false | some y ↦ leb x y ] ];
  add = λ a b. elim a [ none ↦ none | some x ↦ elim b [ none ↦ none | some y ↦ some (x + y) ] ];
  ratio = λ a b. some (a * 1000 / b);
  over = λ a n. elim a [ none ↦ none | some x ↦ some (x / n) ];
  scale = λ a. elim a [ none ↦ 0 | some x ↦ x * u64_max / 1000 ];
  of_int = λ i. some (pos_part i * 1000);
  ceil = λ a. elim a [ none ↦ 0 | some x ↦ (x + 999) / 1000 ];
  interval = λ a. elim a [ none ↦ 0 | some x ↦ 1000000000000 / x ];
}

-- ===== src/Glob/Spec.antt =====
-- What it means for a text to match a glob pattern, with no search order in it.
use dd_opentracing_cpp.Prelude.{ℕ, ◌≡◌, ◌≢◌, [], ◌∷◌, ◌⊎◌, Text}
use dd_opentracing_cpp.Glob.{star, question}

-- The pattern byte `c`, which is no star, stands for the subject byte `x`.
abbrev pub Accepts : ℕ → ℕ → Type 0
Accepts c x = (c ≢ star) × ((c ≡ question) ⊎ (x ≡ c))

pub data Matches : Text → Text → Type 0 where
  empty : Matches [] []
  byte : {c x : ℕ} {p s : Text} → Accepts c x → Matches p s → Matches (c ∷ p) (x ∷ s)
  skip : {c : ℕ} {p s : Text} → c ≡ star → Matches p s → Matches (c ∷ p) s
  absorb : {c x : ℕ} {p s : Text} → c ≡ star → Matches (c ∷ p) s → Matches (c ∷ p) (x ∷ s)

module _ {c : ℕ} {p : Text} where
  pub byte_inv : {x : ℕ} {s : Text} → Matches (c ∷ p) (x ∷ s) → c ≢ star → Accepts c x × Matches p s
  byte_inv (byte h d) n = (h, d)
  byte_inv (skip e d) n = absurd (n e)
  byte_inv (absorb e d) n = absurd (n e)

  pub needs_byte : Matches (c ∷ p) [] → c ≢ star → ⊥
  needs_byte (skip e d) n = n e

  pub star_at_end : Matches (c ∷ p) [] → Matches p []
  star_at_end (skip e d) = d

  pub must_absorb :
      {x : ℕ} {s : Text}
      → c ≡ star
      → Matches (c ∷ p) (x ∷ s)
      → ¬ Matches p (x ∷ s)
      → Matches (c ∷ p) s
  must_absorb e (byte h d) n = absurd (h.0 e)
  must_absorb e (skip _ d) n = absurd (n d)
  must_absorb e (absorb _ d) n = d

  pub merge_stars :
      {b : ℕ} {s : Text} → b ≡ star → c ≡ star → Matches (b ∷ c ∷ p) s → Matches (c ∷ p) s
  merge_stars e e' (byte h d) = absurd (h.0 e)
  merge_stars e e' (skip _ d) = d
  merge_stars e e' (absorb _ d) = absorb e' (merge_stars e e' d)

module _ {c : ℕ} {p : Text} where
  -- Why the greedy choice loses nothing: wherever a match of `c ∷ p` begins, one of `p` begins
  -- behind the first byte.
  pub drop_byte :
      {b x : ℕ} (s : Text) → b ≡ star → c ≢ star → Matches (b ∷ c ∷ p) (x ∷ s) → Matches (b ∷ p) s
  drop_byte s e n (byte h d) = absurd (h.0 e)
  drop_byte s e n (skip _ d) = skip e (byte_inv d n).1
  drop_byte [] e n (absorb _ d) = absurd (needs_byte (star_at_end d) n)
  drop_byte (y ∷ s) e n (absorb _ d) = absorb e (drop_byte s e n d)

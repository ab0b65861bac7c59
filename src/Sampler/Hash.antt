-- ===== src/Sampler/Hash.antt =====
-- The Knuth hash of the samplers in src/sample.cpp.
use dd_opentracing_cpp.Prelude.{ℕ, ◌*◌, ◌%◌, ◌<◌, ◌≡◌, ◌≢◌, sym, ap, ◌∙◌, arith}
use dd_opentracing_cpp.Floats.{u64_mod}
use dd_opentracing_cpp.Sampler.{hashed_id}

-- The inverse of the factor modulo 2^64.
abbrev pub inverse_factor : ℕ
inverse_factor = 3396998997810348023

pub hashed_id_inverse : (id : ℕ) → id < u64_mod → (hashed_id id * inverse_factor) % u64_mod ≡ id
unfolding hashed_id
hashed_id_inverse id h = omega arith

hashed_id_injective : (a b : ℕ) → a < u64_mod → b < u64_mod → hashed_id a ≡ hashed_id b → a ≡ b
hashed_id_injective a b ha hb e =
    sym (hashed_id_inverse a ha)
    ∙ ap (λ h. (h * inverse_factor) % u64_mod) e
    ∙ hashed_id_inverse b hb

-- Different 64-bit identifiers have different hashes.
pub hashed_id-ne : (a b : ℕ) → a < u64_mod → b < u64_mod → a ≢ b → hashed_id a ≢ hashed_id b
hashed_id-ne a b ha hb n e = n (hashed_id_injective a b ha hb e)

-- ===== src/Encoder/Excerpt.antt =====
-- The excerpt of an answer in `AgentHttpEncoder::handleResponse` of src/encoder.cpp.
use dd_opentracing_cpp.Prelude.{
  ℕ, ◌+◌, ◌≤◌, ◌<◌, ◌≡◌, refl, ap, ◌∙◌, inl, inr, Bool, true, false, [], ◌∷◌, ◌++◌, Text, codes,
  is_empty, if◌then◌else◌, ltb, length, take, drop, take-append-drop, length-take, length-drop,
  ltb→lt, ◌⊎◌, arith,
}
use dd_opentracing_cpp.Encoder.{region_start, region_size, excerpt}

-- Where the parts of an answer lie, around an excerpt with a prefix and a suffix.
pub record IsExcerpt (byte : ℕ) (response : Text) (x : Text × Text × Text) : Type 0 where
  pub before : Text
  pub behind : Text
  pub whole : before ++ (x.1 ++ behind) ≡ response
  pub short : length x.1 ≤ 50
  -- The dots stand where something is left out, and only there.
  pub dots_before : is_empty x.0 ≡ is_empty before
  pub dots_behind : is_empty x.2 ≡ is_empty behind
  -- The byte of the error is in the excerpt or next to it.
  pub near : (length before ≤ byte) × (byte ≤ length before + length x.1 + 1)

empty_iff_length :
    (c : Bool) (t : Text)
    → (c ≡ true → 0 < length t)
    → (c ≡ false → length t ≡ 0)
    → is_empty (if c then codes "..." else []) ≡ is_empty t
empty_iff_length true [] h g = absurd (omega (arith, h refl))
empty_iff_length true (x ∷ t) h g = refl
empty_iff_length false [] h g = refl
empty_iff_length false (x ∷ t) h g = absurd (omega (arith, g refl))

region_start-le :
    (byte : ℕ) (response : Text) → byte ≤ length response + 1 → region_start byte ≤ length response
region_start-le byte response h = ground (arith, h)

start_cases : (byte : ℕ) → ((region_start byte ≡ 0) × (byte ≤ 25)) ⊎ (region_start byte + 25 ≡ byte)
start_cases byte = ground arith

-- The excerpt that is logged for an answer of the agent is a piece of the answer of at most 50
-- bytes that reaches the byte of the error; dots stand before it just if something before it is
-- left out, and behind it just if something behind it is. The library names a byte that is at most
-- one past the end.
pub excerpt-IsExcerpt :
    (byte : ℕ) (response : Text)
    → byte ≤ length response + 1
    → IsExcerpt byte response (excerpt byte response)
unfolding excerpt
excerpt-IsExcerpt byte response h =
    let start = region_start byte in
    let size = region_size byte response in
    let lb = length-take start response in
    let lr = length-take size (drop start response) in
    let ld = length-drop start response in
    let le = length-drop size (drop start response) in
    let low = region_start-le byte response h in
    record {
      before = take start response;
      behind = drop size (drop start response);
      whole =
          ap (λ t. take start response ++ t) (take-append-drop size (drop start response))
          ∙ take-append-drop start response;
      short = omega (arith, lr);
      dots_before =
          empty_iff_length (ltb 0 start) (take start response)
            (λ t. omega (arith, lb, low, ltb→lt 0 start t)) (λ f. ground (arith, f, lb));
      dots_behind =
          empty_iff_length (ltb (start + size) (length response)) (drop size (drop start response))
            (λ t. omega (arith, ld, le, ltb→lt (start + size) (length response) t))
            (λ f. ground (arith, f, ld, le));
      near = elim (start_cases byte) [
        | inl z ↦ omega (arith, lb, lr, ld, h, z.0, z.1)
        | inr z ↦ omega (arith, lb, lr, ld, h, z)
      ];
    }

-- ===== src/Sampler/Kept.antt =====
-- How many traces the rules sampler of src/sample.cpp keeps.
use dd_opentracing_cpp.Prelude.{
  ℕ, ◌+◌, ◌-◌, ◌*◌, ◌/◌, ◌≤◌, ◌<◌, ◌≡◌, refl, ap, ◌∙◌, ◌⊎◌, inl, inr, Bool, true, false, Option,
  none, some, List, [], ◌∷◌, if◌then◌else◌, arith, Text,
}
use mathlib.Core.Path.{ap₂}
use dd_opentracing_cpp.Floats.{Floats}
use dd_opentracing_cpp.SamplingPriority.{
  SamplingPriority, user_drop, sampler_drop, sampler_keep, user_keep,
}
use dd_opentracing_cpp.Limiter.{Limiter, make_limiter, allow, serve}
use dd_opentracing_cpp.Limiter.Bucket.{Between, serve-le}
use dd_opentracing_cpp.Sampler.{
  RulesSampler, SampleResult, rules_sample, sample_by_rule, priority_sample,
}

-- A trace that the sampler is asked about.
pub record Asked : Type 0 where
  pub environment : Text
  pub service : Text
  pub name : Text
  pub trace_id : ℕ

abbrev pub is_user_keep : Option SamplingPriority → Bool
is_user_keep (some user_keep) = true
is_user_keep (some user_drop) = false
is_user_keep (some sampler_drop) = false
is_user_keep (some sampler_keep) = false
is_user_keep none = false

-- What the clock read at each question lies between two times.
abbrev pub AskedBetween : ℕ → ℕ → List (ℕ × Asked) → Type 0
AskedBetween start end_time [] = Unit {0}
AskedBetween start end_time ((now, a) ∷ asked) =
    (start ≤ now) × (now ≤ end_time) × AskedBetween start end_time asked

module _ {D : Type 0} (fl : Floats D) where
  -- The decision about one trace.
  abbrev pub sample_one : ℕ → Asked → RulesSampler D → RulesSampler D × SampleResult D
  sample_one now a s = rules_sample fl now s a.environment a.service a.name a.trace_id

  -- The sampler after it has been asked about each trace in turn, and how many it kept by a rule.
  unfoldable pub sample_all : List (ℕ × Asked) → RulesSampler D → RulesSampler D × ℕ
  sample_all [] s = (s, 0)
  sample_all ((now, a) ∷ asked) s =
      let rest = sample_all asked (sample_one now a s).0 in
      (rest.0, (if is_user_keep (sample_one now a s).1.sampling_priority then 1 else 0) + rest.1)

  -- Either the limiter is left alone and the trace is not kept by a rule, or the limiter decides.
  sample_one_cases :
      (now : ℕ) (a : Asked) (s : RulesSampler D)
      → (((sample_one now a s).0.sampling_limiter ≡ s.sampling_limiter)
          × (is_user_keep (sample_one now a s).1.sampling_priority ≡ false))
        ⊎ (((sample_one now a s).0.sampling_limiter ≡ (allow fl now s.sampling_limiter).0)
            × (is_user_keep (sample_one now a s).1.sampling_priority
                ≡ (allow fl now s.sampling_limiter).1.allowed))
  unfolding rules_sample sample_by_rule priority_sample
  sample_one_cases now a s = ground arith

  -- The requests that the limiter gets.
  record Served (start end_time : ℕ) (l : Limiter D) (kept : ℕ) : Type 0 where
    requests : List (ℕ × ℕ)
    between : Between start end_time requests
    same_count : kept ≡ (serve fl requests l).1

  sample_all-Served :
      (start end_time : ℕ) (asked : List (ℕ × Asked)) (s : RulesSampler D)
      → AskedBetween start end_time asked
      → Served start end_time s.sampling_limiter (sample_all asked s).1
  unfolding sample_all serve allow
  sample_all-Served start end_time [] s h = record {
    requests = [];
    between = tt;
    same_count = refl;
  }
  sample_all-Served start end_time ((now, a) ∷ asked) s h =
      let rest = sample_all-Served start end_time asked (sample_one now a s).0 h.2 in
      elim (sample_one_cases now a s) [
        | inl (l, k) ↦ record {
          requests = rest.requests;
          between = rest.between;
          same_count = omega (
            arith,
            ap {B = ℕ} (λ c. if c then 1 else 0) k,
            rest.same_count,
            ap (λ x. (serve fl rest.requests x).1) l,
          );
        }
        | inr (l, k) ↦ record {
          requests = (now, 1) ∷ rest.requests;
          between = (h.0, h.1, rest.between);
          same_count =
              ap₂ (λ c n. (if c then 1 else 0) + n) k
                (rest.same_count ∙ ap (λ x. (serve fl rest.requests x).1) l);
        }
      ]

  -- Whatever its rules and their rates are, a rules sampler whose limiter was made at `start`, with
  -- a positive refresh interval, and that is asked about traces between `start` and `end_time`,
  -- keeps by its rules at most as many of them as the limiter had tokens at first and got at the
  -- refreshes that fit into that time.
  pub sample_all-le :
      (start max_tokens per_refresh end_time : ℕ) (rate : D) (asked : List (ℕ × Asked))
      (s : RulesSampler D)
      → s.sampling_limiter ≡ make_limiter fl start max_tokens rate per_refresh
      → 0 < fl.interval rate * per_refresh
      → start ≤ end_time
      → AskedBetween start end_time asked
      → (sample_all asked s).1
        ≤ max_tokens + per_refresh * ((end_time - start) / (fl.interval rate * per_refresh))
  sample_all-le start max_tokens per_refresh end_time rate asked s e hi he hs =
      let served = sample_all-Served start end_time asked s hs in
      let b =
        serve-le fl start max_tokens per_refresh end_time rate served.requests hi he
          served.between in
      omega (arith, b, served.same_count ∙ ap (λ l. (serve fl served.requests l).1) e)

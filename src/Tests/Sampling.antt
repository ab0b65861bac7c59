-- ===== src/Tests/Sampling.antt =====
-- Instances about the limiter and the samplers.
use dd_opentracing_cpp.Prelude.{
  ℕ, ◌+◌, ◌-◌, ◌*◌, ◌/◌, ◌≤◌, ◌≡◌, ◌≢◌, refl, true, false, Option, none, some, List, [], ◌∷◌, codes,
  Text, text_eq, arith, if◌then◌else◌, get_elem?, same, is_empty,
}
use dd_opentracing_cpp.Json.{Json}
use dd_opentracing_cpp.Limiter.{make_limiter, serve, shift_rates, second, allow_tokens, ready}
use dd_opentracing_cpp.Limiter.Bucket.{serve-le}
use dd_opentracing_cpp.Limiter.Rates.{get_elem?-shift_rates}
use dd_opentracing_cpp.SamplingPriority.{agent_rate}
use dd_opentracing_cpp.Sampler.{
  RuleFunc, hashed_id, applied, configure, rate_key, max_id_from_sample_rate, PrioritySampler,
  RulesSampler,
}
use dd_opentracing_cpp.Sampler.Kept.{Asked, sample_all, sample_all-le}
use dd_opentracing_cpp.Sampler.Hash.{hashed_id-ne}
use dd_opentracing_cpp.Sampler.Priority.{last_rate, applied-configure}
use dd_opentracing_cpp.SpanSampler.{Rule}
use dd_opentracing_cpp.SpanSampler.Config.{configure_spans}
use dd_opentracing_cpp.SpanSampler.Config.Valid.{
  Comparisons, AllValid, AccountedFor, configure_spans-AllValid,
}
use dd_opentracing_cpp.Tests.Fixtures.{percent, priority_sampler}

-- Five requests for one token within the first two seconds, of a limiter with 2 tokens and 1 per
-- second.
serve-le_example :
    (serve percent
      ((0, 1) ∷ (5, 1) ∷ (7, 1) ∷ (second, 1) ∷ (second + 1, 1) ∷ [])
      (make_limiter percent 0 2 100 1)).1
    ≤ 2 + 1 * ((2 * second - 0) / (second * 1))
serve-le_example =
    serve-le percent 0 2 1 (2 * second) 100
      ((0, 1) ∷ (5, 1) ∷ (7, 1) ∷ (second, 1) ∷ (second + 1, 1) ∷ []) (omega arith) (omega arith)
      (omega arith)

serve_runs :
    (serve percent
      ((0, 1) ∷ (5, 1) ∷ (7, 1) ∷ (second, 1) ∷ (second + 1, 1) ∷ [])
      (make_limiter percent 0 2 100 1)).1
    ≡ 3
unfolding serve make_limiter allow_tokens ready
serve_runs = refl

abbrev window : List ℕ
window = 10 ∷ 20 ∷ 30 ∷ 40 ∷ 50 ∷ []

-- The entry at 1 is stale.
get_elem?-shift_rates_example : get_elem? (shift_rates percent 3 77 window) 1 ≡ some 20
get_elem?-shift_rates_example =
    get_elem?-shift_rates percent 3 77 window (omega arith) (omega arith) 1 (omega arith)

hashed_id-ne_example : hashed_id 5 ≢ hashed_id 6
hashed_id-ne_example = hashed_id-ne 5 6 (omega arith) (omega arith) (omega arith)

abbrev rule_for : Text → ℕ → RuleFunc ℕ
rule_for service rate s name = record { matched = same s service; rate = rate }

abbrev config : List (Text × Option ℕ)
config = (codes "service:shop,env:prod", some 25) ∷ (codes "service:,env:", some 50) ∷ []

applied-configure_example :
    applied percent (configure percent config priority_sampler).0 (codes "prod") (codes "shop")
    ≡ (record { rate = 25; max_hash = 4611686018427387903 }, agent_rate)
unfolding last_rate rate_key max_id_from_sample_rate
applied-configure_example =
    applied-configure percent config priority_sampler (codes "prod") (codes "shop") refl

abbrev half_sampler : PrioritySampler ℕ
half_sampler = record {
  agent_sampling_rates = [];
  default_sample_rate = record { rate = 50; max_hash = 9223372036854775807 };
}

abbrev any_rule : Rule ℕ
any_rule = record {
  config = record {
    service_pattern = codes "sh*";
    operation_name_pattern = codes "*";
    sample_rate = 100;
    max_per_second = 1000;
    text = [];
  };
  limiter = none;
}

-- A value is an object with a sample rate, or none; every text but the empty one is an array of two
-- values.
abbrev json : Json (Option ℕ) ℕ
json = record {
  parse = λ text. if is_empty text then none else some (some 50);
  items = λ j. j ∷ none ∷ [];
  is_object = λ j. elim j [ none ↦ false | some r ↦ true ];
  member = λ key j. if same key (codes "sample_rate") then some j else none;
  as_string = λ j. none;
  as_number = λ j. j;
  dump = λ j. codes "{}";
}

percent_comparisons : Comparisons percent
percent_comparisons = record { zero_le_one = refl; one_le_one = refl; nan_incomparable = λ a. refl }

configure_spans-AllValid_example :
    AllValid percent (configure_spans percent json (λ k. k) (codes "[]")).0
    × AccountedFor percent json
        (json.parse (codes "[]"))
        (configure_spans percent json (λ k. k) (codes "[]"))
configure_spans-AllValid_example =
    configure_spans-AllValid percent json (λ k. k) (codes "[]") percent_comparisons

-- A sampler with one rule, which matches and keeps everything that the limiter allows.
abbrev keeping : RulesSampler ℕ
keeping = record {
  sampling_limiter = make_limiter percent 0 2 100 1;
  sampling_rules = (λ service name. record { matched = true; rate = 100 }) ∷ [];
  priority_sampler = priority_sampler;
}

abbrev asked_about : ℕ → Asked
asked_about id = record {
  environment = codes "prod";
  service = codes "shop";
  name = codes "get";
  trace_id = id;
}

abbrev five_traces : List (ℕ × Asked)
five_traces =
    (0, asked_about 1)
    ∷ (5, asked_about 2)
    ∷ (7, asked_about 3)
    ∷ (second, asked_about 4)
    ∷ (second + 1, asked_about 5)
    ∷ []

sample_all-le_example :
    (sample_all percent five_traces keeping).1 ≤ 2 + 1 * ((2 * second - 0) / (second * 1))
sample_all-le_example =
    sample_all-le percent 0 2 1 (2 * second) 100 five_traces keeping refl (omega arith)
      (omega arith) (omega arith)

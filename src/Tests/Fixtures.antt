-- ===== src/Tests/Fixtures.antt =====
-- Rates in percent in place of `double`, and small values of each record.
use dd_opentracing_cpp.Prelude.{
  ℕ, ◌+◌, ◌*◌, ◌/◌, Bool, true, false, not, ◌&&◌, some, [], ◌∷◌, ltb, leb, ◌==◌, pos, pos_part,
  codes,
}
use dd_opentracing_cpp.Floats.{Floats, u64_max}
use dd_opentracing_cpp.Limiter.{Limiter, second}
use dd_opentracing_cpp.SpanData.{SpanData}
use dd_opentracing_cpp.SpanContext.{SpanContext}
use dd_opentracing_cpp.Sampler.{PrioritySampler, RulesSampler, SampleResult}
use dd_opentracing_cpp.SamplingPriority.{sampler_keep, default}
use dd_opentracing_cpp.PendingTrace.{PendingTrace}
use dd_opentracing_cpp.SpanBuffer.{SpanBuffer, SpanBufferOptions}

-- 1000 stands for NaN.
abbrev pub is_number : ℕ → Bool
is_number a = not (a == 1000)

abbrev pub percent : Floats ℕ
percent = record {
  nan = 1000;
  is_nan = λ a. a == 1000;
  rate_zero = 0;
  rate_one = 100;
  eq = λ a b. is_number a && (is_number b && a == b);
  lt = λ a b. is_number a && (is_number b && ltb a b);
  le = λ a b. is_number a && (is_number b && leb a b);
  add = λ a b. a + b;
  ratio = λ a b. a * 100 / b;
  over = λ a n. a / n;
  scale = λ a. a * u64_max / 100;
  of_int = λ i. pos_part i;
  ceil = λ a. (a + 99) / 100;
  interval = λ a. second * 100 / a;
}

-- A span of trace 7.
abbrev pub span_of : ℕ → ℕ → SpanData ℕ
span_of span_id parent_id = record {
  type_name = codes "web";
  service = codes "shop";
  resource = codes "GET";
  name = codes "request";
  trace_id = 7;
  span_id = span_id;
  parent_id = parent_id;
  start = pos 10;
  duration = pos 5;
  error = 0;
  meta = [];
  metrics = [];
}

abbrev pub options : SpanBufferOptions ℕ
options = record {
  enabled = true;
  hostname = codes "host";
  analytics_rate = 1000;
  service = codes "shop";
  tags_header_size = 512;
}

abbrev pub limiter : Limiter ℕ
limiter = record {
  num_tokens = 2;
  max_tokens = 2;
  refresh_interval = second;
  tokens_per_refresh = 1;
  next_refresh = second;
  previous_rates = 100 ∷ 100 ∷ 100 ∷ 100 ∷ 100 ∷ 100 ∷ 100 ∷ 100 ∷ 100 ∷ [];
  previous_rates_sum = 900;
  current_period = 0;
  num_allowed = 0;
  num_requested = 0;
}

abbrev pub priority_sampler : PrioritySampler ℕ
priority_sampler = record {
  agent_sampling_rates = [];
  default_sample_rate = record { rate = 100; max_hash = u64_max };
}

abbrev pub rules_sampler : RulesSampler ℕ
rules_sampler = record {
  sampling_limiter = limiter;
  sampling_rules = [];
  priority_sampler = priority_sampler;
}

abbrev pub sample_result : SampleResult ℕ
sample_result = record {
  rule_rate = 1000;
  limiter_rate = 1000;
  priority_rate = 100;
  applied_rate = 100;
  sampling_priority = some sampler_keep;
  sampling_mechanism = some default;
}

-- Trace 7 with spans 7 and 8, of which span 8 has finished.
abbrev pub half_done : PendingTrace ℕ
half_done = record {
  trace_id = 7;
  finished_spans = span_of 8 7 ∷ [];
  all_spans = 7 ∷ 8 ∷ [];
  sampling_priority = some sampler_keep;
  sampling_priority_locked = true;
  origin = codes "rum";
  hostname = codes "host";
  analytics_rate = 1000;
  sample_result = sample_result;
  trace_tags = (codes "_dd.p.x", codes "1") ∷ [];
  service = codes "shop";
  propagation_error = [];
  sampling_decision_extracted = false;
}

abbrev pub buffer : SpanBuffer ℕ
buffer = record {
  traces = (7, half_done) ∷ [];
  trace_sampler = rules_sampler;
  span_rules = [];
  options = options;
  written = [];
}

abbrev pub context : SpanContext
context = record {
  logger = some 1;
  nginx_opentracing_compatibility_hack = false;
  id = 8;
  trace_id = 7;
  propagated_sampling_priority = some sampler_keep;
  origin = codes "rum";
  baggage = (codes "user", codes "ann") ∷ [];
  extracted_trace_tags = (codes "_dd.p.x", codes "1") ∷ [];
}

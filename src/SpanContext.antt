-- ===== src/SpanContext.antt =====
-- The class `SpanContext` of src/span_context.h and span_context.cpp: what is propagated of a span.
-- Of the logger a context has only which one it is, since nothing but the log depends on more; the
-- mutex is left out, since each operation under it is one step.
pub mod Equality
use dd_opentracing_cpp.Prelude.{
  ℕ, ◌∷◌, Bool, true, false, not, ◌&&◌, ◌||◌, Option, none, some, List, [], ◌==◌, if◌then◌else◌,
  Text, same, text_eq, find, emplace, text_beq,
}
use dd_opentracing_cpp.SamplingPriority.{
  SamplingPriority, user_drop, sampler_drop, sampler_keep, user_keep,
}
use dd_opentracing_cpp.Tags.{TagMap}

-- `std::shared_ptr<const Logger>`: which logger, and `none` for a null pointer.
abbrev pub Logger : Type 0
Logger = Option ℕ

pub record SpanContext : Type 0 where
  pub logger : Logger
  pub nginx_opentracing_compatibility_hack : Bool
  pub id : ℕ
  pub trace_id : ℕ
  pub propagated_sampling_priority : Option SamplingPriority
  pub origin : Text
  pub baggage : TagMap
  pub extracted_trace_tags : TagMap

-- `SpanContext(logger, id, trace_id, origin, baggage)`.
unfoldable pub make_context : Logger → ℕ → ℕ → Text → TagMap → SpanContext
make_context logger id trace_id origin baggage = record {
  logger = logger;
  nginx_opentracing_compatibility_hack = false;
  id = id;
  trace_id = trace_id;
  propagated_sampling_priority = none;
  origin = origin;
  baggage = baggage;
  extracted_trace_tags = [];
}

-- `NginxOpenTracingCompatibilityHackSpanContext`.
unfoldable pub make_nginx_context : Logger → ℕ → ℕ → TagMap → SpanContext
unfolding make_context
make_nginx_context logger id trace_id baggage =
    record (make_context logger id trace_id [] baggage) {
      nginx_opentracing_compatibility_hack = true;
    }

-- The copy constructor. It does not mention the logger, which is null in the copy.
unfoldable pub copy : SpanContext → SpanContext
copy other = record {
  logger = none;
  nginx_opentracing_compatibility_hack = other.nginx_opentracing_compatibility_hack;
  id = other.id;
  trace_id = other.trace_id;
  propagated_sampling_priority = other.propagated_sampling_priority;
  origin = other.origin;
  baggage = other.baggage;
  extracted_trace_tags = other.extracted_trace_tags;
}

-- `operator=(const SpanContext&)`: it leaves the logger, the extracted trace tags, and the sampling
-- priority where the other context has none.
unfoldable pub copy_assign : SpanContext → SpanContext → SpanContext
copy_assign context other = record context {
  id = other.id;
  trace_id = other.trace_id;
  origin = other.origin;
  baggage = other.baggage;
  nginx_opentracing_compatibility_hack = other.nginx_opentracing_compatibility_hack;
  propagated_sampling_priority = elim other.propagated_sampling_priority [
    | none ↦ context.propagated_sampling_priority
    | some p ↦ some p
  ];
}

-- `operator=(SpanContext&&)`.
unfoldable pub move_assign : SpanContext → SpanContext → SpanContext
move_assign context other = record context {
  logger = other.logger;
  id = other.id;
  trace_id = other.trace_id;
  origin = other.origin;
  propagated_sampling_priority = other.propagated_sampling_priority;
  baggage = other.baggage;
  nginx_opentracing_compatibility_hack = other.nginx_opentracing_compatibility_hack;
  extracted_trace_tags = other.extracted_trace_tags;
}

abbrev pub priority_beq : SamplingPriority → SamplingPriority → Bool
priority_beq user_drop user_drop = true
priority_beq sampler_drop sampler_drop = true
priority_beq sampler_keep sampler_keep = true
priority_beq user_keep user_keep = true
priority_beq _ _ = false

abbrev pub bool_beq : Bool → Bool → Bool
bool_beq true b = b
bool_beq false b = not b

-- Each entry of the first map is one of the second.
unfoldable pub entries_within : TagMap → TagMap → Bool
entries_within [] n = true
entries_within ((k, v) ∷ m) n =
    let rest = entries_within m n in elim (find k n) [ none ↦ false | some w ↦ same v w && rest ]

-- `==` of two `std::unordered_map`s.
unfoldable pub maps_equal : TagMap → TagMap → Bool
unfolding entries_within
maps_equal m n = entries_within m n && entries_within n m

-- The last two `return`s of `operator==`, for the two priorities and origins.
abbrev pub same_decision : Option SamplingPriority → Option SamplingPriority → Text → Text → Bool
same_decision none none o o' = true
same_decision none (some q) o o' = false
same_decision (some p) none o o' = false
same_decision (some p) (some q) o o' = priority_beq p q && same o o'

-- `==` of two `std::shared_ptr`s.
abbrev pub same_logger : Logger → Logger → Bool
same_logger none none = true
same_logger none (some b) = false
same_logger (some a) none = false
same_logger (some a) (some b) = a == b

-- `operator==`. The origin is compared in the last line only.
unfoldable pub contexts_equal : SpanContext → SpanContext → Bool
contexts_equal a b =
    if (not (same_logger a.logger b.logger)
      || (not (a.id == b.id)
          || (not (a.trace_id == b.trace_id)
              || (not (maps_equal a.baggage b.baggage)
                  || (not (
                        bool_beq a.nginx_opentracing_compatibility_hack
                          b.nginx_opentracing_compatibility_hack)
                      || not (maps_equal a.extracted_trace_tags b.extracted_trace_tags))))))
    then false
    else same_decision a.propagated_sampling_priority b.propagated_sampling_priority a.origin
        b.origin

-- `setBaggageItem`: `emplace` keeps an old value.
unfoldable pub set_baggage_item : Text → Text → SpanContext → SpanContext
set_baggage_item key value context = record context { baggage = emplace key value context.baggage }

-- `baggageItem`.
unfoldable pub baggage_item : Text → SpanContext → Text
baggage_item key context = elim (find key context.baggage) [ none ↦ [] | some value ↦ value ]

-- `withId`: a context for a child span.
unfoldable pub with_id : ℕ → SpanContext → SpanContext
unfolding make_context
with_id id context =
    record (make_context context.logger id context.trace_id context.origin context.baggage) {
      extracted_trace_tags = context.extracted_trace_tags;
      propagated_sampling_priority = context.propagated_sampling_priority;
    }

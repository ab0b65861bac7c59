-- ===== src/Tracer.antt =====
-- src/tracer.cpp and tracer_factory.h: the settings that a tracer reads, its constructor, and its
-- operations. A tracer is its options; the span buffer is the state that its operations change.
-- Identifiers and times come from outside: each operation takes those that it is given.
pub mod Rules
pub mod Started
pub mod Made
pub mod Lifetime
use dd_opentracing_cpp.Prelude.{
  ℕ, ℤ, Bool, true, false, not, ◌&&◌, ◌||◌, Option, none, some, List, [], ◌∷◌, Text, codes,
  is_empty, if◌then◌else◌, text_eq, same, pos,
}
use dd_opentracing_cpp.Floats.{Floats}
use dd_opentracing_cpp.Json.{Json}
use dd_opentracing_cpp.Tribool.{stob}
use dd_opentracing_cpp.Integers.{parse_uint64}
use dd_opentracing_cpp.Tags.{TagMap}
use dd_opentracing_cpp.Limiter.{make_limiter, make_limiter_per_second}
use dd_opentracing_cpp.Sampler.{RulesSampler, new_priority_sampler}
use dd_opentracing_cpp.SpanSampler.Config.{Complaint, configure_spans}
use dd_opentracing_cpp.SpanContext.{SpanContext, Logger, make_context, make_nginx_context, with_id}
use dd_opentracing_cpp.SpanBuffer.{SpanBuffer, SpanBufferOptions}
use dd_opentracing_cpp.Propagation.{Extraction, deserialize}
use dd_opentracing_cpp.Propagation.Inject.{serialize}
use dd_opentracing_cpp.Span.{Span}
use dd_opentracing_cpp.Span.Values.{Value, of_string, JsonWriter}
use dd_opentracing_cpp.Span.Tagging.{TimePoint, make_span, set_tag, span_sampling_priority}
use dd_opentracing_cpp.Options.{TracerOptions, Environment, Outside}
use dd_opentracing_cpp.Options.Environment.{
  ok, error, OptionError, FileComplaint, apply_tracer_options_from_environment,
}
use dd_opentracing_cpp.Tracer.Rules.{RuleComplaint, configure_rules_sampler}

-- `isEnabled`.
unfoldable pub is_enabled : Environment → Bool
is_enabled getenv = elim (getenv (codes "DD_TRACE_ENABLED")) [
  | none ↦ true
  | some enabled ↦ stob enabled true
]

-- `legacyObfuscationEnabled`.
unfoldable pub legacy_obfuscation_enabled : Environment → Bool
legacy_obfuscation_enabled getenv = elim (getenv (codes "DD_TRACE_CPP_LEGACY_OBFUSCATION")) [
  | none ↦ false
  | some obfuscation ↦ same obfuscation (codes "1")
]

module _ {D : Type 0} (fl : Floats D) where
  -- `analyticsRate`.
  unfoldable pub valid_analytics_rate : TracerOptions D → D
  valid_analytics_rate options =
      if fl.le fl.rate_zero options.analytics_rate && fl.le options.analytics_rate fl.rate_one
      then options.analytics_rate
      else fl.nan

  -- `reportingHostname`; `gethostname` gives `none` where it fails.
  unfoldable pub reporting_hostname : Option Text → TracerOptions D → Text
  reporting_hostname gethostname options =
      if options.report_hostname then elim gethostname [ none ↦ [] | some name ↦ name ] else []

  -- `traceTagsPropagationMaxLength`.
  unfoldable pub trace_tags_propagation_max_length : Environment → TracerOptions D → ℕ
  trace_tags_propagation_max_length getenv options =
      elim (getenv (codes "DD_TRACE_TAGS_PROPAGATION_MAX_LENGTH")) [
        | none ↦ options.tags_header_size
        | some value ↦ elim (parse_uint64 10 value) [
          | none ↦ options.tags_header_size
          | some length ↦ length
        ]
      ]

  -- `RulesSampler()` and `RulesSampler(limit_per_second)`.
  abbrev pub default_rules_sampler : ℕ → RulesSampler D
  default_rules_sampler now = record {
    sampling_limiter = make_limiter fl now 100 (fl.of_int (pos 100)) 1;
    sampling_rules = [];
    priority_sampler = new_priority_sampler fl;
  }

  abbrev pub rules_sampler_per_second : ℕ → D → RulesSampler D
  rules_sampler_per_second now limit_per_second = record {
    sampling_limiter = make_limiter_per_second fl now limit_per_second;
    sampling_rules = [];
    priority_sampler = new_priority_sampler fl;
  }

  -- The tracer's own state.
  pub record Tracer : Type 0 where
    pub opts : TracerOptions D
    pub legacy_obfuscation : Bool
    pub logger : Logger

  -- The context of a new span before its parent is looked for.
  unfoldable pub root_context : Logger → Text → ℕ → SpanContext
  root_context logger operation_name span_id =
      if same operation_name (codes "dummySpan")
      then make_nginx_context logger span_id span_id []
      else make_context logger span_id span_id [] []

  -- The loop over the references: the first that is a context of this library. A reference that
  -- `dynamic_cast` refuses is `none`.
  unfoldable pub first_parent : List (Option SpanContext) → Option SpanContext
  first_parent [] = none
  first_parent (none ∷ references) = first_parent references
  first_parent (some context ∷ references) = some context

  unfoldable pub child_context : Logger → Text → ℕ → Option SpanContext → SpanContext
  unfolding root_context
  child_context logger operation_name span_id none = root_context logger operation_name span_id
  child_context logger operation_name span_id (some parent) = with_id span_id parent

  -- `trace_id` and `parent_id`.
  abbrev pub trace_id_from : ℕ → Option SpanContext → ℕ
  trace_id_from span_id none = span_id
  trace_id_from span_id (some parent) = parent.trace_id

  abbrev pub parent_id_from : Option SpanContext → ℕ
  parent_id_from none = 0
  parent_id_from (some parent) = parent.id

module _ {J D : Type 0} (fl : Floats D) (w : JsonWriter J D) where
  -- A span and the buffer that it is registered with.
  abbrev pub Started : Type 0
  Started = Span D × SpanBuffer D

  abbrev pub set_text : Text → Text → Started → Started
  set_text key value r = set_tag fl w key (of_string value) r.0 r.1

  abbrev pub set_text_if_any : Text → Text → Started → Started
  set_text_if_any key value r = if is_empty value then r else set_text key value r

  -- The loop over the tags of the tracer.
  unfoldable pub set_tracer_tags : TagMap → Started → Started
  set_tracer_tags [] r = r
  set_tracer_tags ((key, value) ∷ tags) r = set_tracer_tags tags (set_text key value r)

  -- A tag of the call: not a priority where one is there already.
  unfoldable pub set_start_tag : Text → Value D → Started → Started
  set_start_tag key value r =
      let tagged : Started = set_tag fl w key value r.0 r.1 in
      if same key (codes "sampling.priority")
      then elim (span_sampling_priority fl r.0 r.1) [ none ↦ tagged | some p ↦ r ]
      else tagged

  unfoldable pub set_start_tags : List (Text × Value D) → Started → Started
  unfolding set_start_tag
  set_start_tags [] r = r
  set_start_tags ((key, value) ∷ tags) r = set_start_tags tags (set_start_tag key value r)

  -- The span before it is tagged.
  unfoldable pub new_span :
      Tracer fl → D → ℕ → TimePoint → Text → List (Option SpanContext) → SpanBuffer D → Started
  unfolding first_parent child_context
  new_span tracer junk span_id start_time operation_name references b =
      let parent = first_parent fl references in
      make_span fl junk span_id (trace_id_from fl span_id parent) (parent_id_from fl parent)
        (child_context fl tracer.logger operation_name span_id parent) start_time
        (tracer.opts).service (tracer.opts).type_name operation_name operation_name
        (tracer.opts).operation_name_override tracer.legacy_obfuscation b

  -- `StartSpanWithOptions`, with the identifier from `get_id_` and the time from `get_time_`.
  unfoldable pub start_span_with_options :
      Tracer fl
      → D
      → ℕ
      → TimePoint
      → Text
      → List (Option SpanContext)
      → List (Text × Value D)
      → SpanBuffer D
      → Started
  unfolding new_span set_tracer_tags set_start_tags
  start_span_with_options tracer junk span_id start_time operation_name references tags b =
      let span : Started = new_span tracer junk span_id start_time operation_name references b in
      let with_environment : Started =
        set_text_if_any (codes "env") (tracer.opts).environment span in
      let with_version : Started =
        set_text_if_any (codes "version") (tracer.opts).version with_environment in
      set_start_tags tags (set_tracer_tags (tracer.opts).tags with_version)

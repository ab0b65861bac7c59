-- ===== src/Span/Tagging.antt =====
-- The class `Span` of src/span.cpp: the constructor, `SetTag`, the sampling priority, the service
-- name, the baggage and the context. What happens to the buffer is part of each operation.
use dd_opentracing_cpp.Prelude.{
  ℕ, ℤ, pos, Bool, false, not, Option, none, some, [], ◌∷◌, Text, codes, is_empty, if◌then◌else◌,
  ◌==◌, text_eq, same,
}
use dd_opentracing_cpp.Floats.{Floats}
use dd_opentracing_cpp.Integers.{stoi}
use dd_opentracing_cpp.SamplingPriority.{SamplingPriority, UserSamplingPriority, drop, keep}
use dd_opentracing_cpp.SpanData.{SpanData}
use dd_opentracing_cpp.SpanContext.{SpanContext, set_baggage_item, baggage_item}
use dd_opentracing_cpp.PendingTrace.{set_meta}
use dd_opentracing_cpp.SpanBuffer.{
  SpanBuffer, get_sampling_priority, set_sampling_priority_from_user, set_service_name,
  register_span,
}
use dd_opentracing_cpp.SpanBuffer.Operations.{generate_sampling_priority}
use dd_opentracing_cpp.Span.{Span}
use dd_opentracing_cpp.Span.Values.{Value, JsonWriter, text_of}

-- `normalizeTagKey`.
unfoldable pub normalize_tag_key : Text → Text
normalize_tag_key [] = []
normalize_tag_key (c ∷ tag) = (if c == b':' then b'.' else c) ∷ normalize_tag_key tag

-- `makeSpanData`.
abbrev pub make_span_data : {D : Type 0} → Text → Text → Text → Text → ℕ → ℕ → ℕ → ℤ → SpanData D
make_span_data type_name service resource name trace_id span_id parent_id start = record {
  type_name = type_name;
  service = service;
  resource = resource;
  name = name;
  trace_id = trace_id;
  span_id = span_id;
  parent_id = parent_id;
  start = start;
  duration = pos 0;
  error = 0;
  meta = [];
  metrics = [];
}

-- `TimePoint`, in nanoseconds.
pub record TimePoint : Type 0 where
  pub absolute_time : ℤ
  pub relative_time : ℕ

-- The priority that a value of "sampling.priority" asks for; the outer `none` is a text that
-- `std::stoi` refuses.
unfoldable pub parsed_priority : Text → Option (Option UserSamplingPriority)
parsed_priority result = if is_empty result then some none else elim (stoi result) [
  | none ↦ none
  | some (pos n) ↦ some (some (if n == 0 then drop else keep))
  | some i ↦ some (some keep)
]

module _ {D : Type 0} (fl : Floats D) where
  -- The constructor. It registers the span.
  unfoldable pub make_span :
      D
      → ℕ
      → ℕ
      → ℕ
      → SpanContext
      → TimePoint
      → Text
      → Text
      → Text
      → Text
      → Text
      → Bool
      → SpanBuffer D
      → Span D × SpanBuffer D
  make_span junk span_id trace_id parent_id context start_time service type_name name resource
        operation_name_override legacy_obfuscation b =
      let data0 : SpanData D =
        make_span_data type_name service resource name trace_id span_id parent_id
          start_time.absolute_time in
      let renamed : SpanData D = record (set_meta (codes "operation") data0.name data0) {
        name = operation_name_override;
      } in
      (
        record {
          is_finished = false;
          context = context;
          start_time = start_time.relative_time;
          operation_name_override = operation_name_override;
          legacy_obfuscation = legacy_obfuscation;
          span = if not (is_empty operation_name_override) then renamed else data0;
        },
        register_span fl junk context b,
      )

  -- `setSamplingPriority`. Its result is not used.
  abbrev pub set_sampling_priority :
      Option UserSamplingPriority → Span D → SpanBuffer D → SpanBuffer D
  set_sampling_priority user_priority s b =
      set_sampling_priority_from_user fl (s.context).trace_id user_priority b

  -- `getSamplingPriority`.
  abbrev pub span_sampling_priority : Span D → SpanBuffer D → Option SamplingPriority
  span_sampling_priority s b = get_sampling_priority fl (s.context).trace_id b

  -- `setServiceName`.
  abbrev pub set_span_service : Text → Span D → SpanBuffer D → Span D × SpanBuffer D
  set_span_service service_name s b = (
    record s { span = record (s.span) { service = service_name } },
    set_service_name fl (s.span).trace_id service_name b,
  )

  -- What `SetTag` does for a key that names the sampling priority, and nothing for a text that
  -- cannot be parsed.
  unfoldable pub apply_priority :
      Option (Option UserSamplingPriority) → Span D → SpanBuffer D → SpanBuffer D
  apply_priority none s b = b
  apply_priority (some user_priority) s b = set_sampling_priority user_priority s b

  -- The second part of `SetTag`, for a normalized key and the text of the value.
  unfoldable pub apply_tag : Text → Text → Span D → SpanBuffer D → Span D × SpanBuffer D
  unfolding parsed_priority apply_priority
  apply_tag k result s b =
      if same k (codes "sampling.priority")
      then (s, apply_priority (parsed_priority result) s b)
      else if same k (codes "manual.keep")
      then (s, set_sampling_priority (some keep) s b)
      else if same k (codes "manual.drop")
      then (s, set_sampling_priority (some drop) s b)
      else if same k (codes "service.name")
      then set_span_service result s b
      else (s, b)

  abbrev pub put_tag : Text → Text → Span D → Span D
  put_tag k result s = record s { span = set_meta k result s.span }

  -- `context`: the priority is decided before the context is handed out.
  unfoldable pub context_of_span : ℕ → Span D → SpanBuffer D → SpanContext × SpanBuffer D
  context_of_span now s b = (s.context, generate_sampling_priority fl now s.span b)

  -- `SetBaggageItem` and `BaggageItem`.
  abbrev pub set_span_baggage : Text → Text → Span D → Span D
  set_span_baggage restricted_key value s = record s {
    context = set_baggage_item restricted_key value s.context;
  }

  abbrev pub span_baggage : Text → Span D → Text
  span_baggage restricted_key s = baggage_item restricted_key s.context

module _ {J D : Type 0} (fl : Floats D) (w : JsonWriter J D) where
  -- `SetTag`.
  unfoldable pub set_tag : Text → Value D → Span D → SpanBuffer D → Span D × SpanBuffer D
  unfolding normalize_tag_key text_of apply_tag
  set_tag key value s b =
      apply_tag fl (normalize_tag_key key) (text_of w value)
        (put_tag fl (normalize_tag_key key) (text_of w value) s) b

-- ===== src/Propagation/Inject.antt =====
-- `SpanContext::serialize` of src/span_context.cpp for the headers of a carrier. The carrier is a
-- parameter: its `Set` returns the carrier after the call, and the error if there was one. Each
-- call of the span buffer is one of its steps.
use dd_opentracing_cpp.Prelude.{
  Bool, Option, none, some, List, [], ◌∷◌, ◌++◌, Text, codes, is_empty, if◌then◌else◌,
}
use dd_opentracing_cpp.Floats.{Floats}
use dd_opentracing_cpp.Tags.{TagMap}
use dd_opentracing_cpp.SpanContext.{SpanContext}
use dd_opentracing_cpp.SpanBuffer.{SpanBuffer, get_sampling_priority, lock_sampling_priority}
use dd_opentracing_cpp.SpanBuffer.Operations.{serialize_trace_tags}
use dd_opentracing_cpp.Propagation.{
  HeadersImpl, PropagationStyle, propagation_headers, baggage_prefix, or_else,
}

-- `getPropagationHeaderNames`.
unfoldable pub get_propagation_header_names : List PropagationStyle → Bool → List Text
get_propagation_header_names [] enabled = []
get_propagation_header_names (style ∷ styles) enabled =
    let h = propagation_headers style in
    let first = h.trace_id_header ∷ h.span_id_header ∷ [] in
    let second = if enabled then h.sampling_priority_header ∷ h.origin_header ∷ [] else [] in
    first ++ (second ++ h.tags_header ∷ get_propagation_header_names styles enabled)

module _ {D W E : Type 0} (fl : Floats D) (set_entry : Text → Text → W → W × Option E) where
  -- What a piece of `serialize` does to the span buffer and the carrier, and the error it returns.
  abbrev pub Action : Type 0
  Action = SpanBuffer D → W → SpanBuffer D × W × Option E

  -- `if (!result) return result;` between two pieces.
  abbrev pub and_then : Action → Action → Action
  and_then f g b w =
      let (b', w', result) = f b w in
      elim result [ none ↦ g b' w' | some error ↦ (b', w', some error) ]

  abbrev pub nothing : Action
  nothing b w = (b, w, none)

  -- `writer.Set(key, value)`.
  abbrev pub set_header : Text → Text → Action
  set_header key value b w = let (w', result) = set_entry key value w in (b, w', result)

  -- The part of `serialize` under `if (prioritySamplingEnabled)`.
  unfoldable pub inject_priority : HeadersImpl → SpanContext → Action
  inject_priority h context b w = elim (get_sampling_priority fl context.trace_id b) [
    | some p ↦
        and_then (set_header h.sampling_priority_header (h.encode_sampling_priority p))
          (if is_empty context.origin then nothing else set_header h.origin_header context.origin)
          (lock_sampling_priority fl context.trace_id b) w
    | none ↦
        if context.nginx_opentracing_compatibility_hack
        then set_header h.sampling_priority_header (codes "1") b w
        else nothing b w
  ]

  unfoldable pub inject_tags : HeadersImpl → SpanContext → Action
  inject_tags h context b w =
      let (b', tags) = serialize_trace_tags fl context.trace_id b in
      set_header h.tags_header (or_else [] tags) b' w

  unfoldable pub inject_baggage : TagMap → Action
  inject_baggage [] b w = nothing b w
  inject_baggage ((k, v) ∷ baggage) b w =
      and_then (set_header (baggage_prefix ++ k) v) (inject_baggage baggage) b w

  -- `serialize(writer, pending_traces, headers_impl, prioritySamplingEnabled)`.
  unfoldable pub serialize_headers : HeadersImpl → Bool → SpanContext → Action
  unfolding inject_priority inject_tags inject_baggage
  serialize_headers h enabled context =
      and_then (set_header h.trace_id_header (h.encode_id context.trace_id)) (
        and_then (set_header h.span_id_header (h.encode_id context.id)) (
          and_then (if enabled then inject_priority h context else nothing)
            (and_then (inject_tags h context) (inject_baggage context.baggage))))

  -- `serialize(writer, pending_traces, styles, prioritySamplingEnabled)`.
  unfoldable pub serialize : List PropagationStyle → Bool → SpanContext → Action
  unfolding serialize_headers
  serialize [] enabled context = nothing
  serialize (style ∷ styles) enabled context =
      and_then (serialize_headers (propagation_headers style) enabled context)
        (serialize styles enabled context)

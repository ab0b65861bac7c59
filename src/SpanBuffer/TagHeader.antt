-- ===== src/SpanBuffer/TagHeader.antt =====
-- `SpanBuffer::serializeTraceTags` of src/span_buffer.cpp against the decoder of
-- src/tag_propagation.cpp.
use dd_opentracing_cpp.Prelude.{
  ℕ, ◌≡◌, refl, inl, inr, ◌||◌, none, some, [], ◌∷◌, arith, if◌then◌else◌, ltb, Text, codes,
  is_empty, text_eq, nat_eq, same, assign, find-assign, DistinctKeys-assign, length, Bool-cases,
  Option-cases,
}
use dd_opentracing_cpp.Floats.{Floats}
use dd_opentracing_cpp.Tags.{TagMap, append_tag, decoded, deserialize_tags}
use dd_opentracing_cpp.Tags.RoundTrip.{
  append_tags, IsPlain, AllPlain, Distinct, deserialize_tags-append_tags,
}
use dd_opentracing_cpp.SamplingPriority.{
  SamplingMechanism, default, agent_rate, remote_rate_auto, rule, manual, app_sec,
  remote_rate_user_defined, remote_rate_emergency, span_rule,
}
use dd_opentracing_cpp.PendingTrace.{PendingTrace, decision_maker, apply_sampling_decision}
use dd_opentracing_cpp.SpanBuffer.{SpanBuffer, serialize_tags, find_trace}
use dd_opentracing_cpp.SpanBuffer.Operations.{encoded_trace, serialize_trace_tags}

serialize_tags-append_tags :
    (text : Text) (ts : TagMap) → serialize_tags text ts ≡ append_tags text ts
unfolding serialize_tags
serialize_tags-append_tags text [] = refl
serialize_tags-append_tags text ((k, v) ∷ ts) = serialize_tags-append_tags (append_tag text k v) ts

AllPlain-assign :
    (k v : Text) (ts : TagMap) → IsPlain (k, v) → AllPlain ts → AllPlain (assign k v ts)
unfolding assign
AllPlain-assign k v [] p h = (p, tt)
AllPlain-assign k v ((j, w) ∷ ts) p h = elim (Bool-cases (same j k)) [
  | inl e ↦ rw e ((h.0.0, h.0.1, p.2), h.1)
  | inr e ↦ rw e (h.0, AllPlain-assign k v ts p h.1)
]

IsPlain-decision_maker : (m : SamplingMechanism) → IsPlain (codes "_dd.p.dm", decision_maker m)
IsPlain-decision_maker default = omega arith
IsPlain-decision_maker agent_rate = omega arith
IsPlain-decision_maker remote_rate_auto = omega arith
IsPlain-decision_maker rule = omega arith
IsPlain-decision_maker manual = omega arith
IsPlain-decision_maker app_sec = omega arith
IsPlain-decision_maker remote_rate_user_defined = omega arith
IsPlain-decision_maker remote_rate_emergency = omega arith
IsPlain-decision_maker span_rule = omega arith

module _ {D : Type 0} (fl : Floats D) where
  decided_tags :
      (trace : PendingTrace D)
      → AllPlain trace.trace_tags
      → Distinct trace.trace_tags
      → AllPlain (apply_sampling_decision fl trace).trace_tags
        × Distinct (apply_sampling_decision fl trace).trace_tags
  unfolding apply_sampling_decision
  decided_tags trace p d = elim (Option-cases trace.sampling_priority) [
    | inl e ↦ rw (e, apply_sampling_decision) (p, d)
    | inr (q, e) ↦ elim (Bool-cases (trace.sampling_decision_extracted || is_empty trace.service)) [
      | inl h ↦ rw (e, apply_sampling_decision, h) (p, d)
      | inr h ↦ elim (Option-cases trace.sample_result.sampling_mechanism) [
        | inl k ↦ rw (e, apply_sampling_decision, h, k) (p, d)
        | inr (m, k) ↦
            rw (e, apply_sampling_decision, h, k)
              (
                AllPlain-assign (codes "_dd.p.dm") (decision_maker m) trace.trace_tags
                    (IsPlain-decision_maker m) p,
                DistinctKeys-assign (codes "_dd.p.dm") (decision_maker m) trace.trace_tags d,
              )
      ]
    ]
  ]

  -- The tags of a trace, and the header value that encodes them.
  abbrev pub decided_tags_of : PendingTrace D → TagMap
  decided_tags_of trace = (apply_sampling_decision fl trace).trace_tags

  abbrev pub header_of : PendingTrace D → Text
  header_of trace = serialize_tags [] (decided_tags_of trace)

  -- For a trace of the buffer whose tags have distinct keys and no separators in them,
  -- `serializeTraceTags` first records the sampling decision among the tags. It returns the
  -- encoding of them if that is no longer than the configured maximum, and `nullptr` otherwise; and
  -- the decoder reads the encoding back as just these tags.
  pub serialize_trace_tags-decodes :
      (trace_id : ℕ) (b : SpanBuffer D) (trace : PendingTrace D)
      → find_trace fl trace_id b ≡ some trace
      → AllPlain trace.trace_tags
      → Distinct trace.trace_tags
      → ((serialize_trace_tags fl trace_id b).1 ≡ (
          if ltb b.options.tags_header_size (length (header_of trace))
          then none
          else some (header_of trace)))
        × (deserialize_tags (header_of trace) ≡ decoded (decided_tags_of trace))
        × (find_trace fl trace_id (serialize_trace_tags fl trace_id b).0
            ≡ some (
                if ltb b.options.tags_header_size (length (header_of trace))
                then record (apply_sampling_decision fl trace) {
                  propagation_error = codes "inject_max_size";
                }
                else apply_sampling_decision fl trace))
  unfolding serialize_trace_tags encoded_trace
  serialize_trace_tags-decodes trace_id b trace e p d =
      let h = decided_tags trace p d in
      (
        rw (e, serialize_trace_tags) (ground arith),
        rw (serialize_tags-append_tags [] (decided_tags_of trace))
            (deserialize_tags-append_tags (decided_tags_of trace) h.0 h.1),
        rw (e, serialize_trace_tags)
            (ground (
              arith,
              find-assign trace_id trace_id (encoded_trace fl b.options.tags_header_size trace).0
                  b.traces,
            )),
      )

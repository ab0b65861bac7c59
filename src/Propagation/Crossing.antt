-- ===== src/Propagation/Crossing.antt =====
-- The whole way of a context of src/span_context.cpp from one service to the next.
use dd_opentracing_cpp.Prelude.{
  ℕ, ◌≤◌, ◌≡◌, ◌∙◌, ap, refl, Bool, true, false, Option, none, some, [], Text, if◌then◌else◌,
  text_eq, nat_eq, find-assign, arith, ltb, length,
}
use dd_opentracing_cpp.Floats.{Floats, u64_max}
use dd_opentracing_cpp.Tags.{TagMap, decoded, deserialize_tags}
use dd_opentracing_cpp.Tags.RoundTrip.{AllPlain, Distinct}
use dd_opentracing_cpp.SamplingPriority.{SamplingPriority}
use dd_opentracing_cpp.SpanContext.{SpanContext}
use dd_opentracing_cpp.PendingTrace.{PendingTrace, apply_sampling_decision}
use dd_opentracing_cpp.SpanBuffer.{
  SpanBuffer, serialize_tags, find_trace, put_trace, get_sampling_priority, lock_sampling_priority,
  on_trace,
}
use dd_opentracing_cpp.SpanBuffer.Operations.{serializes, step}
use dd_opentracing_cpp.SpanBuffer.Locked.{Decision, IsLockedAt, step-IsLockedAt}
use dd_opentracing_cpp.SpanBuffer.TagHeader.{
  header_of, decided_tags_of, serialize_trace_tags-decodes,
}
use dd_opentracing_cpp.Propagation.{
  Given, PropagationStyle, propagation_headers, or_else, deserialize_headers, extracted,
}
use dd_opentracing_cpp.Propagation.Inject.{serialize_headers}
use dd_opentracing_cpp.Propagation.RoundTrip.{received, deserialize_headers-entries}
use dd_opentracing_cpp.Propagation.Carried.{append_entry, tags_result, serialize_headers-entries}

module _ {D : Type 0} where
  -- The trace is there, and locked with this decision.
  abbrev pub FoundLocked : Decision → Option (PendingTrace D) → Type 0
  FoundLocked d none = ⊥
  FoundLocked d (some t) = IsLockedAt d t

module _ {D : Type 0} (fl : Floats D) where
  abbrev locked : PendingTrace D → PendingTrace D
  locked t = record t { sampling_priority_locked = true }

  lock-put_trace :
      (id : ℕ) (b : SpanBuffer D) (t : PendingTrace D)
      → find_trace fl id b ≡ some t
      → lock_sampling_priority fl id b ≡ put_trace fl id (locked t) b
  unfolding lock_sampling_priority on_trace
  lock-put_trace id b t f = rw (lock_sampling_priority, on_trace, f) refl

  find-lock :
      (id : ℕ) (b : SpanBuffer D) (t : PendingTrace D)
      → find_trace fl id b ≡ some t
      → find_trace fl id (lock_sampling_priority fl id b) ≡ some (locked t)
  find-lock id b t f =
      ap (λ v. find_trace fl id v) (lock-put_trace id b t f)
      ∙ find-assign id id (locked t) b.traces
      ∙ ground arith

  decided-locked : (t : PendingTrace D) → decided_tags_of fl (locked t) ≡ decided_tags_of fl t
  unfolding apply_sampling_decision
  decided-locked t = ground arith

  priority_of :
      (id : ℕ) (b : SpanBuffer D) (t : PendingTrace D) (p : SamplingPriority)
      → find_trace fl id b ≡ some t
      → t.sampling_priority ≡ some p
      → get_sampling_priority fl id b ≡ some p
  unfolding get_sampling_priority
  priority_of id b t p f q = rw (get_sampling_priority, f) q

  text_decodes :
      (long : Bool) (r : Option Text) (header : Text) (tags : TagMap)
      → r ≡ (if long then none else some header)
      → deserialize_tags header ≡ decoded tags
      → deserialize_tags (or_else [] r) ≡ decoded (if long then [] else tags)
  unfolding deserialize_tags
  text_decodes true r header tags e d = ap (λ x. deserialize_tags (or_else [] x)) e
  text_decodes false r header tags e d = ap (λ x. deserialize_tags (or_else [] x)) e ∙ d

  -- The tags that the next service reads.
  abbrev pub sent_tags : SpanBuffer D → PendingTrace D → TagMap
  sent_tags b t =
      if ltb b.options.tags_header_size (length (header_of fl t)) then [] else decided_tags_of fl t

  tags_result-decodes :
      (c : SpanContext) (b : SpanBuffer D) (t : PendingTrace D)
      → find_trace fl c.trace_id b ≡ some t
      → AllPlain t.trace_tags
      → Distinct t.trace_tags
      → deserialize_tags (or_else [] (tags_result fl c b).1) ≡ decoded (sent_tags b t)
  tags_result-decodes c b t f a d =
      let s =
        serialize_trace_tags-decodes fl c.trace_id (lock_sampling_priority fl c.trace_id b)
          (locked t) (find-lock c.trace_id b t f) a d in
      text_decodes
        (ltb (lock_sampling_priority fl c.trace_id b).options.tags_header_size
          (length (header_of fl (locked t))))
        (tags_result fl c b).1 (header_of fl (locked t)) (decided_tags_of fl (locked t)) s.0 s.1
      ∙ ap (λ v. decoded (sent_tags v (locked t))) (lock-put_trace c.trace_id b t f)
      ∙ ap
          (λ g.
            decoded
              (if ltb b.options.tags_header_size (length (serialize_tags [] g)) then [] else g))
          (decided-locked t)

  -- Where sampling by priority is enabled, a context whose trace is in the span buffer with a
  -- sampling priority is injected into a carrier that takes every entry, and the next
  -- service extracts it in the same style: it gets the trace, the span as the parent, the origin,
  -- the baggage and the priority, which B3 headers reduce to keep or drop; and it gets the tags of
  -- the trace, with the sampling decision among them, unless they are too long for the header, and
  -- none then. The identifiers fit 64 bits, the baggage has distinct keys, and so have the tags,
  -- which hold no separators.
  pub deserialize_headers-serialize_headers :
      (given : Given) (style : PropagationStyle) (c : SpanContext) (b : SpanBuffer D)
      (t : PendingTrace D) (p : SamplingPriority)
      → find_trace fl c.trace_id b ≡ some t
      → t.sampling_priority ≡ some p
      → AllPlain t.trace_tags
      → Distinct t.trace_tags
      → Distinct c.baggage
      → c.trace_id ≤ u64_max
      → c.id ≤ u64_max
      → deserialize_headers given
          (propagation_headers style)
          (serialize_headers fl append_entry (propagation_headers style) true c b []).1
        ≡ extracted (received given.logger style c p (sent_tags b t))
  deserialize_headers-serialize_headers given style c b t p f q a d db ht hi =
      ap (λ r. deserialize_headers given (propagation_headers style) r.1)
        (serialize_headers-entries fl style c b p (priority_of c.trace_id b t p f q))
      ∙ deserialize_headers-entries given style c p (or_else [] (tags_result fl c b).1)
          (sent_tags b t) ht hi db (tags_result-decodes c b t f a d)

  found_locked :
      (d : Decision) (o : Option (PendingTrace D)) (u : PendingTrace D)
      → o ≡ some u
      → IsLockedAt d u
      → FoundLocked d o
  found_locked d o u e l = rw e l

  -- Where sampling by priority is enabled, injecting a context whose trace has a sampling priority,
  -- and tags with distinct keys and no separators, into a carrier that takes every entry leaves the
  -- trace in the buffer, locked with the priority that was sent and with the same word on whether
  -- it was extracted.
  pub serialize_headers-FoundLocked :
      (style : PropagationStyle) (c : SpanContext) (b : SpanBuffer D) (t : PendingTrace D)
      (p : SamplingPriority)
      → find_trace fl c.trace_id b ≡ some t
      → t.sampling_priority ≡ some p
      → AllPlain t.trace_tags
      → Distinct t.trace_tags
      → FoundLocked
          (some p, t.sampling_decision_extracted)
          (find_trace fl c.trace_id
            (serialize_headers fl append_entry (propagation_headers style) true c b []).0)
  unfolding step
  serialize_headers-FoundLocked style c b t p f q a d =
      let lf = find-lock c.trace_id b t f in
      let s =
        serialize_trace_tags-decodes fl c.trace_id (lock_sampling_priority fl c.trace_id b)
          (locked t) lf a d in
      found_locked (some p, t.sampling_decision_extracted) _ _
        (ap (λ r. find_trace fl c.trace_id r.0)
            (serialize_headers-entries fl style c b p (priority_of c.trace_id b t p f q))
          ∙ s.2)
        (step-IsLockedAt fl (serializes c.trace_id) (lock_sampling_priority fl c.trace_id b)
          c.trace_id (locked t) _ (some p, t.sampling_decision_extracted) lf (refl, q, refl) s.2)

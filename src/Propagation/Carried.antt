-- ===== src/Propagation/Carried.antt =====
-- What `serialize` of src/span_context.cpp puts on a carrier that takes every entry.
use dd_opentracing_cpp.Prelude.{
  ◌≡◌, ◌∙◌, ap, refl, sym, inl, inr, true, Option, none, some, List, [], ◌∷◌, ◌++◌, Text, is_empty,
  Bool-cases, text_eq, nat_eq, append-nil, append_assoc,
}
use dd_opentracing_cpp.Floats.{Floats}
use dd_opentracing_cpp.Tags.{TagMap}
use dd_opentracing_cpp.SamplingPriority.{SamplingPriority}
use dd_opentracing_cpp.SpanContext.{SpanContext}
use dd_opentracing_cpp.SpanBuffer.{SpanBuffer, get_sampling_priority, lock_sampling_priority}
use dd_opentracing_cpp.SpanBuffer.Operations.{serialize_trace_tags}
use dd_opentracing_cpp.Propagation.{PropagationStyle, propagation_headers, baggage_prefix, or_else}
use dd_opentracing_cpp.Propagation.Inject.{
  Action, and_then, inject_priority, inject_tags, inject_baggage, serialize_headers,
}
use dd_opentracing_cpp.Propagation.RoundTrip.{entries, baggage_entries, origin_entries}

abbrev pub Entries : Type 0
Entries = List (Text × Text)

-- A carrier that appends each entry and never fails.
abbrev pub append_entry : Text → Text → Entries → Entries × Option (Unit {0})
append_entry key value w = (w ++ (key, value) ∷ [], none)

module _ {D : Type 0} (fl : Floats D) where
  inject_baggage-entries :
      (ts : TagMap) (b : SpanBuffer D) (w : Entries)
      → inject_baggage fl append_entry ts b w ≡ (b, w ++ baggage_entries ts, none)
  unfolding inject_baggage
  inject_baggage-entries [] b w = ap (λ v. (b, v, none)) (sym (append-nil w))
  inject_baggage-entries ((k, v) ∷ ts) b w =
      inject_baggage-entries ts b (w ++ (baggage_prefix ++ k, v) ∷ [])
      ∙ ap (λ v. (b, v, none)) (append_assoc w ((baggage_prefix ++ k, v) ∷ []) (baggage_entries ts))

  -- The buffer after the lock, and what `serializeTraceTags` returns then.
  abbrev pub tags_result : SpanContext → SpanBuffer D → SpanBuffer D × Option Text
  tags_result c b = serialize_trace_tags fl c.trace_id (lock_sampling_priority fl c.trace_id b)

  abbrev continued :
      Action fl append_entry
      → SpanBuffer D × Entries × Option (Unit {0})
      → SpanBuffer D × Entries × Option (Unit {0})
  continued g (b, w, none) = g b w
  continued g (b, w, some error) = (b, w, some error)

  and_then-ok :
      (f g : Action fl append_entry) (b b' : SpanBuffer D) (w w' : Entries)
      → f b w ≡ (b', w', none)
      → and_then fl append_entry f g b w ≡ g b' w'
  and_then-ok f g b b' w w' e = ap (continued g) e

  inject_priority-entries :
      (style : PropagationStyle) (c : SpanContext) (b : SpanBuffer D) (p : SamplingPriority)
      (w : Entries)
      → get_sampling_priority fl c.trace_id b ≡ some p
      → inject_priority fl append_entry (propagation_headers style) c b w ≡ (
        lock_sampling_priority fl c.trace_id b,
        w
            ++ (
              (propagation_headers style).sampling_priority_header,
              (propagation_headers style).encode_sampling_priority p,
            )
              ∷ origin_entries style c.origin,
        none,
      )
  unfolding inject_priority
  inject_priority-entries style c b p w e = elim (Bool-cases (is_empty c.origin)) [
    | inl o ↦ rw (inject_priority, e, o) refl
    | inr o ↦
        rw (inject_priority, e, o)
          (ap (λ v. (lock_sampling_priority fl c.trace_id b, v, none))
            (append_assoc w
              ((
                (propagation_headers style).sampling_priority_header,
                (propagation_headers style).encode_sampling_priority p,
              )
                ∷ [])
              (((propagation_headers style).origin_header, c.origin) ∷ [])))
  ]

  pub serialize_headers-entries :
      (style : PropagationStyle) (c : SpanContext) (b : SpanBuffer D) (p : SamplingPriority)
      → get_sampling_priority fl c.trace_id b ≡ some p
      → serialize_headers fl append_entry (propagation_headers style) true c b []
        ≡ ((tags_result c b).0, entries style c p (or_else [] (tags_result c b).1), none)
  unfolding serialize_headers inject_tags
  serialize_headers-entries style c b p e =
      let h = propagation_headers style in
      let first : Entries =
        (h.trace_id_header, h.encode_id c.trace_id) ∷ (h.span_id_header, h.encode_id c.id) ∷ [] in
      let third : Text × Text = (h.sampling_priority_header, h.encode_sampling_priority p) in
      let tags : Text × Text = (h.tags_header, or_else [] (tags_result c b).1) in
      and_then-ok (inject_priority fl append_entry h c)
        (and_then fl append_entry (inject_tags fl append_entry h c)
          (inject_baggage fl append_entry c.baggage))
        b (lock_sampling_priority fl c.trace_id b) first
        (first ++ third ∷ origin_entries style c.origin)
        (inject_priority-entries style c b p first e)
      ∙ and_then-ok (inject_tags fl append_entry h c) (inject_baggage fl append_entry c.baggage)
          (lock_sampling_priority fl c.trace_id b) (tags_result c b).0
          (first ++ third ∷ origin_entries style c.origin)
          ((first ++ third ∷ origin_entries style c.origin) ++ tags ∷ []) refl
      ∙ inject_baggage-entries c.baggage (tags_result c b).0
          ((first ++ third ∷ origin_entries style c.origin) ++ tags ∷ [])
      ∙ ap (λ v. ((tags_result c b).0, v, none))
          (append_assoc (first ++ third ∷ origin_entries style c.origin) (tags ∷ [])
            (baggage_entries c.baggage))

-- ===== src/SpanBuffer/Valid/Steps.antt =====
-- The validity of the traces in src/span_buffer.cpp under its operations.
use dd_opentracing_cpp.Prelude.{
  ℕ, sym, ◌∙◌, inl, inr, List, [], ◌∷◌, ◌++◌, ◌==◌, nat_eq, contains, length, Bool-cases,
  Option-cases,
}
use dd_opentracing_cpp.Floats.{Floats}
use dd_opentracing_cpp.SpanData.{SpanData, env}
use dd_opentracing_cpp.SpanContext.{SpanContext}
use dd_opentracing_cpp.SpanBuffer.{
  SpanBuffer, find_trace, get_sampling_priority, register_span, set_sampling_priority_from_user,
  lock_sampling_priority, set_service_name,
}
use dd_opentracing_cpp.SpanBuffer.Operations.{
  generate_sampling_priority, finish_span, serialize_trace_tags, Operation, registers, finishes,
  sets_from_user, generates, serializes, names_service, locks, step, run,
}
use dd_opentracing_cpp.SpanBuffer.Each.{
  Each, Each-put_trace, Each-on_trace, Each-complete_trace, find-put_ne,
}
use dd_opentracing_cpp.SpanBuffer.Valid.{
  IsPending, IsPending-add_span, IsPending-start, rules_sample-mechanism, user_priority-IsPending,
  sampled_trace-IsPending, encoded_trace-IsPending, pushed-IsPending, not_empty,
}

module _ {D : Type 0} (fl : Floats D) where
  abbrev pub IsValid : SpanBuffer D → Type 0
  IsValid = Each fl IsPending

  register_span-IsValid :
      (junk : D) (context : SpanContext) (b : SpanBuffer D)
      → IsValid b
      → IsValid (register_span fl junk context b)
  unfolding register_span
  register_span-IsValid junk context b v = elim (Option-cases (find_trace fl context.trace_id b)) [
    | inl e ↦
        rw (e, register_span)
          (Each-put_trace fl IsPending context.trace_id _ b
            (IsPending-start fl context.trace_id context.id junk b.options context)
            (λ j u _ g. v j u g))
    | inr (t, e) ↦
        rw (e, register_span)
          (Each-put_trace fl IsPending context.trace_id _ b
            (rw (not_empty t.all_spans (v context.trace_id t e).incomplete)
              (IsPending-add_span fl context.trace_id context.id t (v context.trace_id t e)))
            (λ j u _ g. v j u g))
  ]

  generate-IsValid :
      (now : ℕ) (span : SpanData D) (b : SpanBuffer D)
      → IsValid b
      → IsValid (generate_sampling_priority fl now span b)
  unfolding generate_sampling_priority
  generate-IsValid now span b v = elim (Option-cases (get_sampling_priority fl span.trace_id b)) [
    | inr (p, e) ↦ rw (e, generate_sampling_priority) v
    | inl e ↦
        rw (e, generate_sampling_priority)
          (Each-on_trace fl IsPending span.trace_id _ _
            (λ t _ p.
              sampled_trace-IsPending fl span.trace_id _ t
                (rules_sample-mechanism fl now b.trace_sampler (env span) span.service span.name
                  span.trace_id)
                p)
            v)
  ]

  finish_span-IsValid :
      (now : ℕ) (clock : ℕ → ℕ) (span : SpanData D) (b : SpanBuffer D)
      → IsValid b
      → IsValid (finish_span fl now clock span b)
  unfolding finish_span
  finish_span-IsValid now clock span b v = elim (Option-cases (find_trace fl span.trace_id b)) [
    | inl e ↦ rw (e, finish_span) v
    | inr (t, e) ↦ elim (Bool-cases (contains span.span_id t.all_spans)) [
      | inr h ↦ rw (e, finish_span, h) v
      | inl h ↦ elim (Bool-cases (length (t.finished_spans ++ span ∷ []) == length t.all_spans)) [
        | inl full ↦
            rw (e, finish_span, h, full)
              (Each-complete_trace fl IsPending now clock span _
                (λ j u n g. v j u (sym (find-put_ne fl span.trace_id j _ b n) ∙ g)))
        | inr more ↦
            rw (e, finish_span, h, more)
              (Each-put_trace fl IsPending span.trace_id _ b
                (pushed-IsPending fl span t (v span.trace_id t e) h more) (λ j u _ g. v j u g))
      ]
    ]
  ]

  serialize_trace_tags-IsValid :
      (trace_id : ℕ) (b : SpanBuffer D) → IsValid b → IsValid (serialize_trace_tags fl trace_id b).0
  unfolding serialize_trace_tags
  serialize_trace_tags-IsValid trace_id b v = elim (Option-cases (find_trace fl trace_id b)) [
    | inl e ↦ rw (e, serialize_trace_tags) v
    | inr (t, e) ↦
        rw (e, serialize_trace_tags)
          (Each-put_trace fl IsPending trace_id _ b
            (encoded_trace-IsPending fl trace_id b.options.tags_header_size t (v trace_id t e))
            (λ j u _ g. v j u g))
  ]

  -- Every operation keeps the buffer valid: each trace in it lacks a span that is registered and
  -- has not finished, all its finished spans were registered and belong to it, and its sampling
  -- decision, if it was made here, has its mechanism on record, as
  -- `applySamplingDecisionToTraceTags` asserts.
  pub step-IsValid : (op : Operation D) (b : SpanBuffer D) → IsValid b → IsValid (step fl op b)
  unfolding step set_sampling_priority_from_user lock_sampling_priority set_service_name
  step-IsValid (registers junk context) b v = register_span-IsValid junk context b v
  step-IsValid (finishes now clock span) b v = finish_span-IsValid now clock span b v
  step-IsValid (sets_from_user trace_id value) b v =
      Each-on_trace fl IsPending trace_id _ b
        (λ t _ p. user_priority-IsPending fl trace_id value t p) v
  step-IsValid (generates now span) b v = generate-IsValid now span b v
  step-IsValid (serializes trace_id) b v = serialize_trace_tags-IsValid trace_id b v
  step-IsValid (names_service trace_id name) b v =
      Each-on_trace fl IsPending trace_id _ b
        (λ t _ p. record {
          incomplete = p.incomplete;
          registered = p.registered;
          explained = p.explained;
        })
        v
  step-IsValid (locks trace_id) b v =
      Each-on_trace fl IsPending trace_id _ b
        (λ t _ p. record {
          incomplete = p.incomplete;
          registered = p.registered;
          explained = p.explained;
        })
        v

  -- A valid buffer stays valid through any history of operations: each trace in it lacks a span
  -- that is registered and has not finished, all its finished spans were registered and belong to
  -- it, and its sampling decision, if it was made here, has its mechanism on record, as
  -- `applySamplingDecisionToTraceTags` asserts.
  pub run-IsValid :
      (ops : List (Operation D)) (b : SpanBuffer D) → IsValid b → IsValid (run fl ops b)
  unfolding run
  run-IsValid [] b v = v
  run-IsValid (op ∷ ops) b v = run-IsValid ops (step fl op b) (step-IsValid op b v)

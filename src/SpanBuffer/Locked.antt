-- ===== src/SpanBuffer/Locked.antt =====
-- The lock on the sampling decision in src/span_buffer.cpp.
use dd_opentracing_cpp.Prelude.{
  ℕ, ◌≡◌, refl, sym, ◌∙◌, inl, inr, Bool, true, Option, none, some, [], ◌∷◌, ◌++◌, arith, ◌==◌,
  ==_iff, nat_eq, contains, length, Bool-cases, Option-cases,
}
use dd_opentracing_cpp.Floats.{Floats}
use dd_opentracing_cpp.SpanData.{SpanData}
use dd_opentracing_cpp.SpanContext.{SpanContext}
use dd_opentracing_cpp.SamplingPriority.{SamplingPriority, UserSamplingPriority}
use dd_opentracing_cpp.PendingTrace.{PendingTrace, apply_sampling_decision}
use dd_opentracing_cpp.Sampler.{SampleResult}
use dd_opentracing_cpp.SpanBuffer.{
  SpanBuffer, SpanBufferOptions, find_trace, get_sampling_priority, start_trace, user_priority,
  sampler_priority, register_span, set_sampling_priority_from_user, lock_sampling_priority,
  set_service_name,
}
use dd_opentracing_cpp.SpanBuffer.Operations.{
  sampled_trace, generate_sampling_priority, finish_span, encoded_trace, serialize_trace_tags,
  Operation, registers, finishes, sets_from_user, generates, serializes, names_service, locks, step,
}
use dd_opentracing_cpp.SpanBuffer.Each.{
  Each, Each-put_trace, Each-on_trace, Each-complete_trace, find-put_ne,
}

-- The decision of a trace: its priority, and whether it was extracted.
abbrev pub Decision : Type 0
Decision = Option SamplingPriority × Bool

module _ {D : Type 0} where
  -- The trace is locked with this decision.
  abbrev pub IsLockedAt : Decision → PendingTrace D → Type 0
  IsLockedAt d t =
      (t.sampling_priority_locked ≡ true)
      × (t.sampling_priority ≡ d.0)
      × (t.sampling_decision_extracted ≡ d.1)

module _ {D : Type 0} (fl : Floats D) where
  -- What the buffer has under `id` is locked with this decision.
  abbrev Kept : ℕ → Decision → ℕ → PendingTrace D → Type 0
  Kept id d j t = (id == j) ≡ true → IsLockedAt d t

  module _ (id : ℕ) (d : Decision) where
    user_priority-Kept :
        (j : ℕ) (t : PendingTrace D) (value : Option UserSamplingPriority)
        → Kept id d j t
        → Kept id d j (user_priority fl value t)
    unfolding user_priority
    user_priority-Kept j t value k h = ground (arith, k h)

    sampled_trace-Kept :
        (j : ℕ) (t : PendingTrace D) (r : SampleResult D)
        → Kept id d j t
        → Kept id d j (sampled_trace fl r t)
    unfolding sampled_trace sampler_priority
    sampled_trace-Kept j t r k h = ground (arith, k h)

    start_trace-Kept :
        (j : ℕ) (t : PendingTrace D) (options : SpanBufferOptions D) (context : SpanContext)
        → Kept id d j t
        → Kept id d j (start_trace fl options context t)
    unfolding start_trace
    start_trace-Kept j t options context k h = ground (arith, k h)

    encoded_trace-Kept :
        (j n : ℕ) (t : PendingTrace D) → Kept id d j t → Kept id d j (encoded_trace fl n t).0
    unfolding encoded_trace apply_sampling_decision
    encoded_trace-Kept j n t k h = ground (arith, k h)

    generate-Kept :
        (now : ℕ) (span : SpanData D) (b : SpanBuffer D)
        → Each fl (Kept id d) b
        → Each fl (Kept id d) (generate_sampling_priority fl now span b)
    unfolding generate_sampling_priority
    generate-Kept now span b v = elim (Option-cases (get_sampling_priority fl span.trace_id b)) [
      | inr (p, e) ↦ rw (e, generate_sampling_priority) v
      | inl e ↦
          rw (e, generate_sampling_priority)
            (Each-on_trace fl (Kept id d) span.trace_id _ _
              (λ t _ k. sampled_trace-Kept span.trace_id t _ k) v)
    ]

    absent :
        (j : ℕ) (b : SpanBuffer D) (t : PendingTrace D)
        → find_trace fl id b ≡ some t
        → find_trace fl j b ≡ none
        → (id == j) ≡ true
        → ⊥
    absent j b t f e h = cc (f, e, (==_iff id j).0 h)

    register_span-Kept :
        (junk : D) (context : SpanContext) (b : SpanBuffer D) (t : PendingTrace D)
        → find_trace fl id b ≡ some t
        → Each fl (Kept id d) b
        → Each fl (Kept id d) (register_span fl junk context b)
    unfolding register_span
    register_span-Kept junk context b t f v =
        elim (Option-cases (find_trace fl context.trace_id b)) [
          | inl e ↦
              rw (e, register_span)
                (Each-put_trace fl (Kept id d) context.trace_id _ b
                  (λ h. absurd (absent context.trace_id b t f e h)) (λ j u _ g. v j u g))
          | inr (u, e) ↦
              rw (e, register_span)
                (Each-put_trace fl (Kept id d) context.trace_id _ b
                  (λ h. ground (
                    arith,
                    v context.trace_id u e h,
                    start_trace-Kept context.trace_id u b.options context (v context.trace_id u e)
                        h,
                  ))
                  (λ j u _ g. v j u g))
        ]

    finish_span-Kept :
        (now : ℕ) (clock : ℕ → ℕ) (span : SpanData D) (b : SpanBuffer D)
        → Each fl (Kept id d) b
        → Each fl (Kept id d) (finish_span fl now clock span b)
    unfolding finish_span
    finish_span-Kept now clock span b v = elim (Option-cases (find_trace fl span.trace_id b)) [
      | inl e ↦ rw (e, finish_span) v
      | inr (t, e) ↦ elim (Bool-cases (contains span.span_id t.all_spans)) [
        | inr h ↦ rw (e, finish_span, h) v
        | inl h ↦ elim (Bool-cases (length (t.finished_spans ++ span ∷ []) == length t.all_spans)) [
          | inl full ↦
              rw (e, finish_span, h, full)
                (Each-complete_trace fl (Kept id d) now clock span _
                  (λ j u n g. v j u (sym (find-put_ne fl span.trace_id j _ b n) ∙ g)))
          | inr more ↦
              rw (e, finish_span, h, more)
                (Each-put_trace fl (Kept id d) span.trace_id _ b (v span.trace_id t e)
                  (λ j u _ g. v j u g))
        ]
      ]
    ]

    serialize_trace_tags-Kept :
        (trace_id : ℕ) (b : SpanBuffer D)
        → Each fl (Kept id d) b
        → Each fl (Kept id d) (serialize_trace_tags fl trace_id b).0
    unfolding serialize_trace_tags
    serialize_trace_tags-Kept trace_id b v = elim (Option-cases (find_trace fl trace_id b)) [
      | inl e ↦ rw (e, serialize_trace_tags) v
      | inr (t, e) ↦
          rw (e, serialize_trace_tags)
            (Each-put_trace fl (Kept id d) trace_id _ b
              (encoded_trace-Kept trace_id b.options.tags_header_size t (v trace_id t e))
              (λ j u _ g. v j u g))
    ]

    step-Kept :
        (op : Operation D) (b : SpanBuffer D) (t : PendingTrace D)
        → find_trace fl id b ≡ some t
        → Each fl (Kept id d) b
        → Each fl (Kept id d) (step fl op b)
    unfolding step set_sampling_priority_from_user lock_sampling_priority set_service_name
    step-Kept (registers junk context) b t f v = register_span-Kept junk context b t f v
    step-Kept (finishes now clock span) b t f v = finish_span-Kept now clock span b v
    step-Kept (sets_from_user trace_id value) b t f v =
        Each-on_trace fl (Kept id d) trace_id _ b (λ u _ k. user_priority-Kept trace_id u value k) v
    step-Kept (generates now span) b t f v = generate-Kept now span b v
    step-Kept (serializes trace_id) b t f v = serialize_trace_tags-Kept trace_id b v
    step-Kept (names_service trace_id name) b t f v =
        Each-on_trace fl (Kept id d) trace_id _ b (λ u _ k. k) v
    step-Kept (locks trace_id) b t f v =
        Each-on_trace fl (Kept id d) trace_id _ b (λ u _ k h. (refl, (k h).1, (k h).2)) v

  Kept-at :
      (id : ℕ) (d : Decision) (b : SpanBuffer D) (t : PendingTrace D)
      → find_trace fl id b ≡ some t
      → IsLockedAt d t
      → Each fl (Kept id d) b
  Kept-at id d b t f l j u g h = let e : t ≡ u = cc (f, g, (==_iff id j).0 h) in rw (← e) l

  -- Once the sampling decision of a trace is locked, no operation changes it: after any operation,
  -- for this trace or another, what the buffer has under the identifier is locked with the same
  -- priority and the same word on whether that was extracted.
  pub step-IsLockedAt :
      (op : Operation D) (b : SpanBuffer D) (id : ℕ) (t u : PendingTrace D) (d : Decision)
      → find_trace fl id b ≡ some t
      → IsLockedAt d t
      → find_trace fl id (step fl op b) ≡ some u
      → IsLockedAt d u
  step-IsLockedAt op b id t u d f l g =
      step-Kept id d op b t f (Kept-at id d b t f l) id u g ((==_iff id id).1 refl)

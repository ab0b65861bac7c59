-- ===== src/SpanBuffer/Each.antt =====
-- Statements about every trace of a buffer, and how the operations on one trace keep them.
use dd_opentracing_cpp.Prelude.{
  ℕ, ◌≡◌, ◌∙◌, inl, inr, false, none, some, arith, ◌==◌, ==_iff, if◌then◌else◌, nat_eq, find-assign,
  find-erase, Bool-cases, Option-cases,
}
use dd_opentracing_cpp.Floats.{Floats}
use dd_opentracing_cpp.PendingTrace.{PendingTrace}
use dd_opentracing_cpp.SpanBuffer.{
  SpanBuffer, find_trace, put_trace, on_trace, get_sampling_priority,
}
use dd_opentracing_cpp.SpanBuffer.Operations.{
  generate_sampling_priority, finish_in_place, unbuffer_and_write_trace, complete_trace,
}
use dd_opentracing_cpp.SpanData.{SpanData}
use dd_opentracing_cpp.PendingTrace.{finish}

module _ {D : Type 0} (fl : Floats D) where
  -- A predicate on the key and the trace holds of every entry.
  abbrev pub Each : (ℕ → PendingTrace D → Type 0) → SpanBuffer D → Type 0
  Each P b = (j : ℕ) (t : PendingTrace D) → find_trace fl j b ≡ some t → P j t

  none_at :
      (id j : ℕ) (b : SpanBuffer D)
      → find_trace fl id b ≡ none
      → find_trace fl j b ≡ (if id == j then none else find_trace fl j b)
  none_at id j b e = elim (Bool-cases (id == j)) [
    | inl h ↦ rw (← (==_iff id j).0 h, e) (ground arith)
    | inr h ↦ rw h
  ]

  -- A trace that is written out is no longer in the buffer, and the others are as they were.
  pub find-unbuffer :
      (id j : ℕ) (b : SpanBuffer D)
      → find_trace fl j (unbuffer_and_write_trace fl id b)
        ≡ (if id == j then none else find_trace fl j b)
  unfolding unbuffer_and_write_trace
  find-unbuffer id j b = elim (Option-cases (find_trace fl id b)) [
    | inl e ↦ rw (e, unbuffer_and_write_trace) (none_at id j b e)
    | inr (t, e) ↦ rw (e, unbuffer_and_write_trace) (find-erase id j b.traces)
  ]

  pub find-put_ne :
      (id j : ℕ) (t : PendingTrace D) (b : SpanBuffer D)
      → (id == j) ≡ false
      → find_trace fl j (put_trace fl id t b) ≡ find_trace fl j b
  find-put_ne id j t b h = ground (arith, find-assign id j t b.traces)

  pub find-on_trace_ne :
      (id j : ℕ) (f : PendingTrace D → PendingTrace D) (b : SpanBuffer D)
      → (id == j) ≡ false
      → find_trace fl j (on_trace fl id f b) ≡ find_trace fl j b
  unfolding on_trace
  find-on_trace_ne id j f b h = elim (Option-cases (find_trace fl id b)) [
    | inl e ↦ rw (e, on_trace)
    | inr (t, e) ↦ rw (e, on_trace) (find-put_ne id j (f t) b h)
  ]

  find-generate_ne :
      (now j : ℕ) (span : SpanData D) (b : SpanBuffer D)
      → (span.trace_id == j) ≡ false
      → find_trace fl j (generate_sampling_priority fl now span b) ≡ find_trace fl j b
  unfolding generate_sampling_priority
  find-generate_ne now j span b h = elim (Option-cases (get_sampling_priority fl span.trace_id b)) [
    | inr (p, e) ↦ rw (e, generate_sampling_priority)
    | inl e ↦ rw (e, generate_sampling_priority) (find-on_trace_ne span.trace_id j _ _ h)
  ]

  find-finish_in_place_ne :
      (clock : ℕ → ℕ) (id j : ℕ) (b : SpanBuffer D)
      → (id == j) ≡ false
      → find_trace fl j (finish_in_place fl clock id b) ≡ find_trace fl j b
  unfolding finish_in_place
  find-finish_in_place_ne clock id j b h = elim (Option-cases (find_trace fl id b)) [
    | inl e ↦ rw (e, finish_in_place)
    | inr (t, e) ↦
        rw (e, finish_in_place)
          (find-put_ne id j (finish fl clock b.span_rules t).1
            (record b { span_rules = (finish fl clock b.span_rules t).0 }) h)
  ]

  -- Completing a trace takes it out of the buffer, and leaves the others as they were.
  pub find-complete_trace :
      (now j : ℕ) (clock : ℕ → ℕ) (span : SpanData D) (b : SpanBuffer D)
      → find_trace fl j (complete_trace fl now clock span b)
        ≡ (if span.trace_id == j then none else find_trace fl j b)
  unfolding complete_trace
  find-complete_trace now j clock span b = elim (Bool-cases (span.trace_id == j)) [
    | inl h ↦ rw (find-unbuffer, h)
    | inr h ↦
        rw (find-unbuffer, h)
          (find-finish_in_place_ne clock span.trace_id j _ h ∙ find-generate_ne now j span b h)
  ]

module _ {D : Type 0} (fl : Floats D) (P : ℕ → PendingTrace D → Type 0) where
  pub Each-put_trace :
      (id : ℕ) (t : PendingTrace D) (b : SpanBuffer D)
      → P id t
      → ((j : ℕ) (u : PendingTrace D) → (id == j) ≡ false → find_trace fl j b ≡ some u → P j u)
      → Each fl P (put_trace fl id t b)
  Each-put_trace id t b p others j u e = elim (Bool-cases (id == j)) [
    | inl h ↦
        let i : id ≡ j = (==_iff id j).0 h in
        let e' : t ≡ u = ground (arith, find-assign id j t b.traces) in rw (← i, ← e') p
    | inr h ↦ others j u h (ground (arith, find-assign id j t b.traces))
  ]

  pub Each-on_trace :
      (id : ℕ) (f : PendingTrace D → PendingTrace D) (b : SpanBuffer D)
      → ((t : PendingTrace D) → find_trace fl id b ≡ some t → P id t → P id (f t))
      → Each fl P b
      → Each fl P (on_trace fl id f b)
  unfolding on_trace
  Each-on_trace id f b keep h = elim (Option-cases (find_trace fl id b)) [
    | inl e ↦ rw (e, on_trace) h
    | inr (t, e) ↦
        rw (e, on_trace) (Each-put_trace id (f t) b (keep t e (h id t e)) (λ j u _ g. h j u g))
  ]

  -- Writing a complete trace out leaves the other ones.
  pub Each-complete_trace :
      (now : ℕ) (clock : ℕ → ℕ) (span : SpanData D) (b : SpanBuffer D)
      → ((j : ℕ) (u : PendingTrace D)
          → (span.trace_id == j) ≡ false
          → find_trace fl j b ≡ some u
          → P j u)
      → Each fl P (complete_trace fl now clock span b)
  Each-complete_trace now clock span b others j u e = elim (Bool-cases (span.trace_id == j)) [
    | inl h ↦ absurd (ground (arith, find-complete_trace fl now j clock span b))
    | inr h ↦ others j u h (ground (arith, find-complete_trace fl now j clock span b))
  ]

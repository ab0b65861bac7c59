-- ===== src/SpanBuffer/Conserved.antt =====
-- The spans that each operation of src/span_buffer.cpp holds.
use dd_opentracing_cpp.Prelude.{
  Bool, ◌&&◌, ◌∙◌, if◌then◌else◌, Option, ℕ, suc, ◌+◌, ◌≡◌, refl, ap, inl, inr, List, [], ◌∷◌, ◌++◌,
  arith, ◌==◌, nat_eq, contains, length, Bool-cases, Option-cases, DistinctKeys-erase, measure_of,
  sum_values-erase,
}
use dd_opentracing_cpp.Floats.{Floats}
use dd_opentracing_cpp.SpanData.{SpanData}
use dd_opentracing_cpp.SpanContext.{SpanContext}
use dd_opentracing_cpp.SamplingPriority.{SamplingPriority}
use dd_opentracing_cpp.PendingTrace.Tagging.{Identity, identity}
use dd_opentracing_cpp.Sampler.{RulesSampler}
use dd_opentracing_cpp.SpanSampler.{Rule}
use dd_opentracing_cpp.PendingTrace.{PendingTrace, new_trace, apply_sampling_decision, finish}
use dd_opentracing_cpp.PendingTrace.Finish.{Finished, Pairs, finish-Finished}
use dd_opentracing_cpp.SpanBuffer.{
  SpanBuffer, find_trace, start_trace, get_sampling_priority, extracted_priority, user_priority,
  sampler_priority, register_span, set_sampling_priority_from_user, lock_sampling_priority,
  set_service_name,
}
use dd_opentracing_cpp.SpanBuffer.Operations.{
  sampled_trace, generate_sampling_priority, finish_in_place, unbuffer_and_write_trace,
  complete_trace, finish_span, encoded_trace, serialize_trace_tags, Operation, registers, finishes,
  sets_from_user, generates, serializes, names_service, locks, step, run,
}
use dd_opentracing_cpp.SpanBuffer.Counted.{
  count, count-append, finished_count, spans_held, is_awaited, brought, IsKeyed,
  written_count-append, Brings, Brings-refl, Brings-put, Brings-new, Brings-on_trace,
}

module _ {D : Type 0} (fl : Floats D) (test : Identity → Bool) where
  -- Finished spans that are pairwise those before pass the test as often.
  Pairs-count :
      (a : List ℕ) (p : Option SamplingPriority) (xs ys : List (SpanData D))
      → Pairs fl (Finished fl a p) xs ys
      → count test ys ≡ count test xs
  unfolding count
  Pairs-count a p [] [] h = refl
  Pairs-count a p [] (y ∷ ys) h = absurd h
  Pairs-count a p (x ∷ xs) [] h = absurd h
  Pairs-count a p (x ∷ xs) (y ∷ ys) h =
      ap (λ i. if test i then suc (count test ys) else count test ys) (h.0).unchanged
      ∙ ap (λ n. if test (identity x) then suc n else n) (Pairs-count a p xs ys h.1)

  finish-count :
      (clock : ℕ → ℕ) (rules : List (Rule D)) (t : PendingTrace D)
      → finished_count test (finish fl clock rules t).1 ≡ finished_count test t
  finish-count clock rules t =
      Pairs-count t.all_spans t.sampling_priority t.finished_spans _
        (finish-Finished fl clock rules t)

  Brings-then :
      (n : ℕ) (a b c : SpanBuffer D)
      → Brings fl test n a b
      → Brings fl test 0 b c
      → Brings fl test n a c
  Brings-then n a b c r s = record { keyed = s.keyed; held = omega (arith, r.held, s.held) }

  -- The sampler and the span rules play no part in the count.
  Brings-rebase :
      (n : ℕ) (b c : SpanBuffer D) (sampler : RulesSampler D) (rules : List (Rule D))
      → Brings fl test n (record b { trace_sampler = sampler; span_rules = rules }) c
      → Brings fl test n b c
  Brings-rebase n b c sampler rules r = record { keyed = r.keyed; held = r.held }

  generate-Brings :
      (now : ℕ) (span : SpanData D) (b : SpanBuffer D)
      → IsKeyed fl b
      → Brings fl test 0 b (generate_sampling_priority fl now span b)
  unfolding generate_sampling_priority sampled_trace sampler_priority
  generate-Brings now span b k = elim (Option-cases (get_sampling_priority fl span.trace_id b)) [
    | inr (p, e) ↦ rw (e, generate_sampling_priority) (Brings-refl fl test b k)
    | inl e ↦
        rw (e, generate_sampling_priority)
          (Brings-rebase 0 b _ _ b.span_rules (
            Brings-on_trace fl test span.trace_id _ _
              (record { enabled = k.enabled; distinct = k.distinct }) (λ t. ground arith)))
  ]

  finish_in_place-Brings :
      (clock : ℕ → ℕ) (id : ℕ) (b : SpanBuffer D)
      → IsKeyed fl b
      → Brings fl test 0 b (finish_in_place fl clock id b)
  unfolding finish_in_place
  finish_in_place-Brings clock id b k = elim (Option-cases (find_trace fl id b)) [
    | inl e ↦ rw (e, finish_in_place) (Brings-refl fl test b k)
    | inr (t, e) ↦
        rw (e, finish_in_place)
          (Brings-rebase 0 b _ b.trace_sampler _ (
            Brings-put fl test 0 id t _ _ (record { enabled = k.enabled; distinct = k.distinct }) e
              (omega (arith, finish-count clock b.span_rules t))))
  ]

  unbuffer-Brings :
      (id : ℕ) (b : SpanBuffer D)
      → IsKeyed fl b
      → Brings fl test 0 b (unbuffer_and_write_trace fl id b)
  unfolding unbuffer_and_write_trace
  unbuffer-Brings id b k = elim (Option-cases (find_trace fl id b)) [
    | inl e ↦ rw (e, unbuffer_and_write_trace) (Brings-refl fl test b k)
    | inr (t, e) ↦
        rw (e, unbuffer_and_write_trace)
          (record {
            keyed = record {
              enabled = k.enabled;
              distinct = DistinctKeys-erase id b.traces k.distinct;
            };
            held = ground (
              arith,
              k.enabled,
              sum_values-erase (finished_count test) id b.traces k.distinct,
              ap (measure_of (finished_count test)) e,
              written_count-append test b.written t.finished_spans,
            );
          })
  ]

  complete_trace-Brings :
      (now : ℕ) (clock : ℕ → ℕ) (span : SpanData D) (b : SpanBuffer D)
      → IsKeyed fl b
      → Brings fl test 0 b (complete_trace fl now clock span b)
  unfolding complete_trace
  complete_trace-Brings now clock span b k =
      let g = generate-Brings now span b k in
      let f = finish_in_place-Brings clock span.trace_id _ g.keyed in
      let w = unbuffer-Brings span.trace_id _ f.keyed in
      record { keyed = w.keyed; held = omega (arith, g.held, f.held, w.held) }

  pushed-count :
      (spans : List (SpanData D)) (span : SpanData D)
      → count test (spans ++ span ∷ []) ≡ count test spans + (if test (identity span) then 1 else 0)
  unfolding count
  pushed-count spans span = ground (arith, count-append test spans (span ∷ []))

  finish_span-Brings :
      (now : ℕ) (clock : ℕ → ℕ) (span : SpanData D) (b : SpanBuffer D)
      → IsKeyed fl b
      → Brings fl test
          (if is_awaited fl span b && test (identity span) then 1 else 0)
          b
          (finish_span fl now clock span b)
  unfolding finish_span
  finish_span-Brings now clock span b k = elim (Option-cases (find_trace fl span.trace_id b)) [
    | inl e ↦ rw (e, finish_span, is_awaited) (Brings-refl fl test b k)
    | inr (t, e) ↦ elim (Bool-cases (contains span.span_id t.all_spans)) [
      | inr h ↦ rw (e, finish_span, is_awaited, h) (Brings-refl fl test b k)
      | inl h ↦
          let pushed : PendingTrace D = record t {
            finished_spans = t.finished_spans ++ span ∷ [];
          } in
          let put =
            Brings-put fl test (if test (identity span) then 1 else 0) span.trace_id t pushed b k e
              (pushed-count t.finished_spans span) in
          elim (Bool-cases (length (t.finished_spans ++ span ∷ []) == length t.all_spans)) [
            | inl full ↦
                rw (e, finish_span, is_awaited, h, full)
                  (Brings-then (if test (identity span) then 1 else 0) b _ _ put
                    (complete_trace-Brings now clock span _ put.keyed))
            | inr more ↦ rw (e, finish_span, is_awaited, h, more) put
          ]
    ]
  ]

  start_trace-spans :
      (junk : D) (context : SpanContext) (b : SpanBuffer D)
      → (start_trace fl b.options context (new_trace fl context.trace_id junk)).finished_spans ≡ []
  unfolding start_trace new_trace extracted_priority
  start_trace-spans junk context b = ground arith

  register_span-Brings :
      (junk : D) (context : SpanContext) (b : SpanBuffer D)
      → IsKeyed fl b
      → Brings fl test 0 b (register_span fl junk context b)
  unfolding register_span count
  register_span-Brings junk context b k = elim (Option-cases (find_trace fl context.trace_id b)) [
    | inl e ↦
        rw (e, register_span)
          (Brings-new fl test context.trace_id _ b k e
            (ap (count test) (start_trace-spans junk context b)))
    | inr (t, e) ↦
        rw (e, register_span) (Brings-put fl test 0 context.trace_id t _ b k e (ground arith))
  ]

  serialize_trace_tags-Brings :
      (trace_id : ℕ) (b : SpanBuffer D)
      → IsKeyed fl b
      → Brings fl test 0 b (serialize_trace_tags fl trace_id b).0
  unfolding serialize_trace_tags encoded_trace apply_sampling_decision
  serialize_trace_tags-Brings trace_id b k = elim (Option-cases (find_trace fl trace_id b)) [
    | inl e ↦ rw (e, serialize_trace_tags) (Brings-refl fl test b k)
    | inr (t, e) ↦
        rw (e, serialize_trace_tags) (Brings-put fl test 0 trace_id t _ b k e (ground arith))
  ]

  step-Brings :
      (op : Operation D) (b : SpanBuffer D)
      → IsKeyed fl b
      → Brings fl test (brought fl test op b) b (step fl op b)
  unfolding step set_sampling_priority_from_user lock_sampling_priority set_service_name
      user_priority
  step-Brings (registers junk context) b k = register_span-Brings junk context b k
  step-Brings (finishes now clock span) b k = finish_span-Brings now clock span b k
  step-Brings (sets_from_user trace_id value) b k =
      Brings-on_trace fl test trace_id _ b k (λ t. ground arith)
  step-Brings (generates now span) b k = generate-Brings now span b k
  step-Brings (serializes trace_id) b k = serialize_trace_tags-Brings trace_id b k
  step-Brings (names_service trace_id name) b k = Brings-on_trace fl test trace_id _ b k (λ t. refl)
  step-Brings (locks trace_id) b k = Brings-on_trace fl test trace_id _ b k (λ t. refl)

  -- How many spans that pass the test a history of operations brings to the buffer.
  pub brought_by : List (Operation D) → SpanBuffer D → ℕ
  brought_by [] b = 0
  brought_by (op ∷ ops) b = brought fl test op b + brought_by ops (step fl op b)

  -- Through any history of operations on a buffer whose writer is on and whose traces have distinct
  -- identifiers, no span is lost and none is duplicated: for any test on the identity of a span
  -- (its trace, span and parent id, name, service, resource, start, duration and error), the spans
  -- that pass it and wait in the buffer, or were handed to the writer, are together as many as
  -- before and those that pass it of the finished spans that a trace in the buffer had registered.
  pub run-spans_held :
      (ops : List (Operation D)) (b : SpanBuffer D)
      → IsKeyed fl b
      → spans_held test (run fl ops b) ≡ spans_held test b + brought_by ops b
  unfolding run brought_by
  run-spans_held [] b k = omega arith
  run-spans_held (op ∷ ops) b k =
      let r = step-Brings op b k in omega (arith, r.held, run-spans_held ops (step fl op b) r.keyed)

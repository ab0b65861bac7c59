-- ===== src/Tests/Buffered.antt =====
-- Instances about traces and the span buffer.
use dd_opentracing_cpp.Prelude.{
  Bool, codes, ℕ, ◌+◌, ◌≡◌, refl, inr, true, false, none, some, List, [], ◌∷◌, arith, ◌==◌, ==_iff,
  Bool-cases, inl, sym, ap, ◌∙◌, find, contains, assign, nat_eq, text_eq,
}
use dd_opentracing_cpp.SamplingPriority.{sampler_keep}
use dd_opentracing_cpp.Tags.{decoded, deserialize_tags}
use dd_opentracing_cpp.PendingTrace.{PendingTrace, finish}
use dd_opentracing_cpp.PendingTrace.Tagging.{Identity}
use dd_opentracing_cpp.PendingTrace.Finish.{Pairs, Finished, finish-Finished}
use dd_opentracing_cpp.PendingTrace.Marked.{Marked}
use dd_opentracing_cpp.PendingTrace.Origin.{AllFrom, finish-AllFrom}
use dd_opentracing_cpp.SpanBuffer.{find_trace, set_sampling_priority_from_user}
use dd_opentracing_cpp.SpanBuffer.Operations.{
  Operation, registers, finishes, sets_from_user, step, run,
}
use dd_opentracing_cpp.SpanBuffer.Valid.{IsPending, is_some}
use dd_opentracing_cpp.SpanBuffer.Valid.Steps.{IsValid, run-IsValid}
use dd_opentracing_cpp.SpanBuffer.Locked.{IsLockedAt, step-IsLockedAt}
use dd_opentracing_cpp.SpanBuffer.Complete.{decide_trace, push_span, finish_span_last}
use dd_opentracing_cpp.SpanBuffer.Counted.{IsKeyed, spans_held}
use dd_opentracing_cpp.SpanBuffer.Conserved.{brought_by, run-spans_held}
use dd_opentracing_cpp.SpanBuffer.TagHeader.{
  header_of, decided_tags_of, serialize_trace_tags-decodes,
}
use dd_opentracing_cpp.Tests.Fixtures.{percent, span_of, half_done, buffer, context}

abbrev clock : ℕ → ℕ
clock k = 0

abbrev history : List (Operation ℕ)
history = registers 0 context ∷ finishes 0 clock (span_of 7 0) ∷ finishes 0 clock (span_of 9 0) ∷ []

half_done-IsPending : IsPending 7 half_done
unfolding contains
half_done-IsPending = record {
  incomplete = omega arith;
  registered = (refl, refl, tt);
  explained = inr (inr refl);
}

no_none : (t : PendingTrace ℕ) → ¬ (none ≡ some t)
no_none t e = ground arith

same-IsPending : (j : ℕ) (t : PendingTrace ℕ) → 7 ≡ j → half_done ≡ t → IsPending j t
same-IsPending j t i s = rw (← i, ← s) half_done-IsPending

same_content : (s t : PendingTrace ℕ) → some s ≡ some t → s ≡ t
same_content s t e = cc e

missing : (j : ℕ) → (7 == j) ≡ false → find_trace percent j buffer ≡ none
unfolding find
missing j h = rw h refl

buffer_finds : find_trace percent 7 buffer ≡ some half_done
unfolding find
buffer_finds = refl

buffer-IsValid : IsValid percent buffer
unfolding find
buffer-IsValid j t e = elim (Bool-cases (7 == j)) [
  | inl h ↦
      let i : 7 ≡ j = (==_iff 7 j).0 h in
      let found : some half_done ≡ find_trace percent j buffer =
        sym buffer_finds ∙ ap (λ k. find_trace percent k buffer) i in
      same-IsPending j t i (same_content half_done t (found ∙ e))
  | inr h ↦ absurd (no_none t (sym (missing j h) ∙ e))
]

run-IsValid_example : IsValid percent (run percent history buffer)
run-IsValid_example = run-IsValid percent history buffer buffer-IsValid

step-IsLockedAt_example : IsLockedAt (some sampler_keep, false) half_done
unfolding step find set_sampling_priority_from_user assign
step-IsLockedAt_example =
    step-IsLockedAt percent (sets_from_user 7 none) buffer 7 half_done half_done
      (some sampler_keep, false) refl (refl, refl, refl) refl

finish-Finished_example :
    Pairs percent
      (Finished percent (7 ∷ 8 ∷ []) (some sampler_keep))
      (span_of 8 7 ∷ [])
      (finish percent clock [] half_done).1.finished_spans
finish-Finished_example = finish-Finished percent clock [] half_done

buffer-IsKeyed : IsKeyed percent buffer
unfolding find
buffer-IsKeyed = record { enabled = refl; distinct = (refl, tt) }

abbrev is_request : Identity → Bool
is_request i = i.span_id == 7

run-spans_held_example :
    spans_held is_request (run percent history buffer)
    ≡ spans_held is_request buffer + brought_by percent is_request history buffer
run-spans_held_example = run-spans_held percent is_request history buffer buffer-IsKeyed

finish_span_last_example :
    is_some
      (decide_trace percent 0
        (span_of 7 0)
        buffer.trace_sampler
        (push_span percent (span_of 7 0) half_done)).sampling_priority
    ≡ true
unfolding find contains
finish_span_last_example =
    (finish_span_last percent 0 clock (span_of 7 0) buffer half_done refl refl refl).2

serialize_trace_tags-decodes_example :
    deserialize_tags (header_of percent half_done) ≡ decoded (decided_tags_of percent half_done)
unfolding find
serialize_trace_tags-decodes_example =
    (serialize_trace_tags-decodes percent 7 buffer half_done refl (omega arith) (refl, tt)).1

finish-AllFrom_example : AllFrom (codes "rum") (finish percent clock [] half_done).1.finished_spans
finish-AllFrom_example = finish-AllFrom percent clock [] half_done refl

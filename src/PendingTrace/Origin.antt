-- ===== src/PendingTrace/Origin.antt =====
-- The origin tag that `PendingTrace::finish` of src/pending_trace.cpp gives to spans.
use dd_opentracing_cpp.Prelude.{
  ℕ, ◌≡◌, refl, ◌∙◌, ap, inl, inr, false, not, ◌&&◌, some, List, [], ◌∷◌, arith, Text, codes,
  is_empty, text_eq, find, find-assign, Bool-cases,
}
use dd_opentracing_cpp.Floats.{Floats}
use dd_opentracing_cpp.SpanData.{SpanData}
use dd_opentracing_cpp.SpanSampler.{Rule}
use dd_opentracing_cpp.PendingTrace.{
  PendingTrace, is_root, apply_sampling_decision, finish_any_span, finish_root_span, finish_spans,
  sample_spans, is_dropped, finish,
}
use dd_opentracing_cpp.PendingTrace.Finish.{Pairs, Untouched, sample_spans-Untouched}

abbrev pub origin_key : Text
origin_key = codes "_dd.origin"

module _ {D : Type 0} where
  -- Every span has this origin tag.
  abbrev pub AllFrom : Text → List (SpanData D) → Type 0
  AllFrom o [] = Unit {0}
  AllFrom o (s ∷ spans) = (find origin_key s.meta ≡ some o) × AllFrom o spans

module _ {D : Type 0} (fl : Floats D) where
  finish_any_span-origin :
      (o : Text) (trace : PendingTrace D) (s : SpanData D)
      → trace.origin ≡ o
      → is_empty o ≡ false
      → find origin_key (finish_any_span fl trace s).meta ≡ some o
  unfolding finish_any_span
  finish_any_span-origin o trace s e h =
      ground (arith, e, h, find-assign origin_key origin_key trace.origin s.meta)

  decided_origin :
      (trace : PendingTrace D) → (apply_sampling_decision fl trace).origin ≡ trace.origin
  unfolding apply_sampling_decision
  decided_origin trace = ground arith

  finish_root_span-origin :
      (o : Text) (trace : PendingTrace D) (s : SpanData D)
      → trace.origin ≡ o
      → is_empty o ≡ false
      → find origin_key (finish_root_span fl trace s).1.meta ≡ some o
  unfolding finish_root_span
  finish_root_span-origin o trace s e h =
      finish_any_span-origin o (apply_sampling_decision fl trace) _ (decided_origin trace ∙ e) h

  finish_spans-AllFrom :
      (o : Text) (trace : PendingTrace D) (spans : List (SpanData D))
      → trace.origin ≡ o
      → is_empty o ≡ false
      → AllFrom o (finish_spans fl trace spans).1
  unfolding finish_spans finish_root_span
  finish_spans-AllFrom o trace [] e h = tt
  finish_spans-AllFrom o trace (s ∷ spans) e h = elim (Bool-cases (is_root fl s trace.all_spans)) [
    | inl r ↦ rw r (
      finish_root_span-origin o trace s e h,
      finish_spans-AllFrom o (apply_sampling_decision fl trace) spans (decided_origin trace ∙ e) h,
    )
    | inr r ↦ rw r (finish_any_span-origin o trace s e h, finish_spans-AllFrom o trace spans e h)
  ]

  AllFrom-Untouched :
      (o : Text) (ys zs : List (SpanData D))
      → AllFrom o ys
      → Pairs fl (Untouched fl) ys zs
      → AllFrom o zs
  AllFrom-Untouched o [] [] f u = tt
  AllFrom-Untouched o [] (z ∷ zs) f u = absurd u
  AllFrom-Untouched o (y ∷ ys) [] f u = absurd u
  AllFrom-Untouched o (y ∷ ys) (z ∷ zs) f u =
      (ap (λ v. find origin_key v) u.0.same_meta ∙ f.0, AllFrom-Untouched o ys zs f.1 u.1)

  -- If the trace has an origin, every span that `finish` leaves carries it as its "_dd.origin" tag,
  -- root or not and dropped or not, whatever tag the span or the trace had there.
  pub finish-AllFrom :
      (clock : ℕ → ℕ) (rules : List (Rule D)) (trace : PendingTrace D)
      → is_empty trace.origin ≡ false
      → AllFrom trace.origin (finish fl clock rules trace).1.finished_spans
  unfolding finish
  finish-AllFrom clock rules trace h =
      let f = finish_spans-AllFrom trace.origin trace trace.finished_spans refl h in
      let spans = (finish_spans fl trace trace.finished_spans).1 in
      elim (Bool-cases (not (is_empty rules) && is_dropped trace.sampling_priority)) [
        | inl g ↦ rw g (
            AllFrom-Untouched trace.origin spans (sample_spans fl clock rules spans).1 f
              (sample_spans-Untouched fl clock rules spans))
        | inr g ↦ rw g f
      ]

-- ===== src/SpanBuffer/View.antt =====
-- The operations on one trace of src/span_buffer.cpp, as the abstract view sees them.
use dd_opentracing_cpp.Prelude.{
  ℕ, ◌≡◌, refl, ap, ◌∙◌, inl, inr, Bool, true, false, not, ◌&&◌, Option, none, some, List, [], ◌∷◌,
  ◌++◌, map, arith, ◌==◌, if◌then◌else◌, nat_eq, find, assign, erase, is_empty, is_empty,
  Bool-cases, Option-cases,
}
use dd_opentracing_cpp.Floats.{Floats}
use dd_opentracing_cpp.SpanData.{SpanData}
use dd_opentracing_cpp.SamplingPriority.{SamplingPriority}
use dd_opentracing_cpp.SpanSampler.{Rule}
use dd_opentracing_cpp.PendingTrace.{
  PendingTrace, apply_sampling_decision, is_root, finish_root_span, finish_spans, is_dropped,
  finish,
}
use dd_opentracing_cpp.PendingTrace.Tagging.{Identity, identity}
use dd_opentracing_cpp.PendingTrace.Finish.{Finished, Pairs, decided_fields, finish-Finished}
use dd_opentracing_cpp.SpanBuffer.{
  SpanBuffer, find_trace, put_trace, on_trace, get_sampling_priority, sampler_priority,
}
use dd_opentracing_cpp.SpanBuffer.Operations.{
  sampled_trace, generate_sampling_priority, finish_in_place, unbuffer_and_write_trace,
  complete_trace,
}
use dd_opentracing_cpp.SpanBuffer.Abstract.{
  Waiting, put_waiting, delivered, view_trace, view_traces, view,
}

module _ {D : Type 0} where
  pub find-view_traces :
      (k : ℕ) (t : PendingTrace D) (m : List (ℕ × PendingTrace D))
      → find k m ≡ some t
      → find k (view_traces m) ≡ some (view_trace t)
  unfolding find
  find-view_traces k t [] e = ground arith
  find-view_traces k t ((j, u) ∷ m) e = ground (arith, find-view_traces k t m)

  pub find-view_traces-none :
      (k : ℕ) (m : List (ℕ × PendingTrace D)) → find k m ≡ none → find k (view_traces m) ≡ none
  unfolding find
  find-view_traces-none k [] e = refl
  find-view_traces-none k ((j, u) ∷ m) e = ground (arith, find-view_traces-none k m)

  view_traces-assign :
      (k : ℕ) (t : PendingTrace D) (m : List (ℕ × PendingTrace D))
      → view_traces (assign k t m) ≡ assign k (view_trace t) (view_traces m)
  unfolding assign
  view_traces-assign k t [] = refl
  view_traces-assign k t ((j, u) ∷ m) = elim (Bool-cases (j == k)) [
    | inl h ↦ rw h refl
    | inr h ↦ rw h (ap (λ r. (j, view_trace u) ∷ r) (view_traces-assign k t m))
  ]

  view_traces-erase :
      (k : ℕ) (m : List (ℕ × PendingTrace D)) → view_traces (erase k m) ≡ erase k (view_traces m)
  unfolding erase
  view_traces-erase k [] = refl
  view_traces-erase k ((j, u) ∷ m) = elim (Bool-cases (j == k)) [
    | inl h ↦ rw h (view_traces-erase k m)
    | inr h ↦ rw h (ap (λ r. (j, view_trace u) ∷ r) (view_traces-erase k m))
  ]

  map-append :
      (w : List (List (SpanData D))) (s : List (SpanData D))
      → map (map identity) (w ++ s ∷ []) ≡ map (map identity) w ++ map identity s ∷ []
  map-append [] s = refl
  map-append (x ∷ w) s = ap (λ r. map identity x ∷ r) (map-append w s)

  map-delivered :
      (on : Bool) (w : List (List (SpanData D))) (s : List (SpanData D))
      → map (map identity) (if on then w ++ s ∷ [] else w)
        ≡ (if on then map (map identity) w ++ map identity s ∷ [] else map (map identity) w)
  map-delivered true w s = map-append w s
  map-delivered false w s = refl

  pub identities-push :
      (xs : List (SpanData D)) (s : SpanData D)
      → map identity (xs ++ s ∷ []) ≡ map identity xs ++ identity s ∷ []
  identities-push [] s = refl
  identities-push (x ∷ xs) s = ap (λ r. identity x ∷ r) (identities-push xs s)

-- Writing what a key has already.
assign_same : {V : Type 0} (k : ℕ) (v : V) (m : List (ℕ × V)) → find k m ≡ some v → assign k v m ≡ m
unfolding find assign
assign_same k v [] e = ground arith
assign_same k v ((j, w) ∷ m) e = ground (arith, assign_same k v m)

module _ {D : Type 0} (fl : Floats D) where
  pub view-put_trace :
      (id : ℕ) (t : PendingTrace D) (b : SpanBuffer D)
      → view (put_trace fl id t b) ≡ put_waiting id (view_trace t) (view b)
  view-put_trace id t b =
      ap (λ w. record (view b) { waiting = w }) (view_traces-assign id t b.traces)

  -- A write that the view does not see.
  pub view-put_unseen :
      (id : ℕ) (t u : PendingTrace D) (b : SpanBuffer D)
      → find_trace fl id b ≡ some t
      → view_trace u ≡ view_trace t
      → view (put_trace fl id u b) ≡ view b
  view-put_unseen id t u b e s =
      view-put_trace id u b
      ∙ ap (λ w. put_waiting id w (view b)) s
      ∙ ap (λ w. record (view b) { waiting = w })
          (assign_same id (view_trace t) (view_traces b.traces) (find-view_traces id t b.traces e))

  pub view-on_trace :
      (id : ℕ) (f : PendingTrace D → PendingTrace D) (b : SpanBuffer D)
      → ((t : PendingTrace D) → view_trace (f t) ≡ view_trace t)
      → view (on_trace fl id f b) ≡ view b
  unfolding on_trace
  view-on_trace id f b s = elim (Option-cases (find_trace fl id b)) [
    | inl e ↦ rw (e, on_trace) refl
    | inr (t, e) ↦ rw (e, on_trace) (view-put_unseen id t (f t) b e (s t))
  ]

  Pairs-identities :
      (a : List ℕ) (p : Option SamplingPriority) (xs ys : List (SpanData D))
      → Pairs fl (Finished fl a p) xs ys
      → map identity ys ≡ map identity xs
  Pairs-identities a p [] [] h = refl
  Pairs-identities a p [] (y ∷ ys) h = absurd h
  Pairs-identities a p (x ∷ xs) [] h = absurd h
  Pairs-identities a p (x ∷ xs) (y ∷ ys) h =
      ap (λ i. i ∷ map identity ys) h.0.unchanged
      ∙ ap (λ r. identity x ∷ r) (Pairs-identities a p xs ys h.1)

  finish_spans-all_spans :
      (t : PendingTrace D) (spans : List (SpanData D))
      → (finish_spans fl t spans).0.all_spans ≡ t.all_spans
  unfolding finish_spans finish_root_span
  finish_spans-all_spans t [] = refl
  finish_spans-all_spans t (s ∷ spans) = elim (Bool-cases (is_root fl s t.all_spans)) [
    | inl h ↦
        rw h (finish_spans-all_spans (apply_sampling_decision fl t) spans ∙ (decided_fields fl t).0)
    | inr h ↦ rw h (finish_spans-all_spans t spans)
  ]

  finish-all_spans :
      (clock : ℕ → ℕ) (rules : List (Rule D)) (t : PendingTrace D)
      → (finish fl clock rules t).1.all_spans ≡ t.all_spans
  unfolding finish
  finish-all_spans clock rules t =
      elim (Bool-cases (not (is_empty rules) && is_dropped t.sampling_priority)) [
        | inl h ↦ rw h (finish_spans-all_spans t t.finished_spans)
        | inr h ↦ rw h (finish_spans-all_spans t t.finished_spans)
      ]

  view_trace-finish :
      (clock : ℕ → ℕ) (rules : List (Rule D)) (t : PendingTrace D)
      → view_trace (finish fl clock rules t).1 ≡ view_trace t
  view_trace-finish clock rules t =
      ap
        (λ (r : List ℕ). record {
          finished = map identity (finish fl clock rules t).1.finished_spans;
          registered = r;
        })
        (finish-all_spans clock rules t)
      ∙ ap (λ (f : List Identity). record { finished = f; registered = t.all_spans })
          (Pairs-identities t.all_spans t.sampling_priority t.finished_spans _
            (finish-Finished fl clock rules t))

  pub view-generate :
      (now : ℕ) (span : SpanData D) (b : SpanBuffer D)
      → view (generate_sampling_priority fl now span b) ≡ view b
  unfolding generate_sampling_priority sampled_trace sampler_priority
  view-generate now span b = elim (Option-cases (get_sampling_priority fl span.trace_id b)) [
    | inr (p, e) ↦ rw (e, generate_sampling_priority) refl
    | inl e ↦
        rw (e, generate_sampling_priority) (view-on_trace span.trace_id _ _ (λ t. ground arith))
  ]

  view-finish_in_place :
      (clock : ℕ → ℕ) (id : ℕ) (b : SpanBuffer D) → view (finish_in_place fl clock id b) ≡ view b
  unfolding finish_in_place
  view-finish_in_place clock id b = elim (Option-cases (find_trace fl id b)) [
    | inl e ↦ rw (e, finish_in_place) refl
    | inr (t, e) ↦
        rw (e, finish_in_place)
          (view-put_unseen id t _ (record b { span_rules = (finish fl clock b.span_rules t).0 }) e
            (view_trace-finish clock b.span_rules t))
  ]

  view-unbuffer :
      (id : ℕ) (b : SpanBuffer D) → view (unbuffer_and_write_trace fl id b) ≡ delivered id (view b)
  unfolding unbuffer_and_write_trace delivered
  view-unbuffer id b = elim (Option-cases (find_trace fl id b)) [
    | inl e ↦ rw (e, unbuffer_and_write_trace, delivered, find-view_traces-none id b.traces e) refl
    | inr (t, e) ↦
        rw (e, unbuffer_and_write_trace, delivered, find-view_traces id t b.traces e)
          (ap
              (λ (w : List (ℕ × Waiting)). record (view b) {
                waiting = w;
                written =
                    map (map identity)
                      (if b.options.enabled then b.written ++ t.finished_spans ∷ [] else b.written);
              })
              (view_traces-erase id b.traces)
            ∙ ap
                (λ (w : List (List Identity)). record (view b) {
                  waiting = erase id (view_traces b.traces);
                  written = w;
                })
                (map-delivered b.options.enabled b.written t.finished_spans))
  ]

  pub view_complete :
      (now : ℕ) (clock : ℕ → ℕ) (span : SpanData D) (b : SpanBuffer D)
      → view (complete_trace fl now clock span b) ≡ delivered span.trace_id (view b)
  unfolding complete_trace
  view_complete now clock span b =
      view-unbuffer span.trace_id
        (finish_in_place fl clock span.trace_id (generate_sampling_priority fl now span b))
      ∙ ap (delivered span.trace_id) (
          view-finish_in_place clock span.trace_id (generate_sampling_priority fl now span b)
          ∙ view-generate now span b)

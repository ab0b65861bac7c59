-- ===== src/PendingTrace/Finish.antt =====
-- What `PendingTrace::finish` of src/pending_trace.cpp does to each span.
use dd_opentracing_cpp.Prelude.{
  ℕ, ◌≡◌, refl, ◌∙◌, inl, inr, false, not, ◌&&◌, Option, List, [], ◌∷◌, arith, Text, codes,
  is_empty, text_eq, same, find, find-assign, get_elem?, length, pos, Bool-cases, Option-cases,
}
use dd_opentracing_cpp.Floats.{Floats}
use dd_opentracing_cpp.SpanData.{SpanData}
use dd_opentracing_cpp.SamplingPriority.{SamplingPriority, mechanism_as_int, span_rule}
use dd_opentracing_cpp.SpanSampler.{Rule, match_span, rule_sample}
use dd_opentracing_cpp.PendingTrace.{
  PendingTrace, is_root, apply_sampling_decision, finish_root_span, finish_spans, tag_kept_span,
  sample_at, apply_span_sampling, sample_spans, is_dropped, finish, set_metric,
}
use dd_opentracing_cpp.PendingTrace.Tagging.{
  priority_key, identity, expected_priority, finish_any_span-metrics, finish_root_span-priority,
  finish_any_span-identity, finish_root_span-identity,
}

module _ {D : Type 0} (fl : Floats D) where
  -- How a span leaves, for the spans and the sampling priority of its trace.
  pub record Finished (all_spans : List ℕ) (p : Option SamplingPriority) (s s' : SpanData D)
      : Type 0 where
    pub unchanged : identity s' ≡ identity s
    pub priority : find priority_key s'.metrics ≡ expected_priority fl (is_root fl s all_spans) p s

  -- Two lists of the same length, related element by element.
  abbrev pub Pairs :
      (SpanData D → SpanData D → Type 0) → List (SpanData D) → List (SpanData D) → Type 0
  Pairs R [] [] = Unit {0}
  Pairs R [] (y ∷ ys) = ⊥
  Pairs R (x ∷ xs) [] = ⊥
  Pairs R (x ∷ xs) (y ∷ ys) = R x y × Pairs R xs ys

  pub decided_fields :
      (trace : PendingTrace D)
      → ((apply_sampling_decision fl trace).all_spans ≡ trace.all_spans)
        × ((apply_sampling_decision fl trace).sampling_priority ≡ trace.sampling_priority)
  unfolding apply_sampling_decision
  decided_fields trace = ground arith

  finish_spans-Finished :
      (trace : PendingTrace D) (a : List ℕ) (p : Option SamplingPriority)
      (spans : List (SpanData D))
      → trace.all_spans ≡ a
      → trace.sampling_priority ≡ p
      → Pairs (Finished a p) spans (finish_spans fl trace spans).1
  unfolding finish_spans finish_root_span
  finish_spans-Finished trace a p [] ha hp = tt
  finish_spans-Finished trace a p (s ∷ spans) ha hp =
      elim (Bool-cases (is_root fl s trace.all_spans)) [
        | inl h ↦ rw h (
          record {
            unchanged = finish_root_span-identity fl trace s;
            priority = rw (← ha, h, ← hp) (finish_root_span-priority fl trace s);
          },
          finish_spans-Finished (apply_sampling_decision fl trace) a p spans
              ((decided_fields trace).0 ∙ ha) ((decided_fields trace).1 ∙ hp),
        )
        | inr h ↦ rw h (
          record {
            unchanged = finish_any_span-identity fl trace s;
            priority = rw (← ha, h, finish_any_span-metrics fl);
          },
          finish_spans-Finished trace a p spans ha hp,
        )
      ]

  -- Span sampling changes neither the identity nor the priority nor the tags of a span.
  pub record Untouched (s s' : SpanData D) : Type 0 where
    pub unchanged : identity s' ≡ identity s
    pub priority : find priority_key s'.metrics ≡ find priority_key s.metrics
    pub same_meta : s'.meta ≡ s.meta

  set_metric-Untouched :
      (k : Text) (v : D) (s : SpanData D)
      → same k priority_key ≡ false
      → Untouched s (set_metric k v s)
  set_metric-Untouched k v s h = record {
    unchanged = refl;
    priority = find-assign k priority_key v s.metrics ∙ rw h;
    same_meta = refl;
  }

  Untouched-trans : (s t u : SpanData D) → Untouched s t → Untouched t u → Untouched s u
  Untouched-trans s t u a b = record {
    unchanged = b.unchanged ∙ a.unchanged;
    priority = b.priority ∙ a.priority;
    same_meta = b.same_meta ∙ a.same_meta;
  }

  tag_kept_span-Untouched : (rule : Rule D) (s : SpanData D) → Untouched s (tag_kept_span fl rule s)
  unfolding tag_kept_span
  tag_kept_span-Untouched rule s =
      let mechanism =
        set_metric (codes "_dd.span_sampling.mechanism")
          (fl.of_int (pos (mechanism_as_int span_rule))) s in
      let rated =
        set_metric (codes "_dd.span_sampling.rule_rate") rule.config.sample_rate mechanism in
      let base =
        Untouched-trans s mechanism rated
          (set_metric-Untouched (codes "_dd.span_sampling.mechanism")
            (fl.of_int (pos (mechanism_as_int span_rule))) s refl)
          (set_metric-Untouched (codes "_dd.span_sampling.rule_rate") rule.config.sample_rate
            mechanism refl) in
      let limit = rule.config.max_per_second in
      elim (Bool-cases (fl.is_nan limit)) [
        | inl h ↦ rw h base
        | inr h ↦ rw h (
            Untouched-trans s rated
              (set_metric (codes "_dd.span_sampling.max_per_second") limit rated) base
              (set_metric-Untouched (codes "_dd.span_sampling.max_per_second") limit rated refl))
      ]

  Untouched-refl : (s : SpanData D) → Untouched s s
  Untouched-refl s = record { unchanged = refl; priority = refl; same_meta = refl }

  sample_at-Untouched :
      (now i : ℕ) (rules : List (Rule D)) (s : SpanData D)
      → Untouched s (sample_at fl now i rules s).1
  unfolding sample_at
  sample_at-Untouched now i rules s = elim (Option-cases (get_elem? rules i)) [
    | inl e ↦ rw (e, sample_at) (Untouched-refl s)
    | inr (rule, e) ↦ elim (Bool-cases (rule_sample fl now rule s).1) [
      | inl h ↦ rw (e, sample_at, h) (tag_kept_span-Untouched rule s)
      | inr h ↦ rw (e, sample_at, h) (Untouched-refl s)
    ]
  ]

  apply_span_sampling-Untouched :
      (now : ℕ) (rules : List (Rule D)) (s : SpanData D)
      → Untouched s (apply_span_sampling fl now rules s).1
  unfolding apply_span_sampling
  apply_span_sampling-Untouched now rules s = elim (Option-cases (match_span fl rules s)) [
    | inl e ↦ rw (e, apply_span_sampling) (Untouched-refl s)
    | inr (i, e) ↦ rw (e, apply_span_sampling) (sample_at-Untouched now i rules s)
  ]

  pub sample_spans-Untouched :
      (clock : ℕ → ℕ) (rules : List (Rule D)) (spans : List (SpanData D))
      → Pairs Untouched spans (sample_spans fl clock rules spans).1
  unfolding sample_spans
  sample_spans-Untouched clock rules [] = tt
  sample_spans-Untouched clock rules (s ∷ spans) = (
    apply_span_sampling-Untouched (clock (length spans)) rules s,
    sample_spans-Untouched clock (apply_span_sampling fl (clock (length spans)) rules s).0 spans,
  )

  Finished-Untouched :
      (a : List ℕ) (p : Option SamplingPriority) (xs ys zs : List (SpanData D))
      → Pairs (Finished a p) xs ys
      → Pairs Untouched ys zs
      → Pairs (Finished a p) xs zs
  Finished-Untouched a p [] [] [] f u = tt
  Finished-Untouched a p [] [] (z ∷ zs) f u = absurd u
  Finished-Untouched a p [] (y ∷ ys) zs f u = absurd f
  Finished-Untouched a p (x ∷ xs) [] zs f u = absurd f
  Finished-Untouched a p (x ∷ xs) (y ∷ ys) [] f u = absurd u
  Finished-Untouched a p (x ∷ xs) (y ∷ ys) (z ∷ zs) f u = (
    record { unchanged = u.0.unchanged ∙ f.0.unchanged; priority = u.0.priority ∙ f.0.priority },
    Finished-Untouched a p xs ys zs f.1 u.1,
  )

  -- `finish` keeps the spans of a trace, in order, with their identity, times and names. Where the
  -- trace has a sampling priority each root span leaves with it in its metrics, whatever was there;
  -- the other spans keep what they had there, also where span sampling adds its tags.
  pub finish-Finished :
      (clock : ℕ → ℕ) (rules : List (Rule D)) (trace : PendingTrace D)
      → Pairs
          (Finished trace.all_spans trace.sampling_priority)
          trace.finished_spans
          (finish fl clock rules trace).1.finished_spans
  unfolding finish
  finish-Finished clock rules trace =
      let f =
        finish_spans-Finished trace trace.all_spans trace.sampling_priority trace.finished_spans
          refl refl in
      let spans = (finish_spans fl trace trace.finished_spans).1 in
      elim (Bool-cases (not (is_empty rules) && is_dropped trace.sampling_priority)) [
        | inl h ↦ rw h (
            Finished-Untouched trace.all_spans trace.sampling_priority trace.finished_spans spans
              (sample_spans fl clock rules spans).1 f (sample_spans-Untouched clock rules spans))
        | inr h ↦ rw h f
      ]

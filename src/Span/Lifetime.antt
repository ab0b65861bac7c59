-- ===== src/Span/Lifetime.antt =====
-- A span of src/span.cpp from its start to the writer.
use dd_opentracing_cpp.Prelude.{
  ℕ, ◌≡◌, refl, ap, ◌∙◌, inl, inr, Bool, true, false, ◌||◌, Option, none, some, List, [], ◌∷◌, ◌++◌,
  Text, codes, is_empty, if◌then◌else◌, if_both, if_known, ◌==◌, ==_iff, nat_eq, text_eq, find,
  find-assign, find-erase, assign, contains, insert, Option-cases, arith,
}
use dd_opentracing_cpp.Floats.{Floats}
use dd_opentracing_cpp.Tribool.{tribool}
use dd_opentracing_cpp.SpanData.{SpanData}
use dd_opentracing_cpp.PendingTrace.Tagging.{Identity, identity}
use dd_opentracing_cpp.SpanBuffer.{SpanBuffer}
use dd_opentracing_cpp.SpanBuffer.Operations.{finishes, step}
use dd_opentracing_cpp.SpanBuffer.Abstract.{
  Traces, Waiting, registered, finished_one, delivered, put_waiting, push_id, view, spec_step,
}
use dd_opentracing_cpp.SpanBuffer.Refines.{step-refines}
use dd_opentracing_cpp.Span.{
  Span, take_tag, is_falsy, finish_error_tags, audit, has_error_details, use_analytics_event,
  analytics_rate_of, apply_special_tags, finished_data, finish_with_options, elapsed,
}

module _ {D : Type 0} where
  abbrev pub SameIds : SpanData D → SpanData D → Type 0
  SameIds s s' = (s'.trace_id ≡ s.trace_id) × (s'.span_id ≡ s.span_id)

  SameIds-trans : (s t u : SpanData D) → SameIds s t → SameIds t u → SameIds s u
  SameIds-trans s t u g h = (h.0 ∙ g.0, h.1 ∙ g.1)

  take_tag-SameIds :
      (key : Text) (f : Text → SpanData D → SpanData D) (s : SpanData D)
      → ((v : Text) → SameIds s (f v s))
      → SameIds s (take_tag key f s)
  take_tag-SameIds key f s h = elim (Option-cases (find key s.meta)) [
    | inl e ↦ rw (take_tag, e) (refl, refl)
    | inr (v, e) ↦ rw (take_tag, e) (h v)
  ]

  finish_error_tags-SameIds :
      (error_tag : Text) (s : SpanData D) → SameIds s (finish_error_tags error_tag s)
  unfolding finish_error_tags
  finish_error_tags-SameIds error_tag s = elim (Option-cases (find error_tag s.meta)) [
    | inl e ↦
        rw (finish_error_tags, e)
          (if_both (SameIds s) (has_error_details s.meta) _ s (refl, refl) (refl, refl))
    | inr (v, e) ↦
        rw (finish_error_tags, e)
          (if_both (SameIds s) (is_empty v || is_falsy (tribool v)) _ _ (refl, refl) (refl, refl))
  ]

  audit-SameIds :
      (http_url : Text) (regex_replace : Text → Text) (legacy : Bool) (s : SpanData D)
      → SameIds s (audit http_url regex_replace legacy s)
  unfolding audit
  audit-SameIds http_url regex_replace legacy s = elim (Option-cases (find http_url s.meta)) [
    | inl e ↦ rw (audit, e) (refl, refl)
    | inr (v, e) ↦ rw (audit, e) (refl, refl)
  ]

module _ {D : Type 0} (fl : Floats D) (stod : Text → Option D) where
  use_analytics_event-SameIds :
      (v : Text) (s : SpanData D) → SameIds s (use_analytics_event fl stod v s)
  unfolding use_analytics_event
  use_analytics_event-SameIds v s = elim (Option-cases (analytics_rate_of fl stod v)) [
    | inl e ↦ rw (use_analytics_event, e) (refl, refl)
    | inr (rate, e) ↦ rw (use_analytics_event, e) (refl, refl)
  ]

  apply_special_tags-SameIds :
      (error_tag : Text) (s : SpanData D) → SameIds s (apply_special_tags fl stod error_tag s)
  unfolding apply_special_tags
  apply_special_tags-SameIds error_tag s =
      let typed : SpanData D =
        take_tag (codes "span.type") (λ v (t : SpanData D). record t { type_name = v }) s in
      let resourced : SpanData D =
        take_tag (codes "resource.name") (λ v (t : SpanData D). record t { resource = v }) typed in
      let serviced : SpanData D =
        take_tag (codes "service.name") (λ v (t : SpanData D). record t { service = v })
          resourced in
      let checked : SpanData D = finish_error_tags error_tag serviced in
      let last : SpanData D =
        take_tag (codes "analytics.event") (use_analytics_event fl stod) checked in
      SameIds-trans s typed last
        (take_tag-SameIds (codes "span.type") (λ v (t : SpanData D). record t { type_name = v }) s
          (λ v. (refl, refl)))
        (SameIds-trans typed resourced last
          (take_tag-SameIds (codes "resource.name")
            (λ v (t : SpanData D). record t { resource = v }) typed (λ v. (refl, refl)))
          (SameIds-trans resourced serviced last
            (take_tag-SameIds (codes "service.name")
              (λ v (t : SpanData D). record t { service = v }) resourced (λ v. (refl, refl)))
            (SameIds-trans serviced checked last (finish_error_tags-SameIds error_tag serviced) (
              take_tag-SameIds (codes "analytics.event") (use_analytics_event fl stod) checked
                (λ v. use_analytics_event-SameIds v checked)))))

  -- What `FinishWithOptions` hands over has the identifiers of the span.
  pub finished_data-SameIds :
      (error_tag http_url : Text) (regex_replace : Text → Text) (end_time : ℕ) (s : Span D)
      → SameIds s.span (finished_data fl stod error_tag http_url regex_replace end_time s)
  unfolding finished_data
  finished_data-SameIds error_tag http_url regex_replace end_time s =
      let timed : SpanData D = record (s.span) {
        duration = elapsed fl stod s.start_time end_time;
      } in
      let tagged : SpanData D = apply_special_tags fl stod error_tag timed in
      SameIds-trans s.span tagged (audit http_url regex_replace s.legacy_obfuscation tagged)
        (apply_special_tags-SameIds error_tag timed)
        (audit-SameIds http_url regex_replace s.legacy_obfuscation tagged)

-- The trace of the span is not in the buffer, and the span alone is what the writer gets.
abbrev pub WrittenAlone : Identity → Traces → Traces → Type 0
WrittenAlone i a a' =
    (a'.written ≡ (if a.enabled then a.written ++ (i ∷ []) ∷ [] else a.written))
    × (find i.trace_id a'.waiting ≡ none)

find_assigned : (k : ℕ) (t : Waiting) (m : List (ℕ × Waiting)) → find k (assign k t m) ≡ some t
find_assigned k t m = ground (arith, find-assign k k t m, ==_iff k k)

delivered_alone :
    (i : Identity) (a : Traces) (t : Waiting)
    → find i.trace_id a.waiting ≡ some t
    → t.finished ≡ i ∷ []
    → WrittenAlone i a (delivered i.trace_id a)
unfolding delivered
delivered_alone i a t e f =
    rw (delivered, e)
      (
        ap (λ (x : List Identity). if a.enabled then a.written ++ x ∷ [] else a.written) f,
        ground (arith, find-erase i.trace_id i.trace_id a.waiting, ==_iff i.trace_id i.trace_id),
      )

abbrev one_span : ℕ → Waiting
one_span span_id = record { finished = []; registered = span_id ∷ [] }

finished_alone :
    (i : Identity) (a : Traces)
    → find i.trace_id a.waiting ≡ some (one_span i.span_id)
    → WrittenAlone i a (finished_one i a)
unfolding finished_one contains
finished_alone i a e =
    let mine : (i.span_id == i.span_id) ≡ true = (==_iff i.span_id i.span_id).1 refl in
    let pushed = push_id i (one_span i.span_id) in
    rw (finished_one, e, mine)
      (delivered_alone i (put_waiting i.trace_id pushed a) pushed
        (find_assigned i.trace_id pushed a.waiting) refl)

-- A trace that has no span yet, and its first span, which finishes.
pub lone_span :
    (i : Identity) (a : Traces)
    → find i.trace_id a.waiting ≡ none
    → WrittenAlone i a (finished_one i (registered i.trace_id i.span_id a))
unfolding registered insert
lone_span i a e =
    rw (registered, e)
      (finished_alone i (put_waiting i.trace_id (one_span i.span_id) a)
        (find_assigned i.trace_id (one_span i.span_id) a.waiting))

module _ {D : Type 0} (fl : Floats D) (stod : Text → Option D) where
  -- A span that is not finished goes to the buffer when it is.
  pub finish_with_options-view :
      (error_tag http_url : Text) (regex_replace : Text → Text) (end_time now : ℕ) (clock : ℕ → ℕ)
      (s : Span D) (b : SpanBuffer D)
      → s.is_finished ≡ false
      → view (finish_with_options fl stod error_tag http_url regex_replace end_time now clock s b).1
        ≡ finished_one
            (identity (finished_data fl stod error_tag http_url regex_replace end_time s))
            (view b)
  unfolding finish_with_options step spec_step
  finish_with_options-view error_tag http_url regex_replace end_time now clock s b e =
      let sent = finished_data fl stod error_tag http_url regex_replace end_time s in
      if_known (λ (r : Span D × SpanBuffer D). view r.1 ≡ finished_one (identity sent) (view b))
        s.is_finished _ _ (λ t. absurd (ground (arith, t, e)))
        (λ f. step-refines fl (finishes now clock sent) b)

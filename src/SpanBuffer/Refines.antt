-- ===== src/SpanBuffer/Refines.antt =====
-- The operations of src/span_buffer.cpp against their abstract description.
use dd_opentracing_cpp.Prelude.{
  ℕ, ◌≡◌, refl, sym, ap, ◌∙◌, inl, inr, Option, List, [], ◌∷◌, ◌++◌, arith, ◌==◌, ltb, Text,
  if◌then◌else◌, if_both, nat_eq, contains, length, is_empty, length-map, is_empty, Bool-cases,
  Option-cases,
}
use dd_opentracing_cpp.Floats.{Floats}
use dd_opentracing_cpp.SpanData.{SpanData}
use dd_opentracing_cpp.SpanContext.{SpanContext}
use dd_opentracing_cpp.SamplingPriority.{SamplingPriority}
use dd_opentracing_cpp.PendingTrace.{PendingTrace, new_trace, apply_sampling_decision}
use dd_opentracing_cpp.PendingTrace.Tagging.{Identity, identity}
use dd_opentracing_cpp.SpanBuffer.{
  SpanBufferOptions, serialize_tags, SpanBuffer, find_trace, put_trace, start_trace,
  extracted_priority, user_priority, register_span, set_sampling_priority_from_user,
  lock_sampling_priority, set_service_name,
}
use dd_opentracing_cpp.SpanBuffer.Operations.{
  finish_span, encoded_trace, serialize_trace_tags, Operation, registers, finishes, sets_from_user,
  generates, serializes, names_service, locks, step, run,
}
use dd_opentracing_cpp.SpanBuffer.Complete.{push_span}
use dd_opentracing_cpp.SpanBuffer.Abstract.{
  put_waiting, register_id, registered, delivered, push_id, finished_one, spec_step, spec_run,
  view_trace, view,
}
use dd_opentracing_cpp.SpanBuffer.View.{
  find-view_traces, find-view_traces-none, identities-push, view-put_trace, view-put_unseen,
  view-on_trace, view-generate, view_complete,
}

module _ {D : Type 0} (fl : Floats D) where
  view_trace-push :
      (span : SpanData D) (t : PendingTrace D)
      → view_trace (push_span fl span t) ≡ push_id (identity span) (view_trace t)
  view_trace-push span t =
      ap (λ (f : List Identity). record { finished = f; registered = t.all_spans })
        (identities-push t.finished_spans span)

  view-push :
      (span : SpanData D) (t : PendingTrace D) (b : SpanBuffer D)
      → view (put_trace fl span.trace_id (push_span fl span t) b)
        ≡ put_waiting span.trace_id (push_id (identity span) (view_trace t)) (view b)
  view-push span t b =
      view-put_trace fl span.trace_id (push_span fl span t) b
      ∙ ap (λ w. put_waiting span.trace_id w (view b)) (view_trace-push span t)

  -- The guard on the last span reads the same count in both.
  count_same :
      (span : SpanData D) (t : PendingTrace D)
      → length (push_id (identity span) (view_trace t)).finished
        ≡ length (push_span fl span t).finished_spans
  count_same span t =
      ap (λ w. length w.finished) (sym (view_trace-push span t))
      ∙ length-map (t.finished_spans ++ span ∷ []) identity

  view-finish_span :
      (now : ℕ) (clock : ℕ → ℕ) (span : SpanData D) (b : SpanBuffer D)
      → view (finish_span fl now clock span b) ≡ finished_one (identity span) (view b)
  unfolding finish_span finished_one
  view-finish_span now clock span b = elim (Option-cases (find_trace fl span.trace_id b)) [
    | inl e ↦ rw (e, finish_span, finished_one, find-view_traces-none span.trace_id b.traces e) refl
    | inr (t, e) ↦
        rw
          (
            e,
            finish_span,
            finished_one,
            find-view_traces span.trace_id t b.traces e,
            count_same span t,
          )
          (elim (Bool-cases (contains span.span_id t.all_spans)) [
            | inr h ↦ rw h refl
            | inl h ↦
                elim (Bool-cases (length (t.finished_spans ++ span ∷ []) == length t.all_spans)) [
                  | inl full ↦
                      rw (h, full)
                        (view_complete fl now clock span _
                          ∙ ap (delivered span.trace_id) (view-push span t b))
                  | inr more ↦ rw (h, more) (view-push span t b)
                ]
          ])
  ]

  view_trace-extracted_priority :
      (p : SamplingPriority) (t : PendingTrace D)
      → view_trace (extracted_priority fl p t) ≡ view_trace t
  unfolding extracted_priority
  view_trace-extracted_priority p t = ground arith

  view_trace-start_trace :
      (o : SpanBufferOptions D) (context : SpanContext) (t : PendingTrace D)
      → view_trace (start_trace fl o context t) ≡ view_trace t
  unfolding start_trace
  view_trace-start_trace o context t = elim (Option-cases context.propagated_sampling_priority) [
    | inl e ↦ rw e refl
    | inr (p, e) ↦ rw e (view_trace-extracted_priority p t)
  ]

  view_trace-restart :
      (o : SpanBufferOptions D) (context : SpanContext) (t : PendingTrace D)
      → view_trace (if is_empty t.all_spans then start_trace fl o context t else t) ≡ view_trace t
  view_trace-restart o context t =
      if_both (λ (u : PendingTrace D). view_trace u ≡ view_trace t) (is_empty t.all_spans)
        (start_trace fl o context t) t (view_trace-start_trace o context t) refl

  view-register_span :
      (junk : D) (context : SpanContext) (b : SpanBuffer D)
      → view (register_span fl junk context b) ≡ registered context.trace_id context.id (view b)
  unfolding register_span registered new_trace
  view-register_span junk context b = elim (Option-cases (find_trace fl context.trace_id b)) [
    | inl e ↦
        rw (e, register_span, registered, find-view_traces-none context.trace_id b.traces e)
          (view-put_trace fl context.trace_id _ b
            ∙ ap (λ w. put_waiting context.trace_id (register_id context.id w) (view b))
                (view_trace-start_trace b.options context (new_trace fl context.trace_id junk)))
    | inr (t, e) ↦
        rw (e, register_span, registered, find-view_traces context.trace_id t b.traces e)
          (view-put_trace fl context.trace_id _ b
            ∙ ap (λ w. put_waiting context.trace_id (register_id context.id w) (view b))
                (view_trace-restart b.options context t))
  ]

  view_trace-decided :
      (t : PendingTrace D) → view_trace (apply_sampling_decision fl t) ≡ view_trace t
  unfolding apply_sampling_decision
  view_trace-decided t = ground arith

  view_trace-encoded :
      (limit : ℕ) (t : PendingTrace D) → view_trace (encoded_trace fl limit t).0 ≡ view_trace t
  unfolding encoded_trace
  view_trace-encoded limit t =
      if_both (λ (r : PendingTrace D × Option Text). view_trace r.0 ≡ view_trace t)
        (ltb limit (length (serialize_tags [] (apply_sampling_decision fl t).trace_tags))) _ _
        (view_trace-decided t) (view_trace-decided t)

  view-serialize : (id : ℕ) (b : SpanBuffer D) → view (serialize_trace_tags fl id b).0 ≡ view b
  unfolding serialize_trace_tags
  view-serialize id b = elim (Option-cases (find_trace fl id b)) [
    | inl e ↦ rw (e, serialize_trace_tags) refl
    | inr (t, e) ↦
        rw (e, serialize_trace_tags)
          (view-put_unseen fl id t _ b e (view_trace-encoded b.options.tags_header_size t))
  ]

  -- Each operation does to the view of the buffer what its abstract description says: a
  -- registration adds a span id to its trace; a span that its trace waits for joins the finished
  -- ones, and the last one takes the trace, with the spans in the order in which they finished and
  -- their identities as they were, out of the buffer and, where the buffer is enabled, to the
  -- writer; every other operation leaves the view as it was.
  pub step-refines :
      (op : Operation D) (b : SpanBuffer D) → view (step fl op b) ≡ spec_step op (view b)
  unfolding step spec_step set_sampling_priority_from_user lock_sampling_priority set_service_name
      user_priority
  step-refines (registers junk context) b = view-register_span junk context b
  step-refines (finishes now clock span) b = view-finish_span now clock span b
  step-refines (sets_from_user trace_id value) b =
      view-on_trace fl trace_id (user_priority fl value) b (λ t. ground arith)
  step-refines (generates now span) b = view-generate fl now span b
  step-refines (serializes trace_id) b = view-serialize trace_id b
  step-refines (names_service trace_id name) b = view-on_trace fl trace_id _ b (λ t. refl)
  step-refines (locks trace_id) b = view-on_trace fl trace_id _ b (λ t. refl)

  -- Any history of operations on the span buffer refines the abstract one: what the buffer holds
  -- and what it has handed to the writer, seen as identities of spans, is what the abstract steps
  -- compute from the view of the buffer it started from.
  pub run-refines :
      (ops : List (Operation D)) (b : SpanBuffer D) → view (run fl ops b) ≡ spec_run ops (view b)
  unfolding run spec_run
  run-refines [] b = refl
  run-refines (op ∷ ops) b = run-refines ops (step fl op b) ∙ ap (spec_run ops) (step-refines op b)

-- ===== src/Tracer/Lifetime.antt =====
-- A root span from `StartSpanWithOptions` of src/tracer.cpp to the writer.
use dd_opentracing_cpp.Prelude.{ℕ, ◌≡◌, sym, ap, ◌∙◌, Option, none, List, Text, nat_eq, find}
use mathlib.Core.Path.{subst}
use dd_opentracing_cpp.Floats.{Floats}
use dd_opentracing_cpp.SpanContext.{SpanContext}
use dd_opentracing_cpp.PendingTrace.Tagging.{Identity, identity}
use dd_opentracing_cpp.SpanBuffer.{SpanBuffer, find_trace}
use dd_opentracing_cpp.SpanBuffer.Abstract.{Traces, registered, finished_one, view}
use dd_opentracing_cpp.SpanBuffer.View.{find-view_traces-none}
use dd_opentracing_cpp.Span.{finished_data, finish_with_options}
use dd_opentracing_cpp.Span.Values.{Value, JsonWriter}
use dd_opentracing_cpp.Span.Tagging.{TimePoint}
use dd_opentracing_cpp.Span.Lifetime.{
  WrittenAlone, lone_span, finished_data-SameIds, finish_with_options-view,
}
use dd_opentracing_cpp.Tracer.{Tracer, first_parent, trace_id_from, start_span_with_options}
use dd_opentracing_cpp.Tracer.Started.{child_context-ids, start_span_with_options-ids_for}

alone_with_ids :
    (i : Identity) (a : Traces) (id : ℕ)
    → i.trace_id ≡ id
    → i.span_id ≡ id
    → find id a.waiting ≡ none
    → WrittenAlone i a (finished_one i (registered id id a))
alone_with_ids i a id t s e =
    let same_ids : registered id id a ≡ registered i.trace_id i.span_id a =
      ap (λ x. registered x id a) (sym t) ∙ ap (λ x. registered i.trace_id x a) (sym s) in
    rw same_ids (lone_span i a (ap (λ x. find x a.waiting) t ∙ e))

module _ {J D : Type 0} (fl : Floats D) (w : JsonWriter J D) (stod : Text → Option D) where
  -- A span that is started without a parent, with an identifier that is not that of a trace in the
  -- buffer, and then finished, leaves the buffer as a trace of its own: the writer gets, if the
  -- buffer is enabled, one more trace with the identity of this span alone, and the buffer has no
  -- trace with the identifier. This holds whatever the name and the tags of the span are.
  pub root_span-WrittenAlone :
      (tracer : Tracer fl) (junk : D) (span_id : ℕ) (start_time : TimePoint) (operation_name : Text)
      (references : List (Option SpanContext)) (tags : List (Text × Value D))
      (error_tag http_url : Text) (regex_replace : Text → Text) (end_time now : ℕ) (clock : ℕ → ℕ)
      (b : SpanBuffer D)
      → first_parent fl references ≡ none
      → find_trace fl span_id b ≡ none
      → let r =
          start_span_with_options fl w tracer junk span_id start_time operation_name references tags
            b in
        WrittenAlone
          (identity (finished_data fl stod error_tag http_url regex_replace end_time r.0))
          (view b)
          (view
            (finish_with_options fl stod error_tag http_url regex_replace end_time now clock r.0
              r.1).1)
  root_span-WrittenAlone tracer junk span_id start_time operation_name references tags error_tag
        http_url regex_replace end_time now clock b p e =
      let r =
        start_span_with_options fl w tracer junk span_id start_time operation_name references tags
          b in
      let h =
        start_span_with_options-ids_for fl w tracer junk span_id start_time operation_name
          references tags b in
      let parent = first_parent fl references in
      let c = child_context-ids fl w tracer.logger operation_name span_id parent in
      let root : trace_id_from fl span_id parent ≡ span_id = ap (trace_id_from fl span_id) p in
      let sent = finished_data fl stod error_tag http_url regex_replace end_time r.0 in
      let f = finished_data-SameIds fl stod error_tag http_url regex_replace end_time r.0 in
      let seen : view
            (finish_with_options fl stod error_tag http_url regex_replace end_time now clock r.0
              r.1).1
          ≡ finished_one (identity sent) (registered span_id span_id (view b)) =
        finish_with_options-view fl stod error_tag http_url regex_replace end_time now clock r.0 r.1
          h.4
        ∙ ap (finished_one (identity sent)) (h.5 ∙ ap (λ x. registered x span_id (view b)) root) in
      subst (λ (x : Traces). WrittenAlone (identity sent) (view b) x) (sym seen)
        (alone_with_ids (identity sent) (view b) span_id (f.0 ∙ h.1 ∙ c.0 ∙ root) (f.1 ∙ h.2 ∙ c.1)
          (find-view_traces-none span_id b.traces e))

-- ===== src/SpanBuffer/Abstract.antt =====
-- What src/span_buffer.h promises of the spans: which span ids a trace waits for, which of its
-- spans have finished, and which traces went to the writer. Samplers, tags, priorities and the
-- contents of `meta` and `metrics` are left out of this view.
use dd_opentracing_cpp.Prelude.{
  ℕ, Bool, none, some, List, [], ◌∷◌, ◌++◌, map, ◌==◌, if◌then◌else◌, nat_eq, find, assign, erase,
  contains, insert, length,
}
use dd_opentracing_cpp.PendingTrace.{PendingTrace}
use dd_opentracing_cpp.PendingTrace.Tagging.{Identity, identity}
use dd_opentracing_cpp.SpanBuffer.{SpanBuffer}
use dd_opentracing_cpp.SpanBuffer.Operations.{
  Operation, registers, finishes, sets_from_user, generates, serializes, names_service, locks,
}

-- The spans of one trace.
pub record Waiting : Type 0 where
  pub finished : List Identity
  pub registered : List ℕ

pub record Traces : Type 0 where
  pub enabled : Bool
  pub waiting : List (ℕ × Waiting)
  pub written : List (List Identity)

abbrev pub put_waiting : ℕ → Waiting → Traces → Traces
put_waiting trace_id t a = record a { waiting = assign trace_id t a.waiting }

abbrev pub register_id : ℕ → Waiting → Waiting
register_id span_id t = record t { registered = insert span_id t.registered }

abbrev no_spans : Waiting
no_spans = record { finished = []; registered = [] }

-- A span id is announced. A trace that is not there is started.
unfoldable pub registered : ℕ → ℕ → Traces → Traces
registered trace_id span_id a = elim (find trace_id a.waiting) [
  | none ↦ put_waiting trace_id (register_id span_id no_spans) a
  | some t ↦ put_waiting trace_id (register_id span_id t) a
]

-- A complete trace leaves, for the writer where it is on.
unfoldable pub delivered : ℕ → Traces → Traces
delivered trace_id a = elim (find trace_id a.waiting) [
  | none ↦ a
  | some t ↦ record a {
    waiting = erase trace_id a.waiting;
    written = if a.enabled then a.written ++ t.finished ∷ [] else a.written;
  }
]

abbrev pub push_id : Identity → Waiting → Waiting
push_id span t = record t { finished = t.finished ++ span ∷ [] }

-- A span finishes. It counts where its trace waits for its id, and the last one completes the
-- trace.
unfoldable pub finished_one : Identity → Traces → Traces
finished_one span a = elim (find span.trace_id a.waiting) [
  | none ↦ a
  | some t ↦
      if contains span.span_id t.registered
      then (if length (push_id span t).finished == length t.registered
          then delivered span.trace_id (put_waiting span.trace_id (push_id span t) a)
          else put_waiting span.trace_id (push_id span t) a)
      else a
]

module _ {D : Type 0} where
  -- Only two of the operations change the view.
  unfoldable pub spec_step : Operation D → Traces → Traces
  spec_step (registers junk context) a = registered context.trace_id context.id a
  spec_step (finishes now clock span) a = finished_one (identity span) a
  spec_step (sets_from_user trace_id value) a = a
  spec_step (generates now span) a = a
  spec_step (serializes trace_id) a = a
  spec_step (names_service trace_id name) a = a
  spec_step (locks trace_id) a = a

  unfoldable pub spec_run : List (Operation D) → Traces → Traces
  spec_run [] a = a
  spec_run (op ∷ ops) a = spec_run ops (spec_step op a)

  abbrev pub view_trace : PendingTrace D → Waiting
  view_trace t = record { finished = map identity t.finished_spans; registered = t.all_spans }

  abbrev pub view_traces : List (ℕ × PendingTrace D) → List (ℕ × Waiting)
  view_traces [] = []
  view_traces ((k, t) ∷ m) = (k, view_trace t) ∷ view_traces m

  abbrev pub view : SpanBuffer D → Traces
  view b = record {
    enabled = b.options.enabled;
    waiting = view_traces b.traces;
    written = map (map identity) b.written;
  }

-- ===== src/PendingTrace/Marked.antt =====
-- The tags that `PendingTrace::finish` of src/pending_trace.cpp gives to root spans for the
-- mechanism of the sampling decision.
use dd_opentracing_cpp.Prelude.{
  ℕ, ◌≡◌, false, Option, none, some, List, Text, codes, is_empty, text_eq, find, if◌then◌else◌,
}
use dd_opentracing_cpp.Floats.{Floats}
use dd_opentracing_cpp.SpanData.{SpanData}
use dd_opentracing_cpp.SamplingPriority.{SamplingPriority, SamplingMechanism}
use dd_opentracing_cpp.PendingTrace.{PendingTrace, is_root, decision_maker}

abbrev pub decision_maker_key : Text
decision_maker_key = codes "_dd.p.dm"

module _ {D : Type 0} where
  -- This tracer made the decision, for the reason `m`, in a trace whose service has a name.
  pub record DecidedHere (m : SamplingMechanism) (trace : PendingTrace D) : Type 0 where
    pub decided : (p : SamplingPriority) × (trace.sampling_priority ≡ some p)
    pub own : trace.sampling_decision_extracted ≡ false
    pub named : is_empty trace.service ≡ false
    pub reason : trace.sample_result.sampling_mechanism ≡ some m

-- The value where there is one, else the other one.
abbrev pub present_or : Text → Option Text → Text
present_or v none = v
present_or v (some w) = w

module _ {D : Type 0} (fl : Floats D) where
  -- How a span leaves, with the tag for the decision on the root spans.
  abbrev pub Marked : List ℕ → SamplingMechanism → SpanData D → SpanData D → Type 0
  Marked all_spans m s s' = find decision_maker_key s'.meta ≡ (
      if is_root fl s all_spans
      then some (present_or (decision_maker m) (find decision_maker_key s.meta))
      else find decision_maker_key s.meta)

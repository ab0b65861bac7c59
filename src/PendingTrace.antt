-- ===== src/PendingTrace.antt =====
-- src/pending_trace.h and pending_trace.cpp: a trace that is not complete yet, and what is done to
-- its spans when it is.
pub mod Tagging
pub mod Finish
pub mod Marked
pub mod Origin
use dd_opentracing_cpp.Prelude.{
  ℕ, zero, suc, ◌+◌, Bool, true, false, not, ◌&&◌, ◌||◌, Option, none, some, List, [], ◌∷◌, ◌++◌,
  ◌==◌, if◌then◌else◌, Text, codes, is_empty, nat_eq, text_eq, find, assign, emplace, contains,
  get_elem?, set, length, ltb_ℤ, pos,
}
use dd_opentracing_cpp.Floats.{Floats}
use dd_opentracing_cpp.Tags.{TagMap}
use dd_opentracing_cpp.SpanData.{SpanData}
use dd_opentracing_cpp.SamplingPriority.{
  SamplingPriority, as_int, SamplingMechanism, mechanism_as_int, span_rule,
}
use dd_opentracing_cpp.Sampler.{SampleResult, no_result}
use dd_opentracing_cpp.SpanSampler.{Rule, match_span, rule_sample}

pub record PendingTrace (D : Type 0) : Type 0 where
  pub trace_id : ℕ
  pub finished_spans : List (SpanData D)
  pub all_spans : List ℕ
  pub sampling_priority : Option SamplingPriority
  pub sampling_priority_locked : Bool
  pub origin : Text
  pub hostname : Text
  pub analytics_rate : D
  pub sample_result : SampleResult D
  pub trace_tags : TagMap
  pub service : Text
  pub propagation_error : Text
  pub sampling_decision_extracted : Bool

-- "-" and the decimal digit of the mechanism.
abbrev pub decision_maker : SamplingMechanism → Text
decision_maker m = b'-' ∷ (b'0' + mechanism_as_int m) ∷ []

-- `map.insert(begin, end)`.
unfoldable pub insert_all : TagMap → TagMap → TagMap
insert_all [] m = m
insert_all ((k, v) ∷ tags) m = insert_all tags (emplace k v m)

-- `span.meta[key] = value` and `span.metrics[key] = value`.
abbrev pub set_meta : {D : Type 0} → Text → Text → SpanData D → SpanData D
set_meta key value span = record span { meta = assign key value span.meta }

abbrev pub set_metric : {D : Type 0} → Text → D → SpanData D → SpanData D
set_metric key value span = record span { metrics = assign key value span.metrics }

-- The trace is dropped: `sampling_priority && int(*sampling_priority) <= 0`.
abbrev pub is_dropped : Option SamplingPriority → Bool
is_dropped none = false
is_dropped (some p) = not (ltb_ℤ (pos 0) (as_int p))

abbrev pub add_tags : {D : Type 0} → TagMap → SpanData D → SpanData D
add_tags tags span = record span { meta = insert_all tags span.meta }

module _ {D : Type 0} (fl : Floats D) where
  -- `PendingTrace(logger, trace_id)`. It leaves `analytics_rate` uninitialised: what that holds is
  -- the last argument.
  unfoldable pub new_trace : ℕ → D → PendingTrace D
  new_trace trace_id analytics_rate = record {
    trace_id = trace_id;
    finished_spans = [];
    all_spans = [];
    sampling_priority = none;
    sampling_priority_locked = false;
    origin = [];
    hostname = [];
    analytics_rate = analytics_rate;
    sample_result = no_result fl;
    trace_tags = [];
    service = [];
    propagation_error = [];
    sampling_decision_extracted = false;
  }

  -- `is_root`.
  unfoldable pub is_root : SpanData D → List ℕ → Bool
  is_root span all_spans_in_trace =
      span.parent_id == 0 || not (contains span.parent_id all_spans_in_trace)

  -- `applySamplingDecisionToTraceTags`. Where its assertion fails, that a decision made here has a
  -- mechanism, the trace stays as it is.
  unfoldable pub apply_sampling_decision : PendingTrace D → PendingTrace D
  apply_sampling_decision trace = elim trace.sampling_priority [
    | none ↦ trace
    | some p ↦
        if trace.sampling_decision_extracted || is_empty trace.service
        then trace
        else elim trace.sample_result.sampling_mechanism [
          | none ↦ trace
          | some m ↦ record trace {
            trace_tags = assign (codes "_dd.p.dm") (decision_maker m) trace.trace_tags;
          }
        ]
  ]

  -- `finish_span`.
  unfoldable pub finish_any_span : PendingTrace D → SpanData D → SpanData D
  finish_any_span trace span =
      if is_empty trace.origin then span else set_meta (codes "_dd.origin") trace.origin span

  -- The metrics that a sampler's result puts on the root span.
  unfoldable pub put_rate : Text → D → SpanData D → SpanData D
  put_rate key rate span = if fl.is_nan rate then span else set_metric key rate span

  unfoldable pub put_priority : Option SamplingPriority → SpanData D → SpanData D
  put_priority none span = span
  put_priority (some p) span =
      set_metric (codes "_sampling_priority_v1") (fl.of_int (as_int p)) span

  unfoldable pub put_hostname : Text → SpanData D → SpanData D
  put_hostname hostname span =
      if is_empty hostname then span else set_meta (codes "_dd.hostname") hostname span

  unfoldable pub put_analytics_rate : D → SpanData D → SpanData D
  put_analytics_rate rate span =
      if fl.is_nan rate then span else elim (find (codes "_dd1.sr.eausr") span.metrics) [
        | none ↦ set_metric (codes "_dd1.sr.eausr") rate span
        | some _ ↦ span
      ]

  unfoldable pub put_propagation_error : Text → SpanData D → SpanData D
  put_propagation_error error span =
      if is_empty error then span else set_meta (codes "_dd.propagation_error") error span

  -- `finish_root_span` up to the call of `applySamplingDecisionToTraceTags`.
  unfoldable pub put_metrics : PendingTrace D → SpanData D → SpanData D
  put_metrics trace span =
      let prioritised = put_priority trace.sampling_priority span in
      let hosted = put_hostname trace.hostname prioritised in
      let analysed = put_analytics_rate trace.analytics_rate hosted in
      let ruled = put_rate (codes "_dd.rule_psr") trace.sample_result.rule_rate analysed in
      let limited = put_rate (codes "_dd.limit_psr") trace.sample_result.limiter_rate ruled in
      put_rate (codes "_dd.agent_psr") trace.sample_result.priority_rate limited

  -- `finish_root_span`.
  unfoldable pub finish_root_span : PendingTrace D → SpanData D → PendingTrace D × SpanData D
  finish_root_span trace span =
      let decided = apply_sampling_decision trace in
      let tagged = add_tags decided.trace_tags (put_metrics trace span) in
      (decided, finish_any_span decided (put_propagation_error decided.propagation_error tagged))

  -- The first loop of `finish`: the root spans are told apart from the others.
  unfoldable pub finish_spans :
      PendingTrace D → List (SpanData D) → PendingTrace D × List (SpanData D)
  unfolding is_root finish_any_span
  finish_spans trace [] = (trace, [])
  finish_spans trace (span ∷ spans) =
      let (trace', span') =
        if is_root span trace.all_spans
        then finish_root_span trace span
        else (trace, finish_any_span trace span) in
      let (trace'', spans') = finish_spans trace' spans in (trace'', span' ∷ spans')

  -- The tags of a span that a span rule keeps.
  unfoldable pub tag_kept_span : Rule D → SpanData D → SpanData D
  tag_kept_span rule span =
      let mechanism =
        set_metric (codes "_dd.span_sampling.mechanism")
          (fl.of_int (pos (mechanism_as_int span_rule))) span in
      let rated =
        set_metric (codes "_dd.span_sampling.rule_rate") rule.config.sample_rate mechanism in
      if fl.is_nan rule.config.max_per_second
      then rated
      else set_metric (codes "_dd.span_sampling.max_per_second") rule.config.max_per_second rated

  -- `rule->sample(span)` for the rule at `i`, and the tags if it keeps the span.
  unfoldable pub sample_at : ℕ → ℕ → List (Rule D) → SpanData D → List (Rule D) × SpanData D
  unfolding tag_kept_span
  sample_at now i rules span = elim (get_elem? rules i) [
    | none ↦ (rules, span)
    | some rule ↦
        let (rule', kept) = rule_sample fl now rule span in
        (set rules i rule', if kept then tag_kept_span rule span else span)
  ]

  -- `apply_span_sampling`.
  unfoldable pub apply_span_sampling : ℕ → List (Rule D) → SpanData D → List (Rule D) × SpanData D
  unfolding sample_at
  apply_span_sampling now rules span = elim (match_span fl rules span) [
    | none ↦ (rules, span)
    | some i ↦ sample_at now i rules span
  ]

  -- The second loop of `finish`. `clock k` is what a limiter reads for the span that has `k` others
  -- behind it.
  unfoldable pub sample_spans :
      (ℕ → ℕ) → List (Rule D) → List (SpanData D) → List (Rule D) × List (SpanData D)
  unfolding apply_span_sampling
  sample_spans clock rules [] = (rules, [])
  sample_spans clock rules (span ∷ spans) =
      let (rules', span') = apply_span_sampling (clock (length spans)) rules span in
      let (rules'', spans') = sample_spans clock rules' spans in (rules'', span' ∷ spans')

  -- `finish(span_sampler)`. With no span sampler the list of rules is empty.
  unfoldable pub finish : (ℕ → ℕ) → List (Rule D) → PendingTrace D → List (Rule D) × PendingTrace D
  unfolding finish_spans sample_spans
  finish clock rules trace =
      let (decided, spans) = finish_spans trace trace.finished_spans in
      let (rules', sampled) = sample_spans clock rules spans in
      if not (is_empty rules) && is_dropped trace.sampling_priority
      then (rules', record decided { finished_spans = sampled })
      else (rules, record decided { finished_spans = spans })

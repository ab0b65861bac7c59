-- ===== src/PendingTrace/Tagging.antt =====
-- What tagging a span in src/pending_trace.cpp leaves of its identity and of its sampling priority.
use dd_opentracing_cpp.Prelude.{
  ℕ, ℤ, ◌≡◌, refl, ◌∙◌, Bool, true, false, Option, none, some, arith, Text, codes, text_eq, same,
  find, find-assign,
}
use dd_opentracing_cpp.Floats.{Floats}
use dd_opentracing_cpp.SpanData.{SpanData}
use dd_opentracing_cpp.SamplingPriority.{SamplingPriority, as_int}
use dd_opentracing_cpp.PendingTrace.{
  PendingTrace, apply_sampling_decision, finish_any_span, put_rate, put_priority, put_hostname,
  put_analytics_rate, put_propagation_error, finish_root_span, put_metrics, add_tags,
}

abbrev pub priority_key : Text
priority_key = codes "_sampling_priority_v1"

-- What finishing leaves alone of a span.
pub record Identity : Type 0 where
  pub trace_id : ℕ
  pub span_id : ℕ
  pub parent_id : ℕ
  pub name : Text
  pub service : Text
  pub resource : Text
  pub start : ℤ
  pub duration : ℤ
  pub error : ℕ

module _ {D : Type 0} where
  abbrev pub identity : SpanData D → Identity
  identity s = record {
    trace_id = s.trace_id;
    span_id = s.span_id;
    parent_id = s.parent_id;
    name = s.name;
    service = s.service;
    resource = s.resource;
    start = s.start;
    duration = s.duration;
    error = s.error;
  }

module _ {D : Type 0} (fl : Floats D) where
  -- The value under `priority_key` that a span leaves with.
  abbrev pub expected_priority : Bool → Option SamplingPriority → SpanData D → Option D
  expected_priority false p s = find priority_key s.metrics
  expected_priority true none s = find priority_key s.metrics
  expected_priority true (some p) s = some (fl.of_int (as_int p))

  pub put_rate-priority :
      (key : Text) (rate : D) (s : SpanData D)
      → same key priority_key ≡ false
      → find priority_key (put_rate fl key rate s).metrics ≡ find priority_key s.metrics
  unfolding put_rate
  put_rate-priority key rate s h = ground (arith, find-assign key priority_key rate s.metrics)

  pub put_analytics_rate-priority :
      (rate : D) (s : SpanData D)
      → find priority_key (put_analytics_rate fl rate s).metrics ≡ find priority_key s.metrics
  unfolding put_analytics_rate
  put_analytics_rate-priority rate s =
      ground (arith, find-assign (codes "_dd1.sr.eausr") priority_key rate s.metrics)

  pub put_priority-priority :
      (p : Option SamplingPriority) (s : SpanData D)
      → find priority_key (put_priority fl p s).metrics ≡ expected_priority true p s
  unfolding put_priority
  put_priority-priority none s = refl
  put_priority-priority (some p) s =
      find-assign priority_key priority_key (fl.of_int (as_int p)) s.metrics

  pub put_hostname-metrics : (h : Text) (s : SpanData D) → (put_hostname fl h s).metrics ≡ s.metrics
  unfolding put_hostname
  put_hostname-metrics h s = ground arith

  pub put_propagation_error-metrics :
      (e : Text) (s : SpanData D) → (put_propagation_error fl e s).metrics ≡ s.metrics
  unfolding put_propagation_error
  put_propagation_error-metrics e s = ground arith

  pub finish_any_span-metrics :
      (trace : PendingTrace D) (s : SpanData D) → (finish_any_span fl trace s).metrics ≡ s.metrics
  unfolding finish_any_span
  finish_any_span-metrics trace s = ground arith

  pub put_metrics-priority :
      (trace : PendingTrace D) (s : SpanData D)
      → find priority_key (put_metrics fl trace s).metrics
        ≡ expected_priority true trace.sampling_priority s
  unfolding put_metrics
  put_metrics-priority trace s =
      rw
        (
          put_rate-priority, put_rate-priority, put_rate-priority, put_analytics_rate-priority,
          put_hostname-metrics,
        )
        (put_priority-priority trace.sampling_priority s)

  pub finish_root_span-priority :
      (trace : PendingTrace D) (s : SpanData D)
      → find priority_key (finish_root_span fl trace s).1.metrics
        ≡ expected_priority true trace.sampling_priority s
  unfolding finish_root_span
  finish_root_span-priority trace s =
      rw (finish_any_span-metrics, put_propagation_error-metrics) (put_metrics-priority trace s)

  pub put_rate-identity :
      (key : Text) (rate : D) (s : SpanData D) → identity (put_rate fl key rate s) ≡ identity s
  unfolding put_rate
  put_rate-identity key rate s = ground arith

  pub put_analytics_rate-identity :
      (rate : D) (s : SpanData D) → identity (put_analytics_rate fl rate s) ≡ identity s
  unfolding put_analytics_rate
  put_analytics_rate-identity rate s = ground arith

  pub put_priority-identity :
      (p : Option SamplingPriority) (s : SpanData D) → identity (put_priority fl p s) ≡ identity s
  unfolding put_priority
  put_priority-identity p s = ground arith

  pub put_hostname-identity :
      (h : Text) (s : SpanData D) → identity (put_hostname fl h s) ≡ identity s
  unfolding put_hostname
  put_hostname-identity h s = ground arith

  pub put_propagation_error-identity :
      (e : Text) (s : SpanData D) → identity (put_propagation_error fl e s) ≡ identity s
  unfolding put_propagation_error
  put_propagation_error-identity e s = ground arith

  pub finish_any_span-identity :
      (trace : PendingTrace D) (s : SpanData D) → identity (finish_any_span fl trace s) ≡ identity s
  unfolding finish_any_span
  finish_any_span-identity trace s = ground arith

  pub put_metrics-identity :
      (trace : PendingTrace D) (s : SpanData D) → identity (put_metrics fl trace s) ≡ identity s
  unfolding put_metrics
  put_metrics-identity trace s =
      let r = trace.sample_result in
      let prioritised = put_priority fl trace.sampling_priority s in
      let hosted = put_hostname fl trace.hostname prioritised in
      let analysed = put_analytics_rate fl trace.analytics_rate hosted in
      let ruled = put_rate fl (codes "_dd.rule_psr") r.rule_rate analysed in
      let limited = put_rate fl (codes "_dd.limit_psr") r.limiter_rate ruled in
      put_rate-identity (codes "_dd.agent_psr") r.priority_rate limited
      ∙ put_rate-identity (codes "_dd.limit_psr") r.limiter_rate ruled
      ∙ put_rate-identity (codes "_dd.rule_psr") r.rule_rate analysed
      ∙ put_analytics_rate-identity trace.analytics_rate hosted
      ∙ put_hostname-identity trace.hostname prioritised
      ∙ put_priority-identity trace.sampling_priority s

  pub finish_root_span-identity :
      (trace : PendingTrace D) (s : SpanData D)
      → identity (finish_root_span fl trace s).1 ≡ identity s
  unfolding finish_root_span
  finish_root_span-identity trace s =
      let decided = apply_sampling_decision fl trace in
      let tagged = add_tags decided.trace_tags (put_metrics fl trace s) in
      finish_any_span-identity decided (put_propagation_error fl decided.propagation_error tagged)
      ∙ put_propagation_error-identity decided.propagation_error tagged
      ∙ put_metrics-identity trace s

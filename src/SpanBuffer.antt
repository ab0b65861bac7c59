-- ===== src/SpanBuffer.antt =====
-- src/span_buffer.h and span_buffer.cpp: the traces in progress, from the registration of their
-- spans to the writer. Each operation runs under the mutex, so it is one step here. Log lines are
-- left out. The writer is the list of the traces that were handed to it.
pub mod Operations
pub mod Each
pub mod Valid
pub mod Locked
pub mod Complete
pub mod Counted
pub mod Conserved
pub mod TagHeader
pub mod Abstract
pub mod View
pub mod Refines
use dd_opentracing_cpp.Prelude.{
  ℕ, zero, suc, ◌+◌, Bool, true, false, not, ◌&&◌, ◌||◌, Option, none, some, List, [], ◌∷◌, ◌++◌,
  ◌==◌, ltb, if◌then◌else◌, Text, codes, is_empty, nat_eq, find, assign, emplace, erase, contains,
  insert, length,
}
use dd_opentracing_cpp.Floats.{Floats}
use dd_opentracing_cpp.Tags.{TagMap, append_tag}
use dd_opentracing_cpp.SpanData.{SpanData, env}
use dd_opentracing_cpp.SamplingPriority.{
  SamplingPriority, UserSamplingPriority, as_sampling_priority_of_user, manual,
}
use dd_opentracing_cpp.Sampler.{SampleResult, RulesSampler, rules_sample}
use dd_opentracing_cpp.SpanSampler.{Rule}
use dd_opentracing_cpp.SpanContext.{SpanContext}
use dd_opentracing_cpp.PendingTrace.{PendingTrace, new_trace, apply_sampling_decision, finish}

pub record SpanBufferOptions (D : Type 0) : Type 0 where
  pub enabled : Bool
  pub hostname : Text
  pub analytics_rate : D
  pub service : Text
  pub tags_header_size : ℕ

pub record SpanBuffer (D : Type 0) : Type 0 where
  pub traces : List (ℕ × PendingTrace D)
  pub trace_sampler : RulesSampler D
  -- The rules of the span sampler; none for `nullptr`.
  pub span_rules : List (Rule D)
  pub options : SpanBufferOptions D
  pub written : List (List (SpanData D))

-- `for (entry : trace_tags) appendTag(result, entry.first, entry.second)`.
unfoldable pub serialize_tags : Text → TagMap → Text
serialize_tags result [] = result
serialize_tags result ((k, v) ∷ tags) = serialize_tags (append_tag result k v) tags

module _ {D : Type 0} (fl : Floats D) where
  -- `traces_.find(trace_id)`.
  abbrev pub find_trace : ℕ → SpanBuffer D → Option (PendingTrace D)
  find_trace trace_id b = find trace_id b.traces

  -- A write through the iterator or the reference to the trace.
  abbrev pub put_trace : ℕ → PendingTrace D → SpanBuffer D → SpanBuffer D
  put_trace trace_id trace b = record b { traces = assign trace_id trace b.traces }

  -- `getSamplingPriorityImpl`.
  unfoldable pub get_sampling_priority : ℕ → SpanBuffer D → Option SamplingPriority
  get_sampling_priority trace_id b = elim (find_trace trace_id b) [
    | none ↦ none
    | some trace ↦ trace.sampling_priority
  ]

  -- The trace after `setSamplingPriorityFromExtractedContext`.
  unfoldable pub extracted_priority : SamplingPriority → PendingTrace D → PendingTrace D
  extracted_priority value trace = if trace.sampling_priority_locked then trace else record trace {
    sampling_priority = some value;
    sampling_priority_locked = true;
    sampling_decision_extracted = true;
  }

  -- The trace after `setSamplingPriorityFromUserImpl`.
  unfoldable pub user_priority : Option UserSamplingPriority → PendingTrace D → PendingTrace D
  user_priority value trace = if trace.sampling_priority_locked then trace else record trace {
    sampling_priority = as_sampling_priority_of_user value;
    sampling_decision_extracted = false;
    sample_result = record (trace.sample_result) { sampling_mechanism = some manual };
  }

  -- The trace after `setSamplingPriorityFromSampler`.
  unfoldable pub sampler_priority : SampleResult D → PendingTrace D → PendingTrace D
  sampler_priority value trace = if trace.sampling_priority_locked then trace else record trace {
    sampling_priority = value.sampling_priority;
    sampling_decision_extracted = false;
  }

  -- An operation on one trace, which does nothing where there is none.
  unfoldable pub on_trace : ℕ → (PendingTrace D → PendingTrace D) → SpanBuffer D → SpanBuffer D
  on_trace trace_id f b = elim (find_trace trace_id b) [
    | none ↦ b
    | some trace ↦ put_trace trace_id (f trace) b
  ]

  -- `setSamplingPriorityFromUser`. Its result is `get_sampling_priority` of the new buffer.
  unfoldable pub set_sampling_priority_from_user :
      ℕ → Option UserSamplingPriority → SpanBuffer D → SpanBuffer D
  unfolding on_trace user_priority
  set_sampling_priority_from_user trace_id value b = on_trace trace_id (user_priority value) b

  -- `lockSamplingPriority`.
  unfoldable pub lock_sampling_priority : ℕ → SpanBuffer D → SpanBuffer D
  unfolding on_trace
  lock_sampling_priority trace_id b =
      on_trace trace_id (λ trace. record trace { sampling_priority_locked = true }) b

  -- `setServiceName`.
  unfoldable pub set_service_name : ℕ → Text → SpanBuffer D → SpanBuffer D
  unfolding on_trace
  set_service_name trace_id service_name b =
      on_trace trace_id (λ trace. record trace { service = service_name }) b

  -- The trace that `registerSpan` starts, or starts again where it has no span.
  unfoldable pub start_trace : SpanBufferOptions D → SpanContext → PendingTrace D → PendingTrace D
  unfolding extracted_priority
  start_trace options context trace =
      let prioritised : PendingTrace D = elim context.propagated_sampling_priority [
        | none ↦ trace
        | some p ↦ extracted_priority p trace
      ] in
      record prioritised {
        origin = if is_empty context.origin then trace.origin else context.origin;
        trace_tags = context.extracted_trace_tags;
        hostname = options.hostname;
        analytics_rate = options.analytics_rate;
        service = options.service;
      }

  abbrev pub add_span : ℕ → PendingTrace D → PendingTrace D
  add_span span_id trace = record trace { all_spans = insert span_id trace.all_spans }

  -- `registerSpan`. `junk` is what an uninitialised `analytics_rate` holds; it is overwritten.
  unfoldable pub register_span : D → SpanContext → SpanBuffer D → SpanBuffer D
  unfolding start_trace new_trace
  register_span junk context b = elim (find_trace context.trace_id b) [
    | none ↦
        put_trace context.trace_id
          (add_span context.id (start_trace b.options context (new_trace fl context.trace_id junk)))
          b
    | some trace ↦
        put_trace context.trace_id
          (add_span context.id
            (if is_empty trace.all_spans then start_trace b.options context trace else trace))
          b
  ]

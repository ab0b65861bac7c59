-- ===== src/SpanBuffer/Operations.antt =====
-- The operations of src/span_buffer.cpp that consult the samplers, finish a trace or encode its
-- tags, and all operations together as steps.
use dd_opentracing_cpp.Prelude.{
  ℕ, Option, none, some, List, [], ◌∷◌, ◌++◌, ◌==◌, ltb, if◌then◌else◌, Text, codes, nat_eq, erase,
  contains, length,
}
use dd_opentracing_cpp.Floats.{Floats}
use dd_opentracing_cpp.SpanData.{SpanData, env}
use dd_opentracing_cpp.SamplingPriority.{UserSamplingPriority}
use dd_opentracing_cpp.Sampler.{SampleResult, rules_sample}
use dd_opentracing_cpp.SpanContext.{SpanContext}
use dd_opentracing_cpp.PendingTrace.{PendingTrace, apply_sampling_decision, finish}
use dd_opentracing_cpp.SpanBuffer.{
  SpanBuffer, serialize_tags, find_trace, put_trace, get_sampling_priority, sampler_priority,
  on_trace, set_sampling_priority_from_user, lock_sampling_priority, set_service_name,
  register_span,
}

module _ {D : Type 0} (fl : Floats D) where
  -- The trace after `setSamplerResult` and `setSamplingPriorityFromSampler`.
  unfoldable pub sampled_trace : SampleResult D → PendingTrace D → PendingTrace D
  sampled_trace result trace = sampler_priority fl result (record trace { sample_result = result })

  -- `generateSamplingPriorityImpl`, with what the sampler's limiter reads.
  unfoldable pub generate_sampling_priority : ℕ → SpanData D → SpanBuffer D → SpanBuffer D
  generate_sampling_priority now span b = elim (get_sampling_priority fl span.trace_id b) [
    | some p ↦ b
    | none ↦
        let (sampler, result) =
          rules_sample fl now b.trace_sampler (env span) span.service span.name span.trace_id in
        on_trace fl span.trace_id (sampled_trace result) (record b { trace_sampler = sampler })
  ]

  -- `trace.finish(span_sampler)` on the trace in the buffer.
  unfoldable pub finish_in_place : (ℕ → ℕ) → ℕ → SpanBuffer D → SpanBuffer D
  finish_in_place clock trace_id b = elim (find_trace fl trace_id b) [
    | none ↦ b
    | some trace ↦
        let (rules, finished) = finish fl clock b.span_rules trace in
        put_trace fl trace_id finished (record b { span_rules = rules })
  ]

  -- `unbufferAndWriteTrace`.
  unfoldable pub unbuffer_and_write_trace : ℕ → SpanBuffer D → SpanBuffer D
  unbuffer_and_write_trace trace_id b = elim (find_trace fl trace_id b) [
    | none ↦ b
    | some trace ↦ record b {
      written = if b.options.enabled then b.written ++ trace.finished_spans ∷ [] else b.written;
      traces = erase trace_id b.traces;
    }
  ]

  -- What `finishSpan` does once the last span of a trace is there.
  unfoldable pub complete_trace : ℕ → (ℕ → ℕ) → SpanData D → SpanBuffer D → SpanBuffer D
  complete_trace now clock span b =
      unbuffer_and_write_trace span.trace_id
        (finish_in_place clock span.trace_id (generate_sampling_priority now span b))

  -- `finishSpan`.
  unfoldable pub finish_span : ℕ → (ℕ → ℕ) → SpanData D → SpanBuffer D → SpanBuffer D
  finish_span now clock span b = elim (find_trace fl span.trace_id b) [
    | none ↦ b
    | some trace ↦
        let pushed : PendingTrace D = record trace {
          finished_spans = trace.finished_spans ++ span ∷ [];
        } in
        let buffered = put_trace fl span.trace_id pushed b in
        if contains span.span_id trace.all_spans
        then (if length pushed.finished_spans == length trace.all_spans
            then complete_trace now clock span buffered
            else buffered)
        else b
  ]

  -- The trace after `serializeTraceTags`, and the header value if it is not too long.
  unfoldable pub encoded_trace : ℕ → PendingTrace D → PendingTrace D × Option Text
  encoded_trace configured_max trace =
      let decided = apply_sampling_decision fl trace in
      let result = serialize_tags [] decided.trace_tags in
      if ltb configured_max (length result)
      then (record decided { propagation_error = codes "inject_max_size" }, none)
      else (decided, some result)

  -- `serializeTraceTags`.
  unfoldable pub serialize_trace_tags : ℕ → SpanBuffer D → SpanBuffer D × Option Text
  serialize_trace_tags trace_id b = elim (find_trace fl trace_id b) [
    | none ↦ (b, none)
    | some trace ↦ (
      put_trace fl trace_id (encoded_trace b.options.tags_header_size trace).0 b,
      (encoded_trace b.options.tags_header_size trace).1,
    )
  ]

-- The public operations that change a buffer.
pub data Operation (D : Type 0) : Type 0 where
  registers : D → SpanContext → Operation D
  finishes : ℕ → (ℕ → ℕ) → SpanData D → Operation D
  sets_from_user : ℕ → Option UserSamplingPriority → Operation D
  generates : ℕ → SpanData D → Operation D
  serializes : ℕ → Operation D
  names_service : ℕ → Text → Operation D
  locks : ℕ → Operation D

module _ {D : Type 0} (fl : Floats D) where
  unfoldable pub step : Operation D → SpanBuffer D → SpanBuffer D
  step (registers junk context) b = register_span fl junk context b
  step (finishes now clock span) b = finish_span fl now clock span b
  step (sets_from_user trace_id value) b = set_sampling_priority_from_user fl trace_id value b
  step (generates now span) b = generate_sampling_priority fl now span b
  step (serializes trace_id) b = (serialize_trace_tags fl trace_id b).0
  step (names_service trace_id name) b = set_service_name fl trace_id name b
  step (locks trace_id) b = lock_sampling_priority fl trace_id b

  unfoldable pub run : List (Operation D) → SpanBuffer D → SpanBuffer D
  run [] b = b
  run (op ∷ ops) b = run ops (step op b)

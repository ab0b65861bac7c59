-- ===== src/SpanBuffer/Complete.antt =====
-- The last span of a trace: what `SpanBuffer::finishSpan` of src/span_buffer.cpp writes.
use dd_opentracing_cpp.Prelude.{
  ℕ, ◌+◌, ◌≡◌, sym, ◌∙◌, ap, inl, inr, true, not, ◌||◌, Option, none, some, [], ◌∷◌, ◌++◌, arith,
  if◌then◌else◌, ◌==◌, ==_iff, nat_eq, find-assign, contains, length, length-append, Option-cases,
  Text,
}
use dd_opentracing_cpp.Floats.{Floats}
use dd_opentracing_cpp.SpanData.{SpanData, env}
use dd_opentracing_cpp.Sampler.{RulesSampler, rules_sample, sample_by_rule, priority_sample}
use dd_opentracing_cpp.SamplingPriority.{SamplingPriority}
use dd_opentracing_cpp.PendingTrace.{PendingTrace, finish}
use dd_opentracing_cpp.SpanBuffer.{
  SpanBuffer, find_trace, put_trace, on_trace, get_sampling_priority, sampler_priority,
}
use dd_opentracing_cpp.SpanBuffer.Operations.{
  sampled_trace, generate_sampling_priority, finish_in_place, unbuffer_and_write_trace,
  complete_trace, finish_span,
}
use dd_opentracing_cpp.SpanBuffer.Each.{find-complete_trace}
use dd_opentracing_cpp.SpanBuffer.Valid.{is_some}

module _ {D : Type 0} (fl : Floats D) where
  -- The trace with one more finished span.
  abbrev pub push_span : SpanData D → PendingTrace D → PendingTrace D
  push_span span t = record t { finished_spans = t.finished_spans ++ span ∷ [] }

  -- The first trace if a decision has been made, else the second.
  abbrev pub unless_decided :
      Option SamplingPriority → PendingTrace D → PendingTrace D → PendingTrace D
  unless_decided (some p) t u = t
  unless_decided none t u = u

  -- The trace after `generateSamplingPriorityImpl`, in a buffer with this sampler.
  abbrev pub decide_trace : ℕ → SpanData D → RulesSampler D → PendingTrace D → PendingTrace D
  decide_trace now span sampler t = unless_decided t.sampling_priority t (
      sampled_trace fl
        (rules_sample fl now sampler (env span) span.service span.name span.trace_id).1 t)

  get_sampling_priority-some :
      (id : ℕ) (b : SpanBuffer D) (t : PendingTrace D)
      → find_trace fl id b ≡ some t
      → get_sampling_priority fl id b ≡ t.sampling_priority
  unfolding get_sampling_priority
  get_sampling_priority-some id b t e = rw (get_sampling_priority, e)

  find-on_trace :
      (id : ℕ) (f : PendingTrace D → PendingTrace D) (b : SpanBuffer D) (t : PendingTrace D)
      → find_trace fl id b ≡ some t
      → find_trace fl id (on_trace fl id f b) ≡ some (f t)
  unfolding on_trace
  find-on_trace id f b t e = rw (e, on_trace) (ground (arith, find-assign id id (f t) b.traces))

  find-generate :
      (now : ℕ) (span : SpanData D) (b : SpanBuffer D) (t : PendingTrace D)
      → find_trace fl span.trace_id b ≡ some t
      → find_trace fl span.trace_id (generate_sampling_priority fl now span b)
        ≡ some (decide_trace now span b.trace_sampler t)
  unfolding generate_sampling_priority
  find-generate now span b t e = elim (Option-cases t.sampling_priority) [
    | inl n ↦
        let u =
          sampled_trace fl
            (rules_sample fl now b.trace_sampler (env span) span.service span.name span.trace_id).1
            t in
        rw (generate_sampling_priority, get_sampling_priority-some span.trace_id b t e ∙ n)
          (find-on_trace span.trace_id _ _ t e ∙ ap (λ p. some (unless_decided p t u)) (sym n))
    | inr (p, n) ↦
        let u =
          sampled_trace fl
            (rules_sample fl now b.trace_sampler (env span) span.service span.name span.trace_id).1
            t in
        rw (generate_sampling_priority, get_sampling_priority-some span.trace_id b t e ∙ n)
          (e ∙ ap (λ p. some (unless_decided p t u)) (sym n))
  ]

  generate-fields :
      (now : ℕ) (span : SpanData D) (b : SpanBuffer D)
      → ((generate_sampling_priority fl now span b).written ≡ b.written)
        × ((generate_sampling_priority fl now span b).options ≡ b.options)
        × ((generate_sampling_priority fl now span b).span_rules ≡ b.span_rules)
  unfolding generate_sampling_priority on_trace
  generate-fields now span b = ground arith

  -- The sampler decides whenever it is asked.
  rules_sample-priority :
      (now : ℕ) (s : RulesSampler D) (environment service name : Text) (trace_id : ℕ)
      → is_some (rules_sample fl now s environment service name trace_id).1.sampling_priority ≡ true
  unfolding rules_sample sample_by_rule priority_sample
  rules_sample-priority now s environment service name trace_id = ground arith

  decide_trace-priority :
      (now : ℕ) (span : SpanData D) (s : RulesSampler D) (t : PendingTrace D)
      → is_some (decide_trace now span s t).sampling_priority
        ≡ (not t.sampling_priority_locked || is_some t.sampling_priority)
  unfolding sampled_trace sampler_priority
  decide_trace-priority now span s t =
      ground (arith, rules_sample-priority now s (env span) span.service span.name span.trace_id)

  -- Writing out a trace that is in the buffer.
  unbuffer-written :
      (id : ℕ) (b : SpanBuffer D) (t : PendingTrace D)
      → find_trace fl id b ≡ some t
      → (unbuffer_and_write_trace fl id b).written
        ≡ (if b.options.enabled then b.written ++ t.finished_spans ∷ [] else b.written)
  unfolding unbuffer_and_write_trace
  unbuffer-written id b t e = rw (e, unbuffer_and_write_trace)

  finish_in_place-some :
      (clock : ℕ → ℕ) (id : ℕ) (b : SpanBuffer D) (t : PendingTrace D)
      → find_trace fl id b ≡ some t
      → finish_in_place fl clock id b
        ≡ put_trace fl id
            (finish fl clock b.span_rules t).1
            (record b { span_rules = (finish fl clock b.span_rules t).0 })
  unfolding finish_in_place
  finish_in_place-some clock id b t e = rw (e, finish_in_place)

  complete_trace-written :
      (now : ℕ) (clock : ℕ → ℕ) (span : SpanData D) (b : SpanBuffer D) (t : PendingTrace D)
      → find_trace fl span.trace_id b ≡ some t
      → (complete_trace fl now clock span b).written ≡ (
          if b.options.enabled
          then b.written
            ++ (finish fl clock b.span_rules
                (decide_trace now span b.trace_sampler t)).1.finished_spans
              ∷ []
          else b.written)
  unfolding complete_trace
  complete_trace-written now clock span b t e =
      let id = span.trace_id in
      let g = generate_sampling_priority fl now span b in
      let d = decide_trace now span b.trace_sampler t in
      let found = find-generate now span b t e in
      let same_fields = generate-fields now span b in
      let done = (finish fl clock g.span_rules d).1 in
      let rules = (finish fl clock g.span_rules d).0 in
      rw (finish_in_place-some clock id g d found) (
        unbuffer-written id (put_trace fl id done (record g { span_rules = rules })) done
          (find-assign id id done g.traces ∙ ground (arith, ==_iff id id))
        ∙ ground (arith, same_fields.0, same_fields.1, same_fields.2))

  -- When the last span that a trace waits for finishes, the trace leaves the buffer and the others
  -- stay as they were. If the writer is on it is handed one more list of spans, the spans of the
  -- trace in the order in which they finished, finished under the sampling decision made before or
  -- else by the sampler now. There is such a decision unless the trace was locked with none.
  pub finish_span_last :
      (now : ℕ) (clock : ℕ → ℕ) (span : SpanData D) (b : SpanBuffer D) (t : PendingTrace D)
      → find_trace fl span.trace_id b ≡ some t
      → contains span.span_id t.all_spans ≡ true
      → length t.finished_spans + 1 ≡ length t.all_spans
      → let decided = decide_trace now span b.trace_sampler (push_span span t) in
        let after = finish_span fl now clock span b in
        (after.written ≡ (
          if b.options.enabled
          then b.written ++ (finish fl clock b.span_rules decided).1.finished_spans ∷ []
          else b.written))
        × ((j : ℕ)
            → find_trace fl j after ≡ (if span.trace_id == j then none else find_trace fl j b))
        × (is_some decided.sampling_priority
            ≡ (not t.sampling_priority_locked || is_some t.sampling_priority))
  unfolding finish_span
  finish_span_last now clock span b t e h n =
      let pushed = push_span span t in
      let full : (length (t.finished_spans ++ span ∷ []) == length t.all_spans) ≡ true =
        (==_iff _ _).1 (omega (arith, length-append t.finished_spans (span ∷ []), n)) in
      let put = put_trace fl span.trace_id pushed b in
      let found : find_trace fl span.trace_id put ≡ some pushed = ground (
        arith,
        find-assign span.trace_id span.trace_id pushed b.traces,
        ==_iff span.trace_id span.trace_id,
      ) in
      (
        rw (e, finish_span, h, full) (complete_trace-written now clock span put pushed found),
        λ j.
            rw (e, finish_span, h, full)
              (find-complete_trace fl now j clock span put
                ∙ ground (arith, find-assign span.trace_id j pushed b.traces)),
        decide_trace-priority now span b.trace_sampler pushed,
      )

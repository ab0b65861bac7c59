-- ===== src/SpanBuffer/Valid.antt =====
-- What holds of every trace in the buffer, and what each operation does to it.
pub mod Steps
use dd_opentracing_cpp.Prelude.{
  ℕ, zero, suc, ◌+◌, ◌≤◌, ◌<◌, ◌≡◌, ◌≢◌, refl, sym, ◌∙◌, ◌⊎◌, inl, inr, Bool, true, false, not,
  ◌||◌, ◌&&◌, Option, none, some, List, [], ◌∷◌, ◌++◌, arith, ◌==◌, ==_iff, Text, if◌then◌else◌,
  nat_eq, same, same_iff, find, assign, contains, insert, contains-insert, length, length-append,
  Bool-cases, Option-cases, is_empty,
}
use dd_opentracing_cpp.Floats.{Floats}
use dd_opentracing_cpp.SpanData.{SpanData, env}
use dd_opentracing_cpp.SpanContext.{SpanContext}
use dd_opentracing_cpp.Sampler.{
  SampleResult, RulesSampler, rules_sample, sample_by_rule, priority_sample, match_rules,
}
use dd_opentracing_cpp.SamplingPriority.{UserSamplingPriority}
use dd_opentracing_cpp.PendingTrace.{PendingTrace, new_trace, apply_sampling_decision, finish}
use dd_opentracing_cpp.SpanBuffer.{
  SpanBuffer, SpanBufferOptions, find_trace, put_trace, on_trace, get_sampling_priority,
  start_trace, extracted_priority, user_priority, sampler_priority, register_span,
  set_sampling_priority_from_user, lock_sampling_priority, set_service_name, add_span,
}
use dd_opentracing_cpp.SpanBuffer.Operations.{
  sampled_trace, generate_sampling_priority, finish_in_place, unbuffer_and_write_trace,
  complete_trace, finish_span, encoded_trace, serialize_trace_tags, Operation, registers, finishes,
  sets_from_user, generates, serializes, names_service, locks, step, run,
}
use dd_opentracing_cpp.SpanBuffer.Each.{Each, Each-put_trace, Each-on_trace}

abbrev pub is_some {ℓ} : {A : Type ℓ} → Option A → Bool
is_some none = false
is_some (some a) = true

or_true : (b : Bool) → (b || true) ≡ true
or_true true = refl
or_true false = refl

length-insert-le : (k : ℕ) (s : List ℕ) → length s ≤ length (insert k s)
unfolding insert
length-insert-le k [] = omega arith
length-insert-le k (j ∷ s) = ground (arith, length-insert-le k s)

length-insert_pos : (k : ℕ) (s : List ℕ) → 0 < length (insert k s)
unfolding insert
length-insert_pos k [] = omega arith
length-insert_pos k (j ∷ s) = ground arith

pub not_empty : (xs : List ℕ) {n : ℕ} → n < length xs → is_empty xs ≡ false
not_empty [] h = absurd (omega arith)
not_empty (x ∷ xs) h = refl

module _ {D : Type 0} where
  -- Each finished span was registered and belongs to the trace.
  abbrev pub Registered : ℕ → List ℕ → List (SpanData D) → Type 0
  Registered id all_spans [] = Unit {0}
  Registered id all_spans (s ∷ spans) =
      (s.trace_id ≡ id) × (contains s.span_id all_spans ≡ true) × Registered id all_spans spans

  -- A decision that was made here, not extracted, has its mechanism on record: the assertion of
  -- `applySamplingDecisionToTraceTags`.
  abbrev pub Explained : PendingTrace D → Type 0
  Explained t =
      (t.sampling_priority ≡ none)
      ⊎ (t.sampling_decision_extracted ≡ true)
      ⊎ (is_some t.sample_result.sampling_mechanism ≡ true)

  pub record IsPending (id : ℕ) (t : PendingTrace D) : Type 0 where
    pub incomplete : length t.finished_spans < length t.all_spans
    pub registered : Registered id t.all_spans t.finished_spans
    pub explained : Explained t

  Registered-insert :
      (id span_id : ℕ) (all_spans : List ℕ) (spans : List (SpanData D))
      → Registered id all_spans spans
      → Registered id (insert span_id all_spans) spans
  Registered-insert id span_id all_spans [] h = tt
  Registered-insert id span_id all_spans (s ∷ spans) (h, k, r) = (
    h,
    rw (contains-insert span_id s.span_id all_spans, k) (or_true (span_id == s.span_id)),
    Registered-insert id span_id all_spans spans r,
  )

  Registered-append :
      (id : ℕ) (all_spans : List ℕ) (spans : List (SpanData D)) (s : SpanData D)
      → Registered id all_spans spans
      → s.trace_id ≡ id
      → contains s.span_id all_spans ≡ true
      → Registered id all_spans (spans ++ s ∷ [])
  Registered-append id all_spans [] s h e k = (e, k, tt)
  Registered-append id all_spans (x ∷ spans) s h e k =
      (h.0, h.1, Registered-append id all_spans spans s h.2 e k)

module _ {D : Type 0} (fl : Floats D) where
  pub IsPending-add_span :
      (id span_id : ℕ) (t : PendingTrace D) → IsPending id t → IsPending id (add_span fl span_id t)
  IsPending-add_span id span_id t p = record {
    incomplete = omega (arith, p.incomplete, length-insert-le span_id t.all_spans);
    registered = Registered-insert id span_id t.all_spans t.finished_spans p.registered;
    explained = p.explained;
  }

  pub IsPending-start :
      (id span_id : ℕ) (junk : D) (options : SpanBufferOptions D) (context : SpanContext)
      → IsPending id (add_span fl span_id (start_trace fl options context (new_trace fl id junk)))
  unfolding start_trace new_trace
  IsPending-start id span_id junk options context = record {
    incomplete = ground (arith, length-insert_pos span_id []);
    registered = ground arith;
    explained = ground arith;
  }

  -- The sampler always says how it decided.
  pub rules_sample-mechanism :
      (now : ℕ) (s : RulesSampler D) (environment service name : Text) (trace_id : ℕ)
      → is_some (rules_sample fl now s environment service name trace_id).1.sampling_mechanism
        ≡ true
  unfolding rules_sample sample_by_rule priority_sample
  rules_sample-mechanism now s environment service name trace_id = ground arith

  pub user_priority-IsPending :
      (id : ℕ) (value : Option UserSamplingPriority) (t : PendingTrace D)
      → IsPending id t
      → IsPending id (user_priority fl value t)
  unfolding user_priority
  user_priority-IsPending id value t p = ground arith

  pub sampled_trace-IsPending :
      (id : ℕ) (result : SampleResult D) (t : PendingTrace D)
      → is_some result.sampling_mechanism ≡ true
      → IsPending id t
      → IsPending id (sampled_trace fl result t)
  unfolding sampled_trace sampler_priority
  sampled_trace-IsPending id result t h p = ground arith

  pub encoded_trace-IsPending :
      (id configured_max : ℕ) (t : PendingTrace D)
      → IsPending id t
      → IsPending id (encoded_trace fl configured_max t).0
  unfolding encoded_trace apply_sampling_decision
  encoded_trace-IsPending id configured_max t p = ground arith

  -- The trace with the span that has just finished, where others have not.
  pub pushed-IsPending :
      (span : SpanData D) (t : PendingTrace D)
      → IsPending span.trace_id t
      → contains span.span_id t.all_spans ≡ true
      → (length (t.finished_spans ++ span ∷ []) == length t.all_spans) ≡ false
      → IsPending span.trace_id (record t { finished_spans = t.finished_spans ++ span ∷ [] })
  pushed-IsPending span t p k h = record {
    incomplete = ground (arith, length-append t.finished_spans (span ∷ []), p.incomplete);
    registered =
        Registered-append span.trace_id t.all_spans t.finished_spans span p.registered refl k;
    explained = p.explained;
  }

-- ===== src/Propagation/Policy.antt =====
-- What `deserialize` of src/span_context.cpp answers: errors, and several styles at once.
use dd_opentracing_cpp.Prelude.{
  ◌≡◌, ◌∙◌, ap, refl, sym, inl, inr, Bool, true, false, not, none, some, List, [], ◌∷◌, ◌++◌, Text,
  if◌then◌else◌, if_both, Option-cases, arith, text_eq, DistinctKeys,
}
use dd_opentracing_cpp.Tags.{TagMap}
use dd_opentracing_cpp.SamplingPriority.{
  SamplingPriority, user_drop, sampler_drop, sampler_keep, user_keep,
}
use dd_opentracing_cpp.SpanContext.{SpanContext, Logger, contexts_equal}
use dd_opentracing_cpp.SpanContext.Equality.{IsKeyed, Equivalent, contexts_equal_iff}
use dd_opentracing_cpp.Propagation.{
  Given, HeadersImpl, datadog, b3, propagation_headers, Fields, no_fields, read_entry, read_entries,
  deserialize_headers, deserialize_from, deserialize, corrupted, extracted,
}
use dd_opentracing_cpp.Propagation.RoundTrip.{received, read_entries-cons}

-- Whether B3 headers carry the priority as it is.
abbrev pub is_sampler_priority : SamplingPriority → Bool
is_sampler_priority user_drop = false
is_sampler_priority sampler_drop = true
is_sampler_priority sampler_keep = true
is_sampler_priority user_keep = false

same-Equivalent : (c : SpanContext) → Equivalent c c
same-Equivalent c = record {
  same_loggers = refl;
  same_id = refl;
  same_trace = refl;
  same_baggage = (λ k v e. e, λ k v e. e);
  same_hack = refl;
  same_tags = (λ k v e. e, λ k v e. e);
  same_priority = refl;
  same_origin = inr refl;
}

same_equal :
    (c : SpanContext)
    → DistinctKeys c.baggage
    → DistinctKeys c.extracted_trace_tags
    → contexts_equal c c ≡ true
same_equal c d k =
    let keyed : IsKeyed c = record { baggage_keyed = d; tags_keyed = k } in
    (contexts_equal_iff c c keyed keyed).1 (same-Equivalent c)

arriving_equal :
    (logger : Logger) (c : SpanContext) (p : SamplingPriority) (tags : TagMap)
    → DistinctKeys c.baggage
    → DistinctKeys tags
    → contexts_equal (received logger b3 c p tags) (received logger datadog c p tags)
      ≡ is_sampler_priority p
unfolding contexts_equal
arriving_equal logger c user_drop tags d k = if_both (λ v. v ≡ false) _ _ _ refl refl
arriving_equal logger c sampler_drop tags d k =
    same_equal (received logger b3 c sampler_drop tags) d k
arriving_equal logger c sampler_keep tags d k =
    same_equal (received logger b3 c sampler_keep tags) d k
arriving_equal logger c user_keep tags d k = if_both (λ v. v ≡ false) _ _ _ refl refl

if_not {ℓ} : {A : Type ℓ} (b : Bool) (x y : A) → (if not b then y else x) ≡ (if b then x else y)
if_not true x y = refl
if_not false x y = refl

same_some : (x y : Fields) → some x ≡ some y → x ≡ y
same_some x y e = cc e

no_none : (x : Fields) → ¬ (none ≡ some x)
no_none x e = ground arith

read_entries-stop :
    (h : HeadersImpl) (es : List (Text × Text)) (entry : Text × Text) (rest : List (Text × Text))
    (x y : Fields)
    → read_entries h es y ≡ some x
    → read_entry h entry x ≡ none
    → read_entries h (es ++ entry ∷ rest) y ≡ none
unfolding read_entries
read_entries-stop h [] entry rest x y e f =
    rw (read_entries, ap (λ z. read_entry h entry z) (same_some y x e) ∙ f) refl
read_entries-stop h (a ∷ es) entry rest x y e f = elim (Option-cases (read_entry h a y)) [
  | inl g ↦ rw (read_entries, g) refl
  | inr (z, g) ↦
      read_entries-cons h a (es ++ entry ∷ rest) y z g
      ∙ read_entries-stop h es entry rest x z (sym (read_entries-cons h a es y z g) ∙ e) f
]

-- Where the headers of both styles stand on a carrier and either style alone would give the
-- injected context, `deserialize` for both styles returns the context if the priority is the
-- sampler's. If it is the user's, the two disagree, since B3 headers say only keep or drop, and the
-- result is `span_context_corrupted_error`.
pub deserialize-both :
    (given : Given) (es : List (Text × Text)) (c : SpanContext) (p : SamplingPriority)
    (tags : TagMap)
    → DistinctKeys c.baggage
    → DistinctKeys tags
    → deserialize_headers given (propagation_headers datadog) es
      ≡ extracted (received given.logger datadog c p tags)
    → deserialize_headers given (propagation_headers b3) es
      ≡ extracted (received given.logger b3 c p tags)
    → deserialize given (datadog ∷ b3 ∷ []) es
      ≡ (if is_sampler_priority p then extracted (received given.logger b3 c p tags) else corrupted)
unfolding deserialize deserialize_from
deserialize-both given es c p tags d k e f =
    rw (deserialize, deserialize_from, e, f, arriving_equal given.logger c p tags d k)
      (if_not (is_sampler_priority p) _ _)

-- One entry that cannot be read spoils the extraction, whatever stands behind it.
deserialize_headers-corrupted :
    (given : Given) (h : HeadersImpl) (es : List (Text × Text)) (entry : Text × Text)
    (rest : List (Text × Text)) (x : Fields)
    → read_entries h es no_fields ≡ some x
    → read_entry h entry x ≡ none
    → deserialize_headers given h (es ++ entry ∷ rest) ≡ corrupted
unfolding deserialize_headers
deserialize_headers-corrupted given h es entry rest x e f =
    rw (deserialize_headers, read_entries-stop h es entry rest x no_fields e f) refl

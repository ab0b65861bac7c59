-- ===== src/SpanContext/Equality.antt =====
-- `operator==` of src/span_context.cpp, and the copies and moves of a context.
use mathlib.Core.Bool.{false≢true}
use dd_opentracing_cpp.Prelude.{
  ℕ, ◌≡◌, ◌≢◌, refl, ap, ◌↔◌, ◌⊎◌, inl, inr, Bool, true, false, ◌&&◌, Option, none, some, [], ◌∷◌,
  arith, ◌==◌, Text, text_eq, same, same_iff, find, DistinctKeys, Bool-cases, Option-cases, ==_iff,
}
use dd_opentracing_cpp.Tags.{TagMap}
use dd_opentracing_cpp.SamplingPriority.{SamplingPriority}
use dd_opentracing_cpp.SpanContext.{
  SpanContext, Logger, same_logger, copy_assign, move_assign, with_id, priority_beq, bool_beq,
  entries_within, maps_equal, contexts_equal, same_decision,
}

-- Each entry of the first map is one of the second.
abbrev pub Within : TagMap → TagMap → Type 0
Within m n = (k v : Text) → find k m ≡ some v → find k n ≡ some v

abbrev pub SameMap : TagMap → TagMap → Type 0
SameMap m n = Within m n × Within n m

entries_within-cons :
    (j w : Text) (m n : TagMap)
    → (entries_within ((j, w) ∷ m) n ≡ true) ↔ ((find j n ≡ some w) × (entries_within m n ≡ true))
unfolding entries_within
entries_within-cons j w m n = elim (Option-cases (find j n)) [
  | inl x ↦
      (λ h. absurd (false≢true (rw (x, entries_within) at h)), λ h. absurd (ground (arith, x, h.0)))
  | inr (u, x) ↦ (
    λ h.
        let h' : (same w u && entries_within m n) ≡ true = rw (x, entries_within) at h in
        ground (arith, same_iff w u, x),
    λ h. rw (x, entries_within) (ground (arith, same_iff w u, x, h.0, h.1)),
  )
]

entries_within_sound : (m n : TagMap) → entries_within m n ≡ true → Within m n
unfolding find
entries_within_sound [] n h k v e = cc
entries_within_sound ((j, w) ∷ m) n h k v e =
    let c = (entries_within-cons j w m n).0 h in
    elim (Bool-cases (same j k)) [
      | inl s ↦ ground (arith, (same_iff j k).0 s, c.0)
      | inr s ↦ entries_within_sound m n c.1 k v (ground arith)
    ]

entries_within_complete : (m n : TagMap) → DistinctKeys m → Within m n → entries_within m n ≡ true
unfolding find
entries_within_complete [] n d h = unfold entries_within in refl
entries_within_complete ((j, w) ∷ m) n d h = (entries_within-cons j w m n).1 (
  h j w (ground (arith, same_iff j j)),
  entries_within_complete m n d.1 (λ k v e. elim (Bool-cases (same j k)) [
    | inl s ↦ absurd (ground (arith, (same_iff j k).0 s, d.0))
    | inr s ↦ h k v (ground arith)
  ]),
)

maps_equal_iff :
    (m n : TagMap) → DistinctKeys m → DistinctKeys n → (maps_equal m n ≡ true) ↔ SameMap m n
unfolding maps_equal
maps_equal_iff m n d e = (
  λ h. (entries_within_sound m n (ground arith), entries_within_sound n m (ground arith)),
  λ h. ground (arith, entries_within_complete m n d h.0, entries_within_complete n m e h.1),
)

priority_beq_iff : (p q : SamplingPriority) → (priority_beq p q ≡ true) ↔ (p ≡ q)
priority_beq_iff p q = ground arith

same_logger_iff : (a b : Logger) → (same_logger a b ≡ true) ↔ (a ≡ b)
same_logger_iff none none = (λ h. refl, λ h. refl)
same_logger_iff none (some b) = (λ h. cc, λ h. cc h)
same_logger_iff (some a) none = (λ h. cc, λ h. cc h)
same_logger_iff (some a) (some b) = (λ h. ap some ((==_iff a b).0 h), λ h. ground (arith, h))

bool_beq_iff : (a b : Bool) → (bool_beq a b ≡ true) ↔ (a ≡ b)
bool_beq_iff a b = ground arith

-- No key stands twice in the maps of a context, as none does in a `std::unordered_map`.
pub record IsKeyed (c : SpanContext) : Type 0 where
  pub baggage_keyed : DistinctKeys c.baggage
  pub tags_keyed : DistinctKeys c.extracted_trace_tags

-- What `operator==` compares.
pub record Equivalent (a b : SpanContext) : Type 0 where
  pub same_loggers : a.logger ≡ b.logger
  pub same_id : a.id ≡ b.id
  pub same_trace : a.trace_id ≡ b.trace_id
  pub same_baggage : SameMap a.baggage b.baggage
  pub same_hack : a.nginx_opentracing_compatibility_hack ≡ b.nginx_opentracing_compatibility_hack
  pub same_tags : SameMap a.extracted_trace_tags b.extracted_trace_tags
  pub same_priority : a.propagated_sampling_priority ≡ b.propagated_sampling_priority
  pub same_origin : (a.propagated_sampling_priority ≡ none) ⊎ (a.origin ≡ b.origin)

record Tests (a b : SpanContext) : Type 0 where
  loggers : same_logger a.logger b.logger ≡ true
  ids : (a.id == b.id) ≡ true
  traces : (a.trace_id == b.trace_id) ≡ true
  baggages : maps_equal a.baggage b.baggage ≡ true
  hacks :
      bool_beq a.nginx_opentracing_compatibility_hack b.nginx_opentracing_compatibility_hack ≡ true
  tags : maps_equal a.extracted_trace_tags b.extracted_trace_tags ≡ true
  decisions :
      same_decision a.propagated_sampling_priority b.propagated_sampling_priority a.origin b.origin
      ≡ true

contexts_equal-Tests : (a b : SpanContext) → contexts_equal a b ≡ true → Tests a b
unfolding contexts_equal
contexts_equal-Tests a b h = ground arith

Tests-contexts_equal : (a b : SpanContext) → Tests a b → contexts_equal a b ≡ true
unfolding contexts_equal
Tests-contexts_equal a b t = ground arith

same_decision_iff :
    (p q : Option SamplingPriority) (o o' : Text)
    → (same_decision p q o o' ≡ true) ↔ ((p ≡ q) × ((p ≡ none) ⊎ (o ≡ o')))
same_decision_iff none none o o' = (λ h. (refl, inl refl), λ h. refl)
same_decision_iff none (some q) o o' = (λ h. cc, λ h. cc (h.0))
same_decision_iff (some p) none o o' = (λ h. cc, λ h. cc (h.0))
same_decision_iff (some p) (some q) o o' = (
  λ h. (ground arith, inr ((same_iff o o').0 (ground arith))),
  λ h. ground (arith, h.0, h.1, (same_iff o o').1),
)

-- Two contexts compare equal exactly if they have the same logger, identifiers, flag and sampling
-- priority, if their baggage and their extracted tags have the same value for every key, and if
-- their origins are the same or they have no sampling priority: in that case the origins are not
-- compared.
pub contexts_equal_iff :
    (a b : SpanContext) → IsKeyed a → IsKeyed b → (contexts_equal a b ≡ true) ↔ Equivalent a b
contexts_equal_iff a b k l = (
  λ h.
      let t = contexts_equal-Tests a b h in
      record {
        same_loggers = (same_logger_iff a.logger b.logger).0 t.loggers;
        same_id = (==_iff a.id b.id).0 t.ids;
        same_trace = (==_iff a.trace_id b.trace_id).0 t.traces;
        same_baggage =
            (maps_equal_iff a.baggage b.baggage k.baggage_keyed l.baggage_keyed).0 t.baggages;
        same_hack = (bool_beq_iff _ _).0 t.hacks;
        same_tags =
            (maps_equal_iff a.extracted_trace_tags b.extracted_trace_tags k.tags_keyed
                l.tags_keyed).0
              t.tags;
        same_priority =
            ((same_decision_iff a.propagated_sampling_priority b.propagated_sampling_priority
                a.origin b.origin).0
              t.decisions).0;
        same_origin =
            ((same_decision_iff a.propagated_sampling_priority b.propagated_sampling_priority
                a.origin b.origin).0
              t.decisions).1;
      },
  λ q. Tests-contexts_equal a b (record {
    loggers = (same_logger_iff a.logger b.logger).1 q.same_loggers;
    ids = (==_iff a.id b.id).1 q.same_id;
    traces = (==_iff a.trace_id b.trace_id).1 q.same_trace;
    baggages =
        (maps_equal_iff a.baggage b.baggage k.baggage_keyed l.baggage_keyed).1 q.same_baggage;
    hacks = (bool_beq_iff _ _).1 q.same_hack;
    tags =
        (maps_equal_iff a.extracted_trace_tags b.extracted_trace_tags k.tags_keyed l.tags_keyed).1
          q.same_tags;
    decisions =
        (same_decision_iff a.propagated_sampling_priority b.propagated_sampling_priority a.origin
            b.origin).1
          (q.same_priority, q.same_origin);
  }),
)

-- After an assignment by copy the context is the other one exactly if the two had the same logger
-- and the same extracted trace tags, which are not copied, and the other one has a sampling
-- priority or this one had none, since a missing priority is not copied.
pub copy_assign-eq_iff :
    (context other : SpanContext)
    → (copy_assign context other ≡ other) ↔ (
        (context.logger ≡ other.logger)
        × (context.extracted_trace_tags ≡ other.extracted_trace_tags)
        × ((other.propagated_sampling_priority ≢ none)
            ⊎ (context.propagated_sampling_priority ≡ none)))
unfolding copy_assign
copy_assign-eq_iff context other = (
  λ h. (
    ap (λ (c : SpanContext). c.logger) h,
    ap (λ (c : SpanContext). c.extracted_trace_tags) h,
    priorities (ap (λ (c : SpanContext). c.propagated_sampling_priority) h),
  ),
  λ h. ground (arith, h.0, h.1, h.2),
)
  where
    priorities :
        (elim other.propagated_sampling_priority [
          | none ↦ context.propagated_sampling_priority
          | some p ↦ some p
        ])
          ≡ other.propagated_sampling_priority
        → (other.propagated_sampling_priority ≢ none)
          ⊎ (context.propagated_sampling_priority ≡ none)
    priorities e = ground arith

-- `withId` gives a child that carries the trace, the origin, the baggage, the extracted tags and
-- the priority on, and never the flag for nginx; and assigning by move after that makes any context
-- this child.
move_assign-with_id :
    (context parent : SpanContext) (id : ℕ)
    → move_assign context (with_id id parent)
      ≡ record parent { id = id; nginx_opentracing_compatibility_hack = false }
unfolding move_assign with_id
move_assign-with_id context parent id = refl

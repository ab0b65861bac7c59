-- ===== src/SpanBuffer/Counted.antt =====
-- The spans that src/span_buffer.cpp holds, and what an operation may do to the number of those
-- that pass a test on their identity. With all tests, this says how often each span is there.
use dd_opentracing_cpp.Prelude.{
  suc, ◌&&◌, ℕ, ◌+◌, ◌≡◌, ap, inl, inr, Bool, true, false, none, some, List, [], ◌∷◌, ◌++◌, arith,
  if◌then◌else◌, nat_eq, contains, Option-cases, DistinctKeys, DistinctKeys-assign, sum_values,
  measure_of, sum_values-assign,
}
use dd_opentracing_cpp.Floats.{Floats}
use dd_opentracing_cpp.SpanData.{SpanData}
use dd_opentracing_cpp.PendingTrace.{PendingTrace}
use dd_opentracing_cpp.PendingTrace.Tagging.{Identity, identity}
use dd_opentracing_cpp.SpanBuffer.{SpanBuffer, find_trace, put_trace, on_trace}
use dd_opentracing_cpp.SpanBuffer.Operations.{
  Operation, registers, finishes, sets_from_user, generates, serializes, names_service, locks,
}

module _ {D : Type 0} (test : Identity → Bool) where
  -- How many of the spans pass the test.
  unfoldable pub count : List (SpanData D) → ℕ
  count [] = 0
  count (s ∷ spans) = let rest = count spans in if test (identity s) then suc rest else rest

  pub count-append : (xs ys : List (SpanData D)) → count (xs ++ ys) ≡ count xs + count ys
  unfolding count
  count-append [] ys = omega arith
  count-append (s ∷ xs) ys = ground (arith, count-append xs ys)

  abbrev pub finished_count : PendingTrace D → ℕ
  finished_count t = count t.finished_spans

  abbrev pub written_count : List (List (SpanData D)) → ℕ
  written_count [] = 0
  written_count (spans ∷ written) = count spans + written_count written

  -- Of the finished spans that wait in the buffer, and of those that were handed to the writer.
  abbrev pub spans_held : SpanBuffer D → ℕ
  spans_held b = sum_values finished_count b.traces + written_count b.written

  pub written_count-append :
      (w : List (List (SpanData D))) (spans : List (SpanData D))
      → written_count (w ++ spans ∷ []) ≡ written_count w + count spans
  written_count-append [] spans = omega arith
  written_count-append (x ∷ w) spans = omega (arith, written_count-append w spans)

module _ {D : Type 0} (fl : Floats D) where
  -- The span is one that its trace in the buffer waits for.
  abbrev pub is_awaited : SpanData D → SpanBuffer D → Bool
  is_awaited span b = elim (find_trace fl span.trace_id b) [
    | none ↦ false
    | some t ↦ contains span.span_id t.all_spans
  ]

  -- The writer is on, and no trace has two entries.
  pub record IsKeyed (b : SpanBuffer D) : Type 0 where
    pub enabled : b.options.enabled ≡ true
    pub distinct : DistinctKeys b.traces

  pub put_trace-IsKeyed :
      (id : ℕ) (t : PendingTrace D) (b : SpanBuffer D) → IsKeyed b → IsKeyed (put_trace fl id t b)
  put_trace-IsKeyed id t b k = record {
    enabled = k.enabled;
    distinct = DistinctKeys-assign id t b.traces k.distinct;
  }

module _ {D : Type 0} (fl : Floats D) (test : Identity → Bool) where
  -- How many spans that pass the test the operation brings to the buffer.
  abbrev pub brought : Operation D → SpanBuffer D → ℕ
  brought (finishes now clock span) b =
      if is_awaited fl span b && test (identity span) then 1 else 0
  brought (registers junk context) b = 0
  brought (sets_from_user trace_id value) b = 0
  brought (generates now span) b = 0
  brought (serializes trace_id) b = 0
  brought (names_service trace_id name) b = 0
  brought (locks trace_id) b = 0

  -- A write to a trace changes the count by what it changes in that trace.
  pub put_trace-held :
      (id : ℕ) (t : PendingTrace D) (b : SpanBuffer D)
      → spans_held test (put_trace fl id t b)
          + measure_of (finished_count test) (find_trace fl id b)
        ≡ spans_held test b + finished_count test t
  put_trace-held id t b = omega (arith, sum_values-assign (finished_count test) id t b.traces)

  -- What an operation must do: keep the keys, and bring `n` spans.
  pub record Brings (n : ℕ) (b b' : SpanBuffer D) : Type 0 where
    pub keyed : IsKeyed fl b'
    pub held : spans_held test b' ≡ spans_held test b + n

  pub Brings-refl : (b : SpanBuffer D) → IsKeyed fl b → Brings 0 b b
  Brings-refl b k = record { keyed = k; held = omega arith }

  pub Brings-put :
      (n id : ℕ) (t u : PendingTrace D) (b : SpanBuffer D)
      → IsKeyed fl b
      → find_trace fl id b ≡ some t
      → finished_count test u ≡ finished_count test t + n
      → Brings n b (put_trace fl id u b)
  Brings-put n id t u b k e h = record {
    keyed = put_trace-IsKeyed fl id u b k;
    held = omega (arith, put_trace-held id u b, ap (measure_of (finished_count test)) e, h);
  }

  pub Brings-new :
      (id : ℕ) (t : PendingTrace D) (b : SpanBuffer D)
      → IsKeyed fl b
      → find_trace fl id b ≡ none
      → finished_count test t ≡ 0
      → Brings 0 b (put_trace fl id t b)
  Brings-new id t b k e h = record {
    keyed = put_trace-IsKeyed fl id t b k;
    held = omega (arith, put_trace-held id t b, ap (measure_of (finished_count test)) e, h);
  }

  pub Brings-on_trace :
      (id : ℕ) (f : PendingTrace D → PendingTrace D) (b : SpanBuffer D)
      → IsKeyed fl b
      → ((t : PendingTrace D) → finished_count test (f t) ≡ finished_count test t)
      → Brings 0 b (on_trace fl id f b)
  unfolding on_trace
  Brings-on_trace id f b k h = elim (Option-cases (find_trace fl id b)) [
    | inl e ↦ rw (e, on_trace) (Brings-refl b k)
    | inr (t, e) ↦ rw (e, on_trace) (Brings-put 0 id t (f t) b k e (omega (arith, h t)))
  ]

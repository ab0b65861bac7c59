-- ===== src/AgentWriter/Queued.antt =====
-- The way of a trace through the queue of src/agent_writer.cpp.
use dd_opentracing_cpp.Prelude.{
  if_both, ℕ, ◌+◌, ◌≡◌, refl, sym, ◌∙◌, ap, Bool, true, false, List, [], ◌∷◌, ◌++◌, append-nil,
  append_assoc, leb, if◌then◌else◌, length, is_empty, arith, inl, inr, Bool-cases,
}
use dd_opentracing_cpp.AgentWriter.{
  Phase, waiting, posting, backing_off, stopped, Batch, AgentWriter, write, stop, flush, wake,
  end_batch, post_returns_in, post_returns, retry_in, retry, wake_in, Event, writes, stops, flushes,
  wakes, retries, post_ends, happen, happen_all,
}

module _ {T : Type 0} where
  -- The traces that the worker has in hand.
  abbrev pub in_hand : Phase T → List T
  in_hand waiting = []
  in_hand (posting batch periods posts) = batch
  in_hand (backing_off batch periods posts) = batch
  in_hand stopped = []

  -- The traces of the batches, in order.
  abbrev pub batched : List (Batch T) → List T
  batched [] = []
  batched (b ∷ bs) = b.batch_traces ++ batched bs

  -- All traces that the writer has taken: those of the batches, those in hand, and the queue.
  abbrev pub all_traces : AgentWriter T → List T
  all_traces w = batched w.batches ++ (in_hand w.worker ++ w.traces)

  -- What an event adds: a trace that is written before the writer stops and while there is room.
  abbrev pub accepted : Event T → AgentWriter T → List T
  accepted (writes trace) w =
      if w.stop_writing
      then []
      else if leb w.max_queued_traces (length w.traces)
      then []
      else trace ∷ []
  accepted stops w = []
  accepted flushes w = []
  accepted wakes w = []
  accepted retries w = []
  accepted (post_ends success) w = []

  abbrev pub accepted_by : List (Event T) → AgentWriter T → List T
  accepted_by [] w = []
  accepted_by (e ∷ events) w = accepted e w ++ accepted_by events (happen e w)

  batched-append :
      (bs : List (Batch T)) (b : Batch T) → batched (bs ++ b ∷ []) ≡ batched bs ++ b.batch_traces
  batched-append [] b = append-nil b.batch_traces
  batched-append (c ∷ bs) b =
      ap (λ r. c.batch_traces ++ r) (batched-append bs b)
      ∙ sym (append_assoc c.batch_traces (batched bs) b.batch_traces)

  nothing_new : (xs : List T) → xs ≡ xs ++ []
  nothing_new xs = sym (append-nil xs)

  end_of_three : (xs ys zs ts : List T) → xs ++ (ys ++ (zs ++ ts)) ≡ (xs ++ (ys ++ zs)) ++ ts
  end_of_three xs ys zs ts = rw (append_assoc, append_assoc) refl

  write-all_traces :
      (trace : T) (w : AgentWriter T)
      → all_traces (write trace w) ≡ all_traces w ++ accepted (writes trace) w
  unfolding write
  write-all_traces trace w = elim (Bool-cases w.stop_writing) [
    | inl e ↦ rw (write, e) (nothing_new (all_traces w))
    | inr e ↦ elim (Bool-cases (leb w.max_queued_traces (length w.traces))) [
      | inl f ↦ rw (write, e, f) (nothing_new (all_traces w))
      | inr f ↦
          rw (write, e, f)
            (end_of_three (batched w.batches) (in_hand w.worker) w.traces (trace ∷ []))
    ]
  ]

  end_batch-all_traces :
      (success : Bool) (batch : List T) (posts : ℕ) (w : AgentWriter T)
      → in_hand w.worker ≡ batch
      → all_traces (end_batch success batch posts w) ≡ all_traces w
  unfolding end_batch
  end_batch-all_traces success batch posts w e =
      ap (λ r. r ++ w.traces)
        (batched-append w.batches
          (record { batch_traces = batch; posts_made = posts; success = success }))
      ∙ append_assoc (batched w.batches) batch w.traces
      ∙ ap (λ r. batched w.batches ++ (r ++ w.traces)) (sym e)

  -- The traces stay the same.
  abbrev Keeps : AgentWriter T → AgentWriter T → Type 0
  Keeps w w' = all_traces w' ≡ all_traces w

  hand-Keeps :
      (w : AgentWriter T) (p q : Phase T)
      → w.worker ≡ p
      → in_hand q ≡ in_hand p
      → Keeps w (record w { worker = q })
  hand-Keeps w p q e h = ap (λ r. batched w.batches ++ (r ++ w.traces)) (h ∙ sym (ap in_hand e))

  post_returns_in-Keeps :
      (p : Phase T) (success : Bool) (w : AgentWriter T)
      → w.worker ≡ p
      → Keeps w (post_returns_in p success w)
  unfolding post_returns_in
  post_returns_in-Keeps waiting success w e = refl
  post_returns_in-Keeps stopped success w e = refl
  post_returns_in-Keeps (backing_off batch periods posts) success w e = refl
  post_returns_in-Keeps (posting batch periods posts) true w e =
      end_batch-all_traces true batch (posts + 1) w (ap in_hand e)
  post_returns_in-Keeps (posting batch [] posts) false w e =
      end_batch-all_traces false batch (posts + 1) w (ap in_hand e)
  post_returns_in-Keeps (posting batch (period ∷ left) posts) false w e =
      hand-Keeps w _ (backing_off batch left (posts + 1)) e refl

  retry_in-Keeps : (p : Phase T) (w : AgentWriter T) → w.worker ≡ p → Keeps w (retry_in p w)
  unfolding retry_in
  retry_in-Keeps waiting w e = refl
  retry_in-Keeps stopped w e = refl
  retry_in-Keeps (posting batch periods posts) w e = refl
  retry_in-Keeps (backing_off batch periods posts) w e =
      if_both (Keeps w) w.stop_writing _ _ (end_batch-all_traces false batch posts w (ap in_hand e))
        (hand-Keeps w _ (posting batch periods posts) e refl)

  wake_in-Keeps : (p : Phase T) (w : AgentWriter T) → w.worker ≡ p → Keeps w (wake_in p w)
  unfolding wake_in wake
  wake_in-Keeps stopped w e = refl
  wake_in-Keeps (posting batch periods posts) w e = refl
  wake_in-Keeps (backing_off batch periods posts) w e = refl
  wake_in-Keeps waiting w e = if_both (Keeps w) w.stop_writing _ _ (hand-Keeps w _ stopped e refl) (
      if_both (Keeps w) (is_empty w.traces) _ _ refl (
        ap (λ r. batched w.batches ++ r)
          (append-nil w.traces ∙ sym (ap (λ q. in_hand q ++ w.traces) e))))

  stop-all_traces : (w : AgentWriter T) → all_traces (stop w) ≡ all_traces w
  unfolding stop
  stop-all_traces w = ground arith

  happen-all_traces :
      (e : Event T) (w : AgentWriter T) → all_traces (happen e w) ≡ all_traces w ++ accepted e w
  unfolding happen flush post_returns retry
  happen-all_traces (writes trace) w = write-all_traces trace w
  happen-all_traces stops w = stop-all_traces w ∙ nothing_new (all_traces w)
  happen-all_traces flushes w = nothing_new (all_traces w)
  happen-all_traces wakes w = wake_in-Keeps w.worker w refl ∙ nothing_new (all_traces w)
  happen-all_traces retries w = retry_in-Keeps w.worker w refl ∙ nothing_new (all_traces w)
  happen-all_traces (post_ends success) w =
      post_returns_in-Keeps w.worker success w refl ∙ nothing_new (all_traces w)

  -- Whatever the threads do and in whatever order, the traces that the writer has taken, batch by
  -- batch, in hand and in the queue, are those it had and then just the accepted ones, in the order
  -- in which they were written: none is lost on the way to a post, none doubled, none overtaken. A
  -- trace is accepted if the writer has not been stopped and fewer than `max_queued_traces` are in
  -- the queue.
  pub happen_all-all_traces :
      (events : List (Event T)) (w : AgentWriter T)
      → all_traces (happen_all events w) ≡ all_traces w ++ accepted_by events w
  unfolding happen_all
  happen_all-all_traces [] w = nothing_new (all_traces w)
  happen_all-all_traces (e ∷ events) w =
      happen_all-all_traces events (happen e w)
      ∙ ap (λ r. r ++ accepted_by events (happen e w)) (happen-all_traces e w)
      ∙ append_assoc (all_traces w) (accepted e w) (accepted_by events (happen e w))

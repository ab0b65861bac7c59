-- ===== src/AgentWriter/Retried.antt =====
-- How often src/agent_writer.cpp posts a batch, and how long its queue gets.
use dd_opentracing_cpp.Prelude.{
  if_both, if_known, ℕ, ◌+◌, ◌≤◌, ◌≡◌, refl, ap, Bool, true, false, List, [], ◌∷◌, ◌++◌,
  length-append, leb, length, is_empty, arith,
}
use dd_opentracing_cpp.AgentWriter.{
  Phase, waiting, posting, backing_off, stopped, Batch, AgentWriter, make_writer, write, stop,
  flush, wake, end_batch, post_returns_in, post_returns, retry_in, retry, wake_in, Event, writes,
  stops, flushes, wakes, retries, post_ends, happen, happen_all,
}

same_length : (ps qs : List ℕ) → ps ≡ qs → length ps ≡ length qs
same_length ps qs e = ap length e

module _ {T : Type 0} where
  -- The posts of the batch in hand and the retries that are left are together the configured
  -- retries.
  abbrev pub InBudget : ℕ → Phase T → Type 0
  InBudget retries_allowed waiting = Unit {0}
  InBudget retries_allowed stopped = Unit {0}
  InBudget retries_allowed (posting batch periods posts) = posts + length periods ≡ retries_allowed
  InBudget retries_allowed (backing_off batch periods posts) =
      (1 ≤ posts) × (posts + length periods ≡ retries_allowed)

  abbrev pub AllPosted : ℕ → List (Batch T) → Type 0
  AllPosted n [] = Unit {0}
  AllPosted n (b ∷ bs) = (1 ≤ b.posts_made) × (b.posts_made ≤ n) × AllPosted n bs

module _ {T : Type 0} (max_queued : ℕ) (periods : List ℕ) where
  record Sound (w : AgentWriter T) : Type 0 where
    max_kept : w.max_queued_traces ≡ max_queued
    periods_kept : w.retry_periods ≡ periods
    room : length w.traces ≤ max_queued
    budget : InBudget (length periods) w.worker
    posted : AllPosted (length periods + 1) w.batches

  AllPosted-append :
      (n : ℕ) (bs : List (Batch T)) (b : Batch T)
      → AllPosted n bs
      → 1 ≤ b.posts_made
      → b.posts_made ≤ n
      → AllPosted n (bs ++ b ∷ [])
  AllPosted-append n [] b h l u = (l, u, tt)
  AllPosted-append n (c ∷ bs) b h l u = (h.0, h.1, AllPosted-append n bs b h.2 l u)

  end_batch-Sound :
      (success : Bool) (batch : List T) (posts : ℕ) (w : AgentWriter T)
      → 1 ≤ posts
      → posts ≤ length periods + 1
      → Sound w
      → Sound (end_batch success batch posts w)
  unfolding end_batch
  end_batch-Sound success batch posts w l u s = record {
    max_kept = s.max_kept;
    periods_kept = s.periods_kept;
    room = s.room;
    budget = tt;
    posted = AllPosted-append (length periods + 1) w.batches _ s.posted l u;
  }

  worker-Sound :
      (w : AgentWriter T) (p : Phase T)
      → InBudget (length periods) p
      → Sound w
      → Sound (record w { worker = p })
  worker-Sound w p h s = record {
    max_kept = s.max_kept;
    periods_kept = s.periods_kept;
    room = s.room;
    budget = h;
    posted = s.posted;
  }

  write-Sound : (trace : T) (w : AgentWriter T) → Sound w → Sound (write trace w)
  unfolding write
  write-Sound trace w s = if_both Sound w.stop_writing _ _ s (
      if_known Sound (leb w.max_queued_traces (length w.traces)) _ _ (λ f. s)
        (λ f. record {
          max_kept = s.max_kept;
          periods_kept = s.periods_kept;
          room = ground (arith, length-append w.traces (trace ∷ []), s.max_kept, f);
          budget = s.budget;
          posted = s.posted;
        }))

  post_returns_in-Sound :
      (p : Phase T) (success : Bool) (w : AgentWriter T)
      → InBudget (length periods) p
      → Sound w
      → Sound (post_returns_in p success w)
  unfolding post_returns_in
  post_returns_in-Sound waiting success w h s = s
  post_returns_in-Sound stopped success w h s = s
  post_returns_in-Sound (backing_off batch left posts) success w h s = s
  post_returns_in-Sound (posting batch left posts) true w h s =
      end_batch-Sound true batch (posts + 1) w (omega arith) (omega (arith, h)) s
  post_returns_in-Sound (posting batch [] posts) false w h s =
      end_batch-Sound false batch (posts + 1) w (omega arith) (omega (arith, h)) s
  post_returns_in-Sound (posting batch (period ∷ left) posts) false w h s =
      worker-Sound w (backing_off batch left (posts + 1)) (omega arith, omega (arith, h)) s

  retry_in-Sound :
      (p : Phase T) (w : AgentWriter T)
      → InBudget (length periods) p
      → Sound w
      → Sound (retry_in p w)
  unfolding retry_in
  retry_in-Sound waiting w h s = s
  retry_in-Sound stopped w h s = s
  retry_in-Sound (posting batch left posts) w h s = s
  retry_in-Sound (backing_off batch left posts) w h s =
      if_both Sound w.stop_writing _ _
        (end_batch-Sound false batch posts w h.0 (omega (arith, h.1)) s)
        (worker-Sound w (posting batch left posts) h.1 s)

  wake_in-Sound : (p : Phase T) (w : AgentWriter T) → Sound w → Sound (wake_in p w)
  unfolding wake_in wake
  wake_in-Sound stopped w s = s
  wake_in-Sound (posting batch left posts) w s = s
  wake_in-Sound (backing_off batch left posts) w s = s
  wake_in-Sound waiting w s = if_both Sound w.stop_writing _ _ (worker-Sound w stopped tt s) (
      if_both Sound (is_empty w.traces) _ _ s (record {
        max_kept = s.max_kept;
        periods_kept = s.periods_kept;
        room = omega arith;
        budget = omega (arith, same_length w.retry_periods periods s.periods_kept);
        posted = s.posted;
      }))

  happen-Sound : (e : Event T) (w : AgentWriter T) → Sound w → Sound (happen e w)
  unfolding happen flush stop post_returns retry
  happen-Sound (writes trace) w s = write-Sound trace w s
  happen-Sound stops w s = if_both Sound w.stop_writing _ _ s (record {
    max_kept = s.max_kept;
    periods_kept = s.periods_kept;
    room = s.room;
    budget = s.budget;
    posted = s.posted;
  })
  happen-Sound flushes w s = record {
    max_kept = s.max_kept;
    periods_kept = s.periods_kept;
    room = s.room;
    budget = s.budget;
    posted = s.posted;
  }
  happen-Sound wakes w s = wake_in-Sound w.worker w s
  happen-Sound retries w s = retry_in-Sound w.worker w s.budget s
  happen-Sound (post_ends success) w s = post_returns_in-Sound w.worker success w s.budget s

  happen_all-Sound :
      (events : List (Event T)) (w : AgentWriter T) → Sound w → Sound (happen_all events w)
  unfolding happen_all
  happen_all-Sound [] w s = s
  happen_all-Sound (e ∷ events) w s = happen_all-Sound events (happen e w) (happen-Sound e w s)

  make_writer-Sound : Sound (make_writer max_queued periods)
  unfolding make_writer
  make_writer-Sound = record {
    max_kept = refl;
    periods_kept = refl;
    room = omega arith;
    budget = tt;
    posted = tt;
  }

  -- Whatever the threads do, the queue of a writer never holds more than `max_queued_traces`
  -- traces, and every batch that the worker is done with was posted at least once and at most once
  -- more than there are retry periods.
  pub happen_all-bounded :
      (events : List (Event T))
      → (length (happen_all events (make_writer max_queued periods)).traces ≤ max_queued)
        × AllPosted
            (length periods + 1)
            (happen_all events (make_writer max_queued periods)).batches
  happen_all-bounded events =
      let s = happen_all-Sound events (make_writer max_queued periods) make_writer-Sound in
      (s.room, s.posted)

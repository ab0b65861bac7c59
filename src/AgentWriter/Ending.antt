-- ===== src/AgentWriter/Ending.antt =====
-- How the worker of src/agent_writer.cpp ends, and what a flush waits for.
use dd_opentracing_cpp.Prelude.{
  if_known, ℕ, ◌≡◌, refl, Bool, true, false, List, [], ◌∷◌, arith, replicate, zero, suc,
}
use dd_opentracing_cpp.AgentWriter.{
  Phase, waiting, posting, backing_off, stopped, AgentWriter, stop, flush, flush_done, wake,
  end_batch, post_returns_in, post_returns, retry_in, retry, wake_in, Event, wakes, retries,
  post_ends, happen, happen_all,
}

module _ {T : Type 0} where
  -- What ends a worker, for a post that returns `success`.
  abbrev pub last_events : Bool → List (Event T)
  last_events success = post_ends success ∷ retries ∷ wakes ∷ []

  end_of_worker :
      (success : Bool) (p : Phase T) (s : Bool) (w : AgentWriter T)
      → s ≡ true
      → (happen_all (last_events success) (record w { stop_writing = s; worker = p })).worker
        ≡ stopped
  unfolding happen_all happen post_returns post_returns_in retry retry_in wake_in wake end_batch
  end_of_worker success p false w e = absurd (ground arith)
  end_of_worker success waiting true w e = refl
  end_of_worker success stopped true w e = refl
  end_of_worker success (backing_off batch left posts) true w e = refl
  end_of_worker true (posting batch left posts) true w e = refl
  end_of_worker false (posting batch [] posts) true w e = refl
  end_of_worker false (posting batch (period ∷ left) posts) true w e = refl

  -- After `stop`, wherever the worker was: once the post under way has returned, with success or
  -- without, the wait before a retry has ended and so has the wait of the loop, the worker is at
  -- its end.
  pub happen_all-stopped :
      (success : Bool) (w : AgentWriter T)
      → (happen_all (last_events success) (stop w)).worker ≡ stopped
  unfolding stop
  happen_all-stopped success w =
      if_known (λ v. (happen_all (last_events success) v).worker ≡ stopped) w.stop_writing _ _
        (λ e. end_of_worker success w.worker w.stop_writing w e)
        (λ _. end_of_worker success w.worker true w refl)

  abbrev idle : AgentWriter T → AgentWriter T
  idle w = record w { flush_worker = true; worker = waiting; stop_writing = false; traces = [] }

  flush_done-idle :
      (n : ℕ) (w : AgentWriter T) → flush_done (happen_all (replicate n wakes) (idle w)) ≡ false
  unfolding happen_all happen flush_done wake_in wake
  flush_done-idle zero w = refl
  flush_done-idle (suc n) w = flush_done-idle n w

  -- A `flush` that finds the worker in its wait, the queue empty and the writer not stopped is not
  -- told that it is done, however often the worker wakes.
  pub flush_done-wakes :
      (n : ℕ) (w : AgentWriter T)
      → w.worker ≡ waiting
      → w.stop_writing ≡ false
      → w.traces ≡ []
      → flush_done (happen_all (replicate n wakes) (flush w)) ≡ false
  unfolding flush
  flush_done-wakes n w e f g = rw (e, f, g) (flush_done-idle n w)

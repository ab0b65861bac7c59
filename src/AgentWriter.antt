-- ===== src/AgentWriter.antt =====
-- src/agent_writer.cpp, with the queue of src/encoder.cpp: the queue of finished traces, the worker
-- that posts them to the agent in batches, and the retries. Threads interleave at the mutex, so
-- each section under the lock, and each post, is one event. A time limit that runs out is the
-- choice to schedule the event.
pub mod Handle
pub mod Queued
pub mod Retried
pub mod Ending
use dd_opentracing_cpp.Prelude.{
  ℕ, ◌+◌, Bool, true, false, List, [], ◌∷◌, ◌++◌, leb, if◌then◌else◌, length, is_empty,
}

-- Where the worker is: in the wait of its loop; in the call of `postTraces` for a batch, with the
-- retry periods that are left and the posts made before; in the wait before a retry; or at its end.
pub data Phase (T : Type 0) : Type 0 where
  waiting : Phase T
  posting : List T → List ℕ → ℕ → Phase T
  backing_off : List T → List ℕ → ℕ → Phase T
  stopped : Phase T

-- A batch that the worker is done with: how often it was posted, and whether the last post worked.
pub record Batch (T : Type 0) : Type 0 where
  pub batch_traces : List T
  pub posts_made : ℕ
  pub success : Bool

pub record AgentWriter (T : Type 0) : Type 0 where
  pub max_queued_traces : ℕ
  pub retry_periods : List ℕ
  pub traces : List T
  pub stop_writing : Bool
  pub flush_worker : Bool
  pub worker : Phase T
  -- The batches that the worker is done with, the oldest first.
  pub batches : List (Batch T)

module _ {T : Type 0} where
  -- `AgentWriter(...)`, once the worker runs.
  unfoldable pub make_writer : ℕ → List ℕ → AgentWriter T
  make_writer max_queued_traces retry_periods = record {
    max_queued_traces = max_queued_traces;
    retry_periods = retry_periods;
    traces = [];
    stop_writing = false;
    flush_worker = false;
    worker = waiting;
    batches = [];
  }

  -- `write`.
  unfoldable pub write : T → AgentWriter T → AgentWriter T
  write trace w =
      if w.stop_writing
      then w
      else if leb w.max_queued_traces (length w.traces)
      then w
      else record w { traces = w.traces ++ trace ∷ [] }

  -- `stop`, up to its wait for the worker.
  unfoldable pub stop : AgentWriter T → AgentWriter T
  stop w = if w.stop_writing then w else record w { stop_writing = true }

  -- `flush`, up to its wait.
  unfoldable pub flush : AgentWriter T → AgentWriter T
  flush w = record w { flush_worker = true }

  -- Whether the wait of `flush` has ended.
  unfoldable pub flush_done : AgentWriter T → Bool
  flush_done w = if w.flush_worker then w.stop_writing else true

  -- The worker's wait ends: it stops, waits again, or takes all traces from the queue to post them.
  unfoldable pub wake : AgentWriter T → AgentWriter T
  wake w =
      if w.stop_writing
      then record w { worker = stopped }
      else if is_empty w.traces
      then w
      else record w { traces = []; worker = posting w.traces w.retry_periods 0 }

  -- `retryFiniteOnFail` returns, and the worker tells `flush` and goes back to its wait.
  unfoldable pub end_batch : Bool → List T → ℕ → AgentWriter T → AgentWriter T
  end_batch success batch posts w = record w {
    flush_worker = false;
    worker = waiting;
    batches =
        w.batches ++ record { batch_traces = batch; posts_made = posts; success = success } ∷ [];
  }

  -- `f()` returns in `retryFiniteOnFail`, called in this phase.
  unfoldable pub post_returns_in : Phase T → Bool → AgentWriter T → AgentWriter T
  post_returns_in (posting batch periods posts) true w = end_batch true batch (posts + 1) w
  post_returns_in (posting batch [] posts) false w = end_batch false batch (posts + 1) w
  post_returns_in (posting batch (period ∷ left) posts) false w = record w {
    worker = backing_off batch left (posts + 1);
  }
  post_returns_in _ _ w = w

  unfoldable pub post_returns : Bool → AgentWriter T → AgentWriter T
  unfolding post_returns_in
  post_returns success w = post_returns_in w.worker success w

  -- The wait before a retry ends.
  unfoldable pub retry_in : Phase T → AgentWriter T → AgentWriter T
  retry_in (backing_off batch periods posts) w =
      if w.stop_writing
      then end_batch false batch posts w
      else record w { worker = posting batch periods posts }
  retry_in _ w = w

  unfoldable pub retry : AgentWriter T → AgentWriter T
  unfolding retry_in
  retry w = retry_in w.worker w

  -- The wait of the worker's loop ends, if it is there.
  unfoldable pub wake_in : Phase T → AgentWriter T → AgentWriter T
  wake_in waiting w = wake w
  wake_in _ w = w

-- What a thread does next.
pub data Event (T : Type 0) : Type 0 where
  writes : T → Event T
  stops flushes wakes retries : Event T
  post_ends : Bool → Event T

module _ {T : Type 0} where
  unfoldable pub happen : Event T → AgentWriter T → AgentWriter T
  happen (writes trace) w = write trace w
  happen stops w = stop w
  happen flushes w = flush w
  happen wakes w = wake_in w.worker w
  happen retries w = retry w
  happen (post_ends success) w = post_returns success w

  unfoldable pub happen_all : List (Event T) → AgentWriter T → AgentWriter T
  happen_all [] w = w
  happen_all (e ∷ events) w = happen_all events (happen e w)

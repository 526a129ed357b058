-- ===== src/Coordinator/Closing.antt =====
-- coordinator.py, `close`: up to the waiting for the tasks, and from there. The adapter is closed after it.
use plug_and_play_local_rag.Base.{
  ◌≡◌, String, List, [], ◌∷◌, Bool, true, not, ◌&&◌, arith, if◌then◌else◌, Dict, member,
  member-discard, add,
}
use plug_and_play_local_rag.Coordinator.{CoordinatorRuntime, answer, cancelled_outcome}

-- for event in self._cancellations.values(): event.set()
abbrev set_all : Dict Bool → Dict Bool
set_all [] = []
set_all ((k, event) ∷ d) = (k, true) ∷ set_all d

-- task.cancel() ends the tasks that have not begun.
abbrev begun : Dict Bool → Dict Bool
begun [] = []
begun ((k, running) ∷ d) = if running then (k, running) ∷ begun d else begun d

abbrev ended_at_once : Dict Bool → List String → List String
ended_at_once [] done_tasks = done_tasks
ended_at_once ((k, running) ∷ d) done_tasks =
    let others = ended_at_once d done_tasks in if running then others else add others k

module _ {T V : Type 0} where
  unfoldable close_begin : CoordinatorRuntime T V → CoordinatorRuntime T V
  close_begin r = record r {
    closed = true;
    draining = true;
    cancellations = set_all r.cancellations;
    tasks = begun r.tasks;
    done_tasks = ended_at_once r.tasks r.done_tasks;
  }

  -- for future in self._futures.values(): future.cancel()
  unfoldable cancel_futures : List String → CoordinatorRuntime T V → CoordinatorRuntime T V
  cancel_futures [] r = r
  cancel_futures (k ∷ futures) r = cancel_futures futures (answer k cancelled_outcome r)

  -- Once no task runs, what is left in the tables is cleared.
  unfoldable close_end : CoordinatorRuntime T V → CoordinatorRuntime T V
  close_end r = record (cancel_futures r.futures r) {
    futures = [];
    streams = [];
    cancellations = [];
  }

  cancel_futures-waiting :
      (futures : List String) (r : CoordinatorRuntime T V) (k : String)
      → member (cancel_futures futures r).waiting k ≡ (member r.waiting k && not (member futures k))
  unfolding cancel_futures
  cancel_futures-waiting [] r k = ground arith
  cancel_futures-waiting (j ∷ futures) r k = ground (
    arith,
    cancel_futures-waiting futures (answer j cancelled_outcome r) k,
    member-discard r.waiting j k,
  )

  -- After `close`, the only callers that still wait are those whose request has no future.
  close_end-waiting :
      (r : CoordinatorRuntime T V) (k : String)
      → member (close_end r).waiting k ≡ (member r.waiting k && not (member r.futures k))
  unfolding close_end
  close_end-waiting r k = cancel_futures-waiting r.futures r k

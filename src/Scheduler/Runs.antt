-- ===== src/Scheduler/Runs.antt =====
-- scheduler.py: sequences of calls, and what every one of them keeps.
use plug_and_play_local_rag.Base.{ℕ, ◌≡◌, refl, String, List, [], ◌∷◌, Bool, Result, ok, err}
use plug_and_play_local_rag.Scheduler.Queue.{Priority}
use plug_and_play_local_rag.Scheduler.Invariant.{IsConsistent}
use plug_and_play_local_rag.Scheduler.{
  PriorityScheduler, SchedulerError, new_scheduler, enqueue, next, cancel, finish,
}
use plug_and_play_local_rag.Scheduler.Accepting.{new_scheduler-IsConsistent, enqueue-IsConsistent}
use plug_and_play_local_rag.Scheduler.Dispatching.{next-IsConsistent}
use plug_and_play_local_rag.Scheduler.Ending.{cancel-IsConsistent, finish-IsConsistent}

-- A call of the scheduler, with the reading of the clock that it makes.
pub data Call (T : Type 0) : Type 0 where
  enqueues : String → T → Priority → ℕ → Call T
  nexts : ℕ → Call T
  cancels : String → Call T
  finishes : String → Bool → Call T

module _ {T : Type 0} where
  -- A call that raises leaves the scheduler as it was.
  abbrev pub after :
      PriorityScheduler T → Result SchedulerError (PriorityScheduler T) → PriorityScheduler T
  after s (ok t) = t
  after s (err e) = s

  unfoldable pub step : PriorityScheduler T → Call T → PriorityScheduler T
  step s (enqueues k payload p now) = after s (enqueue s k payload p now)
  step s (nexts now) = (next s now).1
  step s (cancels k) = (cancel s k).1
  step s (finishes k is_failed) = after s (finish s k is_failed)

  unfoldable pub run : PriorityScheduler T → List (Call T) → PriorityScheduler T
  run s [] = s
  run s (c ∷ cs) = run (step s c) cs

  after-IsConsistent :
      (s : PriorityScheduler T) (r : Result SchedulerError (PriorityScheduler T))
      → ((t : PriorityScheduler T) → r ≡ ok t → IsConsistent t)
      → IsConsistent s
      → IsConsistent (after s r)
  after-IsConsistent s (ok t) f v = f t refl
  after-IsConsistent s (err e) f v = v

  pub step-IsConsistent :
      (s : PriorityScheduler T) (c : Call T) → IsConsistent s → IsConsistent (step s c)
  unfolding step
  step-IsConsistent s (enqueues k payload p now) v =
      after-IsConsistent s (enqueue s k payload p now)
        (λ t h. enqueue-IsConsistent s k payload p now h v) v
  step-IsConsistent s (nexts now) v = next-IsConsistent s now v
  step-IsConsistent s (cancels k) v = cancel-IsConsistent s k v
  step-IsConsistent s (finishes k is_failed) v =
      after-IsConsistent s (finish s k is_failed) (λ t h. finish-IsConsistent s k is_failed h v) v

  pub run-IsConsistent :
      (s : PriorityScheduler T) (cs : List (Call T)) → IsConsistent s → IsConsistent (run s cs)
  unfolding run
  run-IsConsistent s [] v = v
  run-IsConsistent s (c ∷ cs) v = run-IsConsistent (step s c) cs (step-IsConsistent s c v)

  -- From a new scheduler, any calls at any times keep the heaps, the table of queued requests, the
  -- active set and the counters consistent.
  pub reachable-IsConsistent :
      (starvation : ℕ) {s : PriorityScheduler T}
      → new_scheduler starvation ≡ ok s
      → (cs : List (Call T)) → IsConsistent (run s cs)
  reachable-IsConsistent starvation h cs =
      run-IsConsistent _ cs (new_scheduler-IsConsistent starvation h)

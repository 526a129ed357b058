-- ===== src/Coordinator/Runs.antt =====
-- coordinator.py: interleavings of the calls, and what every one of them keeps.
use plug_and_play_local_rag.Base.{
  ℕ, ◌≡◌, refl, String, List, [], ◌∷◌, true, false, arith, Result, ok, err, has, is_empty-get,
  member, Bool, ◌||◌,
}
use plug_and_play_local_rag.Scheduler.Accepting.{new_scheduler-IsConsistent}
use plug_and_play_local_rag.Scheduler.{PriorityScheduler, Priority, is_known}
use plug_and_play_local_rag.Coordinator.Tracked.{
  IsTracked, new_runtime-IsTracked, register-IsTracked,
}
use plug_and_play_local_rag.Coordinator.Entering.{enter-IsTracked, give_up-IsTracked}
use plug_and_play_local_rag.Coordinator.Starting.{
  dispatch-IsTracked, start-IsTracked, call_back-IsTracked,
}
use plug_and_play_local_rag.Coordinator.Running.{complete-IsTracked}
use plug_and_play_local_rag.Coordinator.Cancelling.{
  cancel_begin-IsTracked, cancel_end-IsTracked, abandon-IsTracked, drain-IsTracked,
  resume-IsTracked,
}
use plug_and_play_local_rag.Coordinator.{
  CoordinatorError, CoordinatorRuntime, Kind, Outcome, abandon, cancel_begin, cancel_end, complete,
  dispatch, drain, enter, new_runtime, register, resume, start, give_up, call_back,
}
use plug_and_play_local_rag.Scheduler.{new_scheduler}
use plug_and_play_local_rag.Scheduler.Moves.{new_scheduler_empty}

-- One step of a task of the event loop.
pub data Call (T V : Type 0) : Type 0 where
  registers : Kind → String → Call T V
  enters : String → T → Priority → ℕ → Call T V
  dispatches : ℕ → Call T V
  starts : String → Call T V
  completes : String → Outcome V → Bool → Call T V
  gives_up : String → Call T V
  calls_back : String → Call T V
  begins_cancel : String → Call T V
  ends_cancel : String → Call T V
  abandons : String → Call T V
  drains : Call T V
  resumes : Call T V

module _ {T V : Type 0} where
  -- A call that raises leaves the runtime as it was.
  abbrev pub after :
      CoordinatorRuntime T V
      → Result CoordinatorError (CoordinatorRuntime T V)
      → CoordinatorRuntime T V
  after r (ok s) = s
  after r (err e) = r

  unfoldable pub step : CoordinatorRuntime T V → Call T V → CoordinatorRuntime T V
  step r (registers kind id) = after r (register kind r id)
  step r (enters id payload p now) = enter r id payload p now
  step r (dispatches now) = dispatch r now
  step r (starts id) = start r id
  step r (completes id outcome room) = complete r id outcome room
  step r (gives_up id) = give_up r id
  step r (calls_back id) = call_back r id
  step r (begins_cancel id) = (cancel_begin r id).1
  step r (ends_cancel id) = cancel_end r id
  step r (abandons id) = abandon r id
  step r drains = drain r
  step r resumes = resume r

  unfoldable pub run : CoordinatorRuntime T V → List (Call T V) → CoordinatorRuntime T V
  run r [] = r
  run r (c ∷ cs) = run (step r c) cs

  after-IsTracked :
      (r : CoordinatorRuntime T V) (o : Result CoordinatorError (CoordinatorRuntime T V))
      → ((s : CoordinatorRuntime T V) → o ≡ ok s → IsTracked s)
      → IsTracked r
      → IsTracked (after r o)
  after-IsTracked r (ok s) f v = f s refl
  after-IsTracked r (err e) f v = v

  pub step-IsTracked :
      (r : CoordinatorRuntime T V) (c : Call T V) → IsTracked r → IsTracked (step r c)
  unfolding step
  step-IsTracked r (registers kind id) v =
      after-IsTracked r (register kind r id) (λ s h. register-IsTracked kind r id h v) v
  step-IsTracked r (enters id payload p now) v = enter-IsTracked r id payload p now v
  step-IsTracked r (dispatches now) v = dispatch-IsTracked r now v
  step-IsTracked r (starts id) v = start-IsTracked r id v
  step-IsTracked r (completes id outcome room) v = complete-IsTracked r id outcome room v
  step-IsTracked r (gives_up id) v = give_up-IsTracked r id v
  step-IsTracked r (calls_back id) v = call_back-IsTracked r id v
  step-IsTracked r (begins_cancel id) v = cancel_begin-IsTracked r id v
  step-IsTracked r (ends_cancel id) v = cancel_end-IsTracked r id v
  step-IsTracked r (abandons id) v = abandon-IsTracked r id v
  step-IsTracked r drains v = drain-IsTracked r v
  step-IsTracked r resumes v = resume-IsTracked r v

  pub run-IsTracked :
      (r : CoordinatorRuntime T V) (cs : List (Call T V)) → IsTracked r → IsTracked (run r cs)
  unfolding run
  run-IsTracked r [] v = v
  run-IsTracked r (c ∷ cs) v = run-IsTracked (step r c) cs (step-IsTracked r c v)

  -- Over a new scheduler, any interleaving of the calls keeps the tables together: a request is
  -- registered exactly while it enters, is queued or is active, with a future or a stream but not both;
  -- only active requests have a task that has not ended, and the table of tasks has such tasks and
  -- those whose callbacks are to be called; and whoever waits waits for a registered request, but for
  -- the consumers of a stream whose failure found its queue full.
  pub reachable-IsTracked :
      (starvation : ℕ) (s : PriorityScheduler T) (cs : List (Call T V))
      → new_scheduler starvation ≡ ok s
      → IsTracked (run (new_runtime s) cs)
  reachable-IsTracked starvation s cs h = run-IsTracked (new_runtime s) cs (
      new_runtime-IsTracked s (new_scheduler-IsConsistent starvation h)
        (new_scheduler_empty starvation h).1)

  -- Who waits for a future, or for the next item of a stream that has not ended.
  abbrev pub is_awaited : CoordinatorRuntime T V → String → Bool
  is_awaited r k = member r.waiting k || member r.stranded k

  -- A drain returns only at the boundary that it promises: once `idle` is set, no request enters, is
  -- queued or is active, no task is still to end, and whoever waits is the consumer of a stream whose
  -- failure found its queue full.
  pub idle_boundary :
      (starvation : ℕ) (s : PriorityScheduler T) (cs : List (Call T V)) (k : String)
      → new_scheduler starvation ≡ ok s
      → (run (new_runtime s) cs).idle ≡ true
      → (is_known (run (new_runtime s) cs).scheduler k ≡ false)
        × (member (run (new_runtime s) cs).entering k ≡ false)
        × (has (run (new_runtime s) cs).tasks k ≡ false)
        × (is_awaited (run (new_runtime s) cs) k ≡ member (run (new_runtime s) cs).stranded k)
  idle_boundary starvation s cs k h idle =
      let r = run (new_runtime s) cs in
      let v = reachable-IsTracked starvation s cs h in
      let nothing : has r.cancellations k ≡ false =
        rw (is_empty-get r.cancellations k (v.idle_empty idle)) refl in
      (
        ground (arith, v.registered k, nothing),
        ground (arith, v.registered k, nothing),
        ground (arith, v.registered k, v.tasked k, nothing),
        ground (arith, v.answered k, nothing),
      )

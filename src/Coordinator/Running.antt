-- ===== src/Coordinator/Running.antt =====
-- coordinator.py: a task that ends keeps the tables, the scheduler and the tasks together.
use plug_and_play_local_rag.Base.{
  ◌≡◌, refl, ap, inl, inr, String, List, ◌∷◌, Bool, true, false, arith, Bool-cases, str_eq_iff,
  if◌then◌else◌, Result, ok, err, get, remove, has, get-remove, member, add, discard, member-add,
  member-discard,
}
use plug_and_play_local_rag.Scheduler.Invariant.{IsConsistent}
use plug_and_play_local_rag.Scheduler.Ending.{finish-IsConsistent}
use plug_and_play_local_rag.Scheduler.{PriorityScheduler, SchedulerError, finish}
use plug_and_play_local_rag.Coordinator.Tracked.{IsTracked, is_empty_left}
use plug_and_play_local_rag.Coordinator.{
  CoordinatorRuntime, Kind, Outcome, by_future, by_stream, complete, effective, finished, forget,
  is_failed, is_running, kind_of,
}
use plug_and_play_local_rag.Scheduler.Moves.{finish_effect, finish_succeeds}
use plug_and_play_local_rag.Coordinator.{is_delivered, settle, end_task}

module _ {T V : Type 0} where
  -- A request that is active is forgotten together with its task.
  forget-IsTracked :
      (kind : Kind) (r : CoordinatorRuntime T V) (id : String) (s : PriorityScheduler T)
      (stranded : List String) (answers : List (String × Outcome V))
      → kind ≡ kind_of r id
      → member r.scheduler.active id ≡ true
      → (s.entries ≡ r.scheduler.entries) × (s.active ≡ discard r.scheduler.active id)
      → IsConsistent s
      → IsTracked r
      → IsTracked (
          forget kind id (record r {
            scheduler = s;
            tasks = remove r.tasks id;
            done_tasks = add r.done_tasks id;
            waiting = discard r.waiting id;
            stranded = stranded;
            answers = answers;
          }))
  unfolding forget
  forget-IsTracked by_future r id s stranded answers kind active (e, a) q v = record {
    queue = q;
    registered = λ k. ground (
      arith,
      v.registered k,
      ap (λ d. has d k) e,
      ap (λ l. member l k) a,
      v.queue.apart k,
      active,
      v.entering_apart k,
      str_eq_iff id k,
      get-remove r.cancellations id k,
      member-discard r.scheduler.active id k,
    );
    entering_apart = λ k. ground (
      arith,
      v.entering_apart k,
      ap (λ d. has d k) e,
      ap (λ l. member l k) a,
      member-discard r.scheduler.active id k,
    );
    owned = λ k. ground (
      arith,
      v.owned k,
      kind,
      str_eq_iff id k,
      get-remove r.cancellations id k,
      member-discard r.futures id k,
    );
    one_owner = λ k. ground (arith, v.one_owner k, member-discard r.futures id k);
    idle_empty = is_empty_left r.idle r.cancellations id v.idle_empty;
    tasked = λ k. ground (
      arith,
      v.tasked k,
      ap (λ l. member l k) a,
      get-remove r.tasks id k,
      member-discard r.scheduler.active id k,
    );
    tabled = λ k. ground (arith, v.tabled k, get-remove r.tasks id k, member-add r.done_tasks id k);
    answered = λ k.
        ground
          (arith, v.answered k, get-remove r.cancellations id k, member-discard r.waiting id k);
  }
  forget-IsTracked by_stream r id s stranded answers kind active (e, a) q v = record {
    queue = q;
    registered = λ k. ground (
      arith,
      v.registered k,
      ap (λ d. has d k) e,
      ap (λ l. member l k) a,
      v.queue.apart k,
      active,
      v.entering_apart k,
      str_eq_iff id k,
      get-remove r.cancellations id k,
      member-discard r.scheduler.active id k,
    );
    entering_apart = λ k. ground (
      arith,
      v.entering_apart k,
      ap (λ d. has d k) e,
      ap (λ l. member l k) a,
      member-discard r.scheduler.active id k,
    );
    owned = λ k. ground (
      arith,
      v.owned k,
      v.one_owner k,
      kind,
      str_eq_iff id k,
      get-remove r.cancellations id k,
      member-discard r.streams id k,
    );
    one_owner = λ k. ground (arith, v.one_owner k, member-discard r.streams id k);
    idle_empty = is_empty_left r.idle r.cancellations id v.idle_empty;
    tasked = λ k. ground (
      arith,
      v.tasked k,
      ap (λ l. member l k) a,
      get-remove r.tasks id k,
      member-discard r.scheduler.active id k,
    );
    tabled = λ k. ground (arith, v.tabled k, get-remove r.tasks id k, member-add r.done_tasks id k);
    answered = λ k.
        ground
          (arith, v.answered k, get-remove r.cancellations id k, member-discard r.waiting id k);
  }

  pub complete-IsTracked :
      (r : CoordinatorRuntime T V) (id : String) (outcome : Outcome V) (room : Bool)
      → IsTracked r
      → IsTracked (complete r id outcome room)
  unfolding complete
  complete-IsTracked r id outcome room v = elim (Bool-cases (is_running (get r.tasks id))) [
    | inr other ↦ rw other v
    | inl running ↦
        let final = effective (kind_of r id) (get r.cancellations id) outcome in
        let active : member r.scheduler.active id ≡ true = v.tasked id (ground (arith, running)) in
        rw running (
          at final (is_delivered (kind_of r id) room final) active
            (finish r.scheduler id (is_failed final)) refl)
  ]
    where
      at :
          (final : Outcome V) (delivered : Bool)
          → member r.scheduler.active id ≡ true
          → (o : Result SchedulerError (PriorityScheduler T))
          → finish r.scheduler id (is_failed final) ≡ o
          → IsTracked (finished o (kind_of r id) id (settle delivered id final (end_task id r)))
      at final delivered active (err e) h =
          absurd (finish_succeeds r.scheduler id (is_failed final) active h)
      at final true active (ok s) h =
          forget-IsTracked (kind_of r id) r id s r.stranded
            (if member r.waiting id then (id, final) ∷ r.answers else r.answers) refl active
            (finish_effect r.scheduler id (is_failed final) h)
            (finish-IsConsistent r.scheduler id (is_failed final) h v.queue) v
      at final false active (ok s) h =
          forget-IsTracked (kind_of r id) r id s
            (if member r.waiting id then id ∷ r.stranded else r.stranded) r.answers refl active
            (finish_effect r.scheduler id (is_failed final) h)
            (finish-IsConsistent r.scheduler id (is_failed final) h v.queue) v

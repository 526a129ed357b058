-- ===== src/Coordinator/Starting.antt =====
-- coordinator.py: the dispatcher, and a task that begins or has its callbacks called, keep the tables,
-- the scheduler and the tasks together.
use plug_and_play_local_rag.Base.{
  ℕ, ◌≡◌, ap, inl, inr, String, Bool, true, false, Option, none, some, arith, Bool-cases, if-both,
  str_eq_iff, if◌then◌else◌, put, remove, has, get-put, get-remove, member, add, ◌||◌, member-add,
  member-discard,
}
use plug_and_play_local_rag.Scheduler.Invariant.{IsConsistent}
use plug_and_play_local_rag.Scheduler.Dispatching.{next-IsConsistent}
use plug_and_play_local_rag.Scheduler.Moves.{Moves, next-Moves}
use plug_and_play_local_rag.Scheduler.{PriorityScheduler, ScheduledItem, next}
use plug_and_play_local_rag.Coordinator.Tracked.{IsTracked}
use plug_and_play_local_rag.Coordinator.{CoordinatorRuntime, dispatch, dispatched, start}
use plug_and_play_local_rag.Coordinator.{is_found, call_back}

module _ {T V : Type 0} where
  pub dispatch-IsTracked :
      (r : CoordinatorRuntime T V) (now : ℕ) → IsTracked r → IsTracked (dispatch r now)
  unfolding dispatch
  dispatch-IsTracked r now v = if-both IsTracked r.closed v (
      at (next r.scheduler now).0 (next r.scheduler now).1 (next-Moves r.scheduler now v.queue)
        (next-IsConsistent r.scheduler now v.queue))
    where
      at :
          (o : Option (ScheduledItem T)) (s : PriorityScheduler T)
          → Moves r.scheduler.entries r.scheduler.active o s
          → IsConsistent s
          → IsTracked (dispatched o s r)
      at none s (e, a) q = record {
        queue = q;
        registered =
            λ k. ground (arith, v.registered k, ap (λ d. has d k) e, ap (λ l. member l k) a);
        entering_apart =
            λ k. ground (arith, v.entering_apart k, ap (λ d. has d k) e, ap (λ l. member l k) a);
        owned = v.owned;
        one_owner = v.one_owner;
        idle_empty = v.idle_empty;
        tasked = λ k. ground (arith, v.tasked k, ap (λ l. member l k) a);
        tabled = v.tabled;
        answered = v.answered;
      }
      at (some item) s (there, e, a) q = record {
        queue = q;
        registered = λ k. ground (
          arith,
          v.registered k,
          there,
          ap (λ d. has d k) e,
          ap (λ l. member l k) a,
          str_eq_iff item.request_id k,
          get-remove r.scheduler.entries item.request_id k,
          member-add r.scheduler.active item.request_id k,
        );
        entering_apart = λ k. ground (
          arith,
          v.entering_apart k,
          there,
          ap (λ d. has d k) e,
          ap (λ l. member l k) a,
          str_eq_iff item.request_id k,
          get-remove r.scheduler.entries item.request_id k,
          member-add r.scheduler.active item.request_id k,
        );
        owned = v.owned;
        one_owner = v.one_owner;
        idle_empty = v.idle_empty;
        tasked = λ k. ground (
          arith,
          v.tasked k,
          ap (λ l. member l k) a,
          get-put r.tasks item.request_id k false,
          member-add r.scheduler.active item.request_id k,
        );
        tabled = λ k. ground (
          arith,
          v.tabled k,
          get-put r.tasks item.request_id k false,
          member-add r.active_tasks item.request_id k,
        );
        answered = v.answered;
      }

  started_task :
      (r : CoordinatorRuntime T V) (id k : String)
      → has r.tasks id ≡ true
      → (has r.tasks k ≡ true → member r.scheduler.active k ≡ true)
      → has (if is_found r id then put r.tasks id true else remove r.tasks id) k ≡ true
      → member r.scheduler.active k ≡ true
  started_task r id k there was = by (is_found r id)
    where
      by :
          (b : Bool)
          → has (if b then put r.tasks id true else remove r.tasks id) k ≡ true
          → member r.scheduler.active k ≡ true
      by true h = ground (arith, was, there, h, str_eq_iff id k, get-put r.tasks id k true)
      by false h = ground (arith, was, h, get-remove r.tasks id k)

  started_tabled :
      (r : CoordinatorRuntime T V) (id k : String)
      → (has r.tasks k || member r.done_tasks k) ≡ true
      → (has (if is_found r id then put r.tasks id true else remove r.tasks id) k
          || member (if is_found r id then r.done_tasks else add r.done_tasks id) k)
        ≡ true
  started_tabled r id k was = by (is_found r id)
    where
      by :
          (b : Bool)
          → (has (if b then put r.tasks id true else remove r.tasks id) k
              || member (if b then r.done_tasks else add r.done_tasks id) k)
            ≡ true
      by true = ground (arith, was, get-put r.tasks id k true)
      by false = ground (arith, was, get-remove r.tasks id k, member-add r.done_tasks id k)

  pub call_back-IsTracked :
      (r : CoordinatorRuntime T V) (id : String) → IsTracked r → IsTracked (call_back r id)
  unfolding call_back
  call_back-IsTracked r id v = elim (Bool-cases (member r.done_tasks id)) [
    | inr other ↦ rw other v
    | inl there ↦ rw there (record {
      queue = v.queue;
      registered = v.registered;
      entering_apart = v.entering_apart;
      owned = v.owned;
      one_owner = v.one_owner;
      idle_empty = v.idle_empty;
      tasked = v.tasked;
      tabled = λ k.
          ground (
            arith,
            v.tabled k,
            member-discard r.active_tasks id k,
            member-discard r.done_tasks id k,
          );
      answered = v.answered;
    })
  ]

  pub start-IsTracked :
      (r : CoordinatorRuntime T V) (id : String) → IsTracked r → IsTracked (start r id)
  unfolding start
  start-IsTracked r id v = elim (Bool-cases (has r.tasks id)) [
    | inr other ↦ rw other v
    | inl there ↦ rw there (record {
      queue = v.queue;
      registered = v.registered;
      entering_apart = v.entering_apart;
      owned = v.owned;
      one_owner = v.one_owner;
      idle_empty = v.idle_empty;
      tasked = λ k. started_task r id k there (v.tasked k);
      tabled = λ k h. started_tabled r id k (v.tabled k h);
      answered = v.answered;
    })
  ]

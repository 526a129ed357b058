-- ===== src/Coordinator/Cancelling.antt =====
-- coordinator.py: `cancel`, `drain` and `resume` keep the tables, the scheduler and the tasks together.
use plug_and_play_local_rag.Base.{
  ℕ, ◌≡◌, refl, subst, inl, inr, String, Bool, true, false, Option, none, some, arith, Bool-cases,
  str_eq_iff, get, has, get-put, get-remove, is_empty-get, member-discard, member-add,
}
use plug_and_play_local_rag.Scheduler.Invariant.{IsConsistent}
use plug_and_play_local_rag.Scheduler.Ending.{cancel-IsConsistent}
use plug_and_play_local_rag.Scheduler.{cancel as unschedule, cancel_entry}
use plug_and_play_local_rag.Coordinator.Tracked.{IsTracked, is_empty-remove}
use plug_and_play_local_rag.Coordinator.{
  active_task, CoordinatorRuntime, abandon, cancel_begin, cancel_end, cancel_task, drain, resume,
  unqueued,
}

module _ {T V : Type 0} where
  pub cancel_begin-IsTracked :
      (r : CoordinatorRuntime T V) (id : String) → IsTracked r → IsTracked (cancel_begin r id).1
  unfolding cancel_begin
  cancel_begin-IsTracked r id v = elim (Bool-cases (has r.cancellations id)) [
    | inr other ↦ rw other v
    | inl there ↦ rw there (record {
      queue = v.queue;
      registered = λ k.
          ground (arith, v.registered k, there, str_eq_iff id k, get-put r.cancellations id k true);
      entering_apart = v.entering_apart;
      owned =
          λ k. ground (arith, v.owned k, there, str_eq_iff id k, get-put r.cancellations id k true);
      one_owner = v.one_owner;
      idle_empty = λ i. absurd (
          let none_left : has r.cancellations id ≡ false =
            rw (is_empty-get r.cancellations id (v.idle_empty i)) refl in
          ground (arith, there, none_left));
      tasked = v.tasked;
      tabled = v.tabled;
      answered = λ k.
          ground (arith, v.answered k, there, str_eq_iff id k, get-put r.cancellations id k true);
    })
  ]

  cancel_task-IsTracked :
      (t : Option Bool) (id : String) (r : CoordinatorRuntime T V)
      → IsTracked r
      → IsTracked (cancel_task t id r)
  cancel_task-IsTracked none id r v = v
  cancel_task-IsTracked (some true) id r v = v
  cancel_task-IsTracked (some false) id r v = record {
    queue = v.queue;
    registered = v.registered;
    entering_apart = v.entering_apart;
    owned = v.owned;
    one_owner = v.one_owner;
    idle_empty = v.idle_empty;
    tasked = λ k. ground (arith, v.tasked k, get-remove r.tasks id k);
    tabled = λ k.
        ground (
          arith,
          v.tabled k,
          get-remove r.tasks id k,
          member-add r.done_tasks id k,
          str_eq_iff id k,
        );
    answered = v.answered;
  }

  pub cancel_end-IsTracked :
      (r : CoordinatorRuntime T V) (id : String) → IsTracked r → IsTracked (cancel_end r id)
  unfolding cancel_end unschedule
  cancel_end-IsTracked r id v =
      cancel_task-IsTracked (active_task r id) id
        (unqueued (unschedule r.scheduler id).0 id
          (record r { scheduler = (unschedule r.scheduler id).1 }))
        (at (get r.scheduler.entries id) refl)
    where
      at :
          (o : Option ℕ)
          → get r.scheduler.entries id ≡ o
          → IsTracked (
              unqueued
                (cancel_entry o id r.scheduler).0
                id
                (record r { scheduler = (cancel_entry o id r.scheduler).1 }))
      at none e = v
      at (some n) e = record {
        queue =
            subst (λ o. IsConsistent (cancel_entry o id r.scheduler).1) e
              (cancel-IsConsistent r.scheduler id v.queue);
        registered = λ k. ground (
          arith,
          v.registered k,
          v.queue.apart k,
          v.entering_apart k,
          e,
          str_eq_iff id k,
          get-remove r.cancellations id k,
          get-remove r.scheduler.entries id k,
        );
        entering_apart =
            λ k. ground (arith, v.entering_apart k, get-remove r.scheduler.entries id k);
        owned = λ k. ground (
          arith,
          v.owned k,
          get-remove r.cancellations id k,
          member-discard r.futures id k,
          member-discard r.streams id k,
        );
        one_owner = λ k.
            ground
              (arith, v.one_owner k, member-discard r.futures id k, member-discard r.streams id k);
        idle_empty = λ i. is_empty-remove r.cancellations id (v.idle_empty i);
        tasked = v.tasked;
        tabled = v.tabled;
        answered = λ k.
            ground
              (arith, v.answered k, get-remove r.cancellations id k, member-discard r.waiting id k);
      }

  pub abandon-IsTracked :
      (r : CoordinatorRuntime T V) (id : String) → IsTracked r → IsTracked (abandon r id)
  unfolding abandon
  abandon-IsTracked r id v = record {
    queue = v.queue;
    registered = v.registered;
    entering_apart = v.entering_apart;
    owned = v.owned;
    one_owner = v.one_owner;
    idle_empty = v.idle_empty;
    tasked = v.tasked;
    tabled = v.tabled;
    answered = λ k. ground (arith, v.answered k, member-discard r.waiting id k);
  }

  pub drain-IsTracked : (r : CoordinatorRuntime T V) → IsTracked r → IsTracked (drain r)
  unfolding drain
  drain-IsTracked r v = record {
    queue = v.queue;
    registered = v.registered;
    entering_apart = v.entering_apart;
    owned = v.owned;
    one_owner = v.one_owner;
    idle_empty = ground (arith, v.idle_empty);
    tasked = v.tasked;
    tabled = v.tabled;
    answered = v.answered;
  }

  pub resume-IsTracked : (r : CoordinatorRuntime T V) → IsTracked r → IsTracked (resume r)
  unfolding resume
  resume-IsTracked r v = record {
    queue = v.queue;
    registered = v.registered;
    entering_apart = v.entering_apart;
    owned = v.owned;
    one_owner = v.one_owner;
    idle_empty = v.idle_empty;
    tasked = v.tasked;
    tabled = v.tabled;
    answered = v.answered;
  }

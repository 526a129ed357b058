-- ===== src/Coordinator/Entering.antt =====
-- coordinator.py: a request that is queued, or gives up before, keeps the tables, the scheduler and
-- the tasks together.
use plug_and_play_local_rag.Base.{
  ℕ, ◌≡◌, refl, ap, inl, inr, String, true, arith, Bool-cases, str_eq_iff, Result, ok, err, member,
  discard, member-discard, get-remove,
}
use plug_and_play_local_rag.Scheduler.Accepting.{enqueue-IsConsistent}
use plug_and_play_local_rag.Scheduler.{
  PriorityScheduler, SchedulerError, Priority, enqueue as schedule,
}
use plug_and_play_local_rag.Coordinator.{
  give_up, forget, kind_of, CoordinatorRuntime, Kind, by_future, by_stream, enqueued, enter,
}
use plug_and_play_local_rag.Scheduler.Moves.{enqueue-Enqueues, enqueue_succeeds}
use plug_and_play_local_rag.Coordinator.Tracked.{is_empty_left, IsTracked}

module _ {T V : Type 0} where
  pub enter-IsTracked :
      (r : CoordinatorRuntime T V) (id : String) (payload : T) (p : Priority) (now : ℕ)
      → IsTracked r
      → IsTracked (enter r id payload p now)
  unfolding enter
  enter-IsTracked r id payload p now v = elim (Bool-cases (member r.entering id)) [
    | inr other ↦ rw other v
    | inl entering ↦ rw entering (at entering (schedule r.scheduler id payload p now) refl)
  ]
    where
      at :
          member r.entering id ≡ true
          → (o : Result SchedulerError (PriorityScheduler T))
          → schedule r.scheduler id payload p now ≡ o
          → IsTracked (enqueued o id (record r { entering = discard r.entering id }))
      at entering (err e) h =
          absurd (enqueue_succeeds r.scheduler id payload p now (v.entering_apart id entering) h)
      at entering (ok s) h =
          let (new, tabled, same) = enqueue-Enqueues r.scheduler id payload p now h in
          record {
            queue = enqueue-IsConsistent r.scheduler id payload p now h v.queue;
            registered = λ k. ground (
              arith,
              v.registered k,
              tabled k,
              ap (λ a. member a k) same,
              entering,
              str_eq_iff id k,
              member-discard r.entering id k,
            );
            entering_apart = λ k. ground (
              arith,
              v.entering_apart k,
              tabled k,
              ap (λ a. member a k) same,
              member-discard r.entering id k,
            );
            owned = v.owned;
            one_owner = v.one_owner;
            idle_empty = v.idle_empty;
            tasked = λ k. ground (arith, v.tasked k, ap (λ a. member a k) same);
            tabled = v.tabled;
            answered = v.answered;
          }

  -- What forgets a request that enters.
  pub give_up-IsTracked :
      (r : CoordinatorRuntime T V) (id : String) → IsTracked r → IsTracked (give_up r id)
  unfolding give_up forget
  give_up-IsTracked r id v = elim (Bool-cases (member r.entering id)) [
    | inr other ↦ rw other v
    | inl entering ↦ rw entering (by entering (kind_of r id) refl)
  ]
    where
      by :
          member r.entering id ≡ true
          → (kind : Kind) → kind ≡ kind_of r id
          → IsTracked (
              forget kind id
                (record r { entering = discard r.entering id; waiting = discard r.waiting id }))
      by entering by_future kind = record {
        queue = v.queue;
        registered = λ k. ground (
          arith,
          v.registered k,
          v.entering_apart k,
          entering,
          str_eq_iff id k,
          get-remove r.cancellations id k,
          member-discard r.entering id k,
        );
        entering_apart = λ k. ground (arith, v.entering_apart k, member-discard r.entering id k);
        owned = λ k. ground (
          arith,
          v.owned k,
          kind,
          str_eq_iff id k,
          get-remove r.cancellations id k,
          member-discard r.futures id k,
        );
        one_owner = λ k. ground (arith, v.one_owner k, member-discard r.futures id k);
        idle_empty = is_empty_left r.idle r.cancellations id v.idle_empty;
        tasked = v.tasked;
        tabled = v.tabled;
        answered = λ k.
            ground
              (arith, v.answered k, get-remove r.cancellations id k, member-discard r.waiting id k);
      }
      by entering by_stream kind = record {
        queue = v.queue;
        registered = λ k. ground (
          arith,
          v.registered k,
          v.entering_apart k,
          entering,
          str_eq_iff id k,
          get-remove r.cancellations id k,
          member-discard r.entering id k,
        );
        entering_apart = λ k. ground (arith, v.entering_apart k, member-discard r.entering id k);
        owned = λ k. ground (
          arith,
          v.owned k,
          v.one_owner k,
          kind,
          str_eq_iff id k,
          get-remove r.cancellations id k,
          member-discard r.streams id k,
        );
        one_owner = λ k. ground (arith, v.one_owner k, member-discard r.streams id k);
        idle_empty = is_empty_left r.idle r.cancellations id v.idle_empty;
        tasked = v.tasked;
        tabled = v.tabled;
        answered = λ k.
            ground
              (arith, v.answered k, get-remove r.cancellations id k, member-discard r.waiting id k);
      }

-- ===== src/Coordinator/Tracked.antt =====
-- coordinator.py: what ties the tables, the scheduler and the tasks together, and the registration.
use plug_and_play_local_rag.Base.{
  ◌≡◌, refl, subst, String, [], ◌∷◌, Bool, true, false, ◌||◌, arith, str_eq_iff, is_empty, ok,
  raise_if-passes, ok-injective, Dict, get, put, remove, has, get-put, member, add, member-add,
}
use plug_and_play_local_rag.Scheduler.Invariant.{IsConsistent}
use plug_and_play_local_rag.Scheduler.{PriorityScheduler, is_known}
use plug_and_play_local_rag.Coordinator.{
  CoordinatorRuntime, Kind, already_queued_or_active, by_future, by_stream, coordinator_draining,
  is_taken, new_runtime, own, register, runtime_closed,
}

pub is_empty-remove :
    (d : Dict Bool) (k : String) → is_empty d ≡ true → is_empty (remove d k) ≡ true
unfolding remove
is_empty-remove [] k h = refl
is_empty-remove (e ∷ d) k h = cc

pub is_empty_left :
    (idle : Bool) (d : Dict Bool) (k : String)
    → (idle ≡ true → is_empty d ≡ true)
    → (idle || is_empty (remove d k)) ≡ true
    → is_empty (remove d k) ≡ true
is_empty_left true d k f h = is_empty-remove d k (f refl)
is_empty_left false d k f h = h

module _ {T V : Type 0} where
  -- A request is registered exactly while it enters, is queued or is active; it has a future or a
  -- stream, not both; `idle` is set only when nothing is registered; a task is of an active request,
  -- an entry of the table of tasks is of a task or of one whose callbacks are to be called; whoever
  -- waits, but for the stranded, waits for a registered request.
  pub record IsTracked (r : CoordinatorRuntime T V) : Type 0 where
    pub queue : IsConsistent r.scheduler
    pub registered :
        (k : String) → has r.cancellations k ≡ (is_known r.scheduler k || member r.entering k)
    pub entering_apart : (k : String) → member r.entering k ≡ true → is_known r.scheduler k ≡ false
    pub owned : (k : String) → has r.cancellations k ≡ (member r.futures k || member r.streams k)
    pub one_owner : (k : String) → member r.futures k ≡ true → member r.streams k ≡ false
    pub idle_empty : r.idle ≡ true → is_empty r.cancellations ≡ true
    pub tasked : (k : String) → has r.tasks k ≡ true → member r.scheduler.active k ≡ true
    pub tabled :
        (k : String)
        → member r.active_tasks k ≡ true
        → (has r.tasks k || member r.done_tasks k) ≡ true
    pub answered : (k : String) → member r.waiting k ≡ true → has r.cancellations k ≡ true

  pub new_runtime-IsTracked :
      (s : PriorityScheduler T)
      → IsConsistent s
      → ((k : String) → is_known s k ≡ false)
      → IsTracked (new_runtime s)
  unfolding new_runtime get
  new_runtime-IsTracked s v unknown = record {
    queue = v;
    registered = λ k. rw (unknown k) refl;
    entering_apart = λ k h. cc;
    owned = λ k. refl;
    one_owner = λ k h. cc;
    idle_empty = λ h. refl;
    tasked = λ k h. cc;
    tabled = λ k h. cc;
    answered = λ k h. cc;
  }

  pub register-IsTracked :
      (kind : Kind) (r : CoordinatorRuntime T V) (id : String) {after : CoordinatorRuntime T V}
      → register kind r id ≡ ok after
      → IsTracked r
      → IsTracked after
  unfolding register
  register-IsTracked kind r id {after} h v =
      let (e1, h1) = raise_if-passes r.closed runtime_closed _ h in
      let (e2, h2) = raise_if-passes r.draining coordinator_draining _ h1 in
      let (e3, h3) = raise_if-passes (is_taken kind r id) already_queued_or_active _ h2 in
      subst IsTracked (ok-injective h3) (at kind e3)
    where
      at :
          (kind : Kind)
          → is_taken kind r id ≡ false
          → IsTracked (
              own kind id (record r {
                cancellations = put r.cancellations id false;
                idle = false;
                entering = add r.entering id;
                waiting = add r.waiting id;
              }))
      at by_future e = record {
        queue = v.queue;
        registered = λ k.
            ground (
              arith,
              v.registered k,
              get-put r.cancellations id k false,
              member-add r.entering id k,
            );
        entering_apart = λ k. ground (
          arith,
          v.entering_apart k,
          v.registered id,
          e,
          str_eq_iff id k,
          member-add r.entering id k,
        );
        owned = λ k.
            ground
              (arith, v.owned k, get-put r.cancellations id k false, member-add r.futures id k);
        one_owner = λ k.
            ground
              (arith, v.one_owner k, v.owned id, e, str_eq_iff id k, member-add r.futures id k);
        idle_empty = λ i. cc;
        tasked = v.tasked;
        tabled = v.tabled;
        answered = λ k.
            ground
              (arith, v.answered k, get-put r.cancellations id k false, member-add r.waiting id k);
      }
      at by_stream e = record {
        queue = v.queue;
        registered = λ k.
            ground (
              arith,
              v.registered k,
              get-put r.cancellations id k false,
              member-add r.entering id k,
            );
        entering_apart = λ k. ground (
          arith,
          v.entering_apart k,
          v.registered id,
          e,
          str_eq_iff id k,
          member-add r.entering id k,
        );
        owned = λ k.
            ground
              (arith, v.owned k, get-put r.cancellations id k false, member-add r.streams id k);
        one_owner = λ k.
            ground
              (arith, v.one_owner k, v.owned id, e, str_eq_iff id k, member-add r.streams id k);
        idle_empty = λ i. cc;
        tasked = v.tasked;
        tabled = v.tabled;
        answered = λ k.
            ground
              (arith, v.answered k, get-put r.cancellations id k false, member-add r.waiting id k);
      }

-- ===== src/Coordinator/Holding.antt =====
-- coordinator.py: every active request keeps its task while requests enter and tasks begin.
use plug_and_play_local_rag.Base.{
  ℕ, ◌≡◌, refl, ap, subst, ◌≢◌, inl, inr, String, List, [], ◌∷◌, Bool, true, false, Option, none,
  some, arith, Bool-cases, if-both, if◌then◌else◌, Result, ok, err, raise_if-passes, ok-injective,
  get, put, remove, has, get-put, member, add, discard, member-add,
}
use plug_and_play_local_rag.Scheduler.Moves.{Moves, next-Moves}
use plug_and_play_local_rag.Scheduler.{
  PriorityScheduler, SchedulerError, ScheduledItem, Priority, enqueue as schedule, next,
}
use plug_and_play_local_rag.Coordinator.Tracked.{IsTracked}
use plug_and_play_local_rag.Coordinator.Runs.{Call, completes, ends_cancel, after, step}
use plug_and_play_local_rag.Coordinator.{
  CoordinatorError, CoordinatorRuntime, Kind, Outcome, already_queued_or_active, by_future,
  by_stream, coordinator_draining, dispatch, dispatched, effective, enqueued, enter, forget,
  is_taken, kind_of, own, register, runtime_closed, start,
}
use plug_and_play_local_rag.Scheduler.Moves.{enqueue-Enqueues}
use plug_and_play_local_rag.Coordinator.{is_found, is_delivered, call_back, give_up}

-- The event of a stream changes nothing at its end; a future is answered in any case.
pub delivered_anyway :
    {V : Type 0} (kind : Kind) (event : Option Bool) (outcome : Outcome V) (room : Bool)
    → is_delivered kind room outcome ≡ true
    → is_delivered kind room (effective kind event outcome) ≡ true
delivered_anyway by_future event outcome room h = refl
delivered_anyway by_stream event outcome room h = h

module _ {T V : Type 0} where
  -- Every active request has its task, and no consumer is stranded.
  abbrev pub HasTasks : CoordinatorRuntime T V → Type 0
  HasTasks r =
      ((k : String) → member r.scheduler.active k ≡ true → has r.tasks k ≡ true) × (r.stranded ≡ [])

  -- `cancel` does not come to a task that has not begun, and the failure of a stream finds room.
  abbrev pub IsOrderly : CoordinatorRuntime T V → Call T V → Type 0
  IsOrderly r (ends_cancel id) = get r.tasks id ≢ some false
  IsOrderly r (completes id outcome room) = is_delivered (kind_of r id) room outcome ≡ true
  IsOrderly r c = Unit {0}

  abbrev pub AllOrderly : CoordinatorRuntime T V → List (Call T V) → Type 0
  AllOrderly r [] = Unit {0}
  AllOrderly r (c ∷ cs) = IsOrderly r c × AllOrderly (step r c) cs

  pub register-HasTasks :
      (kind : Kind) (r : CoordinatorRuntime T V) (id : String)
      → HasTasks r
      → HasTasks (after r (register kind r id))
  unfolding register
  register-HasTasks kind r id h = at (register kind r id) refl
    where
      own-HasTasks :
          (kind : Kind) (q : CoordinatorRuntime T V) → HasTasks q → HasTasks (own kind id q)
      own-HasTasks by_future q h = h
      own-HasTasks by_stream q h = h

      at :
          (o : Result CoordinatorError (CoordinatorRuntime T V))
          → register kind r id ≡ o
          → HasTasks (after r o)
      at (err e) f = h
      at (ok s) f =
          let (e1, f1) = raise_if-passes r.closed runtime_closed _ f in
          let (e2, f2) = raise_if-passes r.draining coordinator_draining _ f1 in
          let (e3, f3) = raise_if-passes (is_taken kind r id) already_queued_or_active _ f2 in
          subst HasTasks (ok-injective f3) (
            own-HasTasks kind
              (record r {
                cancellations = put r.cancellations id false;
                idle = false;
                entering = add r.entering id;
                waiting = add r.waiting id;
              })
              h)

  pub forget-HasTasks :
      (kind : Kind) (id : String) (r : CoordinatorRuntime T V)
      → HasTasks r
      → HasTasks (forget kind id r)
  unfolding forget
  forget-HasTasks by_future id r h = h
  forget-HasTasks by_stream id r h = h

  pub enter-HasTasks :
      (r : CoordinatorRuntime T V) (id : String) (payload : T) (p : Priority) (now : ℕ)
      → HasTasks r
      → HasTasks (enter r id payload p now)
  unfolding enter
  enter-HasTasks r id payload p now h =
      if-both HasTasks (member r.entering id) (at (schedule r.scheduler id payload p now) refl) h
    where
      at :
          (o : Result SchedulerError (PriorityScheduler T))
          → schedule r.scheduler id payload p now ≡ o
          → HasTasks (enqueued o id (record r { entering = discard r.entering id }))
      at (err e) f =
          let left = record r { entering = discard r.entering id } in
          forget-HasTasks (kind_of left id) id (record left { waiting = discard r.waiting id }) h
      at (ok s) f =
          let (new, tabled, same) = enqueue-Enqueues r.scheduler id payload p now f in
          (λ k. ground (arith, h.0 k, ap (λ a. member a k) same), h.1)

  pub dispatch-HasTasks :
      (r : CoordinatorRuntime T V) (now : ℕ) → IsTracked r → HasTasks r → HasTasks (dispatch r now)
  unfolding dispatch
  dispatch-HasTasks r now v h =
      if-both HasTasks r.closed h
        (at (next r.scheduler now).0 (next r.scheduler now).1 (next-Moves r.scheduler now v.queue))
    where
      at :
          (o : Option (ScheduledItem T)) (s : PriorityScheduler T)
          → Moves r.scheduler.entries r.scheduler.active o s
          → HasTasks (dispatched o s r)
      at none s (e, a) = (λ k. ground (arith, h.0 k, ap (λ l. member l k) a), h.1)
      at (some item) s (there, e, a) = (
        λ k. ground (
          arith,
          h.0 k,
          ap (λ l. member l k) a,
          get-put r.tasks item.request_id k false,
          member-add r.scheduler.active item.request_id k,
        ),
        h.1,
      )

  -- The entries of a request that has a task are there.
  task_found :
      (r : CoordinatorRuntime T V) (id : String)
      → IsTracked r
      → has r.tasks id ≡ true
      → is_found r id ≡ true
  task_found r id v h = ground (arith, v.tasked id h, v.registered id, v.owned id)

  pub start-HasTasks :
      (r : CoordinatorRuntime T V) (id : String) → IsTracked r → HasTasks r → HasTasks (start r id)
  unfolding start
  start-HasTasks r id v h = elim (Bool-cases (has r.tasks id)) [
    | inr other ↦ rw other h
    | inl there ↦ rw there (by (is_found r id) (task_found r id v there))
  ]
    where
      by :
          (b : Bool)
          → b ≡ true
          → HasTasks (record r {
            tasks = if b then put r.tasks id true else remove r.tasks id;
            done_tasks = if b then r.done_tasks else add r.done_tasks id;
          })
      by true e = (λ k. ground (arith, h.0 k, get-put r.tasks id k true), h.1)
      by false e = absurd (let bad : false ≡ true = e in cc)

  pub give_up-HasTasks :
      (r : CoordinatorRuntime T V) (id : String) → HasTasks r → HasTasks (give_up r id)
  unfolding give_up
  give_up-HasTasks r id h =
      let left = record r { entering = discard r.entering id; waiting = discard r.waiting id } in
      if-both HasTasks (member r.entering id) (forget-HasTasks (kind_of r id) id left h) h

  pub call_back-HasTasks :
      (r : CoordinatorRuntime T V) (id : String) → HasTasks r → HasTasks (call_back r id)
  unfolding call_back
  call_back-HasTasks r id h = if-both HasTasks (member r.done_tasks id) h h

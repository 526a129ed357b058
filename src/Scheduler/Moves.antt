-- ===== src/Scheduler/Moves.antt =====
-- scheduler.py: what `enqueue`, `next` and `finish` do to the table of the queue and the active set.
use plug_and_play_local_rag.Base.{
  ℕ, ◌+◌, ◌≡◌, refl, subst, ◌≢◌, inl, inr, String, List, [], ◌∷◌, Bool, true, false, not, ◌||◌,
  Option, none, some, arith, ◌==◌, Bool-cases, str_eq, ok, err, raise_if-passes, raise_if_returns,
  ok-injective, Dict, get, put, remove, has, get-put, member, add, discard,
}
use plug_and_play_local_rag.Scheduler.Queue.{Entry}
use plug_and_play_local_rag.Scheduler.Heaps.{HeadLive, discard_cancelled-HeadLive}
use plug_and_play_local_rag.Scheduler.Dispatching.{relieve-IsConsistent}
use plug_and_play_local_rag.Scheduler.Accepting.{discard_both-IsConsistent}
use plug_and_play_local_rag.Scheduler.Invariant.{IsConsistent, IsHeap}
use plug_and_play_local_rag.Scheduler.{
  is_starved, PriorityScheduler, ScheduledItem, choose_entry, pop_background, pop_interactive,
  activate, next,
}
use plug_and_play_local_rag.Scheduler.{discard_both}
use plug_and_play_local_rag.Scheduler.Queue.{Priority, background, interactive}
use plug_and_play_local_rag.Scheduler.{
  SchedulerError, already_queued, enqueue, finish, is_known, new_entry, not_active, push_entry,
}
use plug_and_play_local_rag.Scheduler.{new_scheduler, starvation_not_positive}

module _ {T : Type 0} where
  -- The item was in the table, and is active instead.
  abbrev pub Moves : Dict ℕ → List String → Option (ScheduledItem T) → PriorityScheduler T → Type 0
  Moves entries active none t = (t.entries ≡ entries) × (t.active ≡ active)
  Moves entries active (some item) t =
      (has entries item.request_id ≡ true)
      × (t.entries ≡ remove entries item.request_id)
      × (t.active ≡ add active item.request_id)

  abbrev MovesTo : PriorityScheduler T → Option (ScheduledItem T) × PriorityScheduler T → Type 0
  MovesTo s r = Moves s.entries s.active r.0 r.1

  pop_background-Moves :
      (s : PriorityScheduler T) (q : List (Entry T))
      → s.background_queue ≡ q
      → HeadLive q
      → IsConsistent s
      → MovesTo s (activate (pop_background q s))
  unfolding activate
  pop_background-Moves s [] e l v = (refl, refl)
  pop_background-Moves s (x ∷ q) e l v =
      let heap : IsHeap s.entries s.sequence (x ∷ q) =
        subst (IsHeap s.entries s.sequence) e v.background_heap in
      (rw (heap.registered.0 l) refl, refl, refl)

  pop_interactive-Moves :
      (s : PriorityScheduler T) (q : List (Entry T))
      → s.interactive_queue ≡ q
      → HeadLive q
      → HeadLive s.background_queue
      → IsConsistent s
      → MovesTo s (activate (pop_interactive q s))
  unfolding activate
  pop_interactive-Moves s [] e l b v = pop_background-Moves s s.background_queue refl b v
  pop_interactive-Moves s (x ∷ q) e l b v =
      let heap : IsHeap s.entries s.sequence (x ∷ q) =
        subst (IsHeap s.entries s.sequence) e v.interactive_heap in
      (rw (heap.registered.0 l) refl, refl, refl)

  choose-Moves :
      (s : PriorityScheduler T) (now : ℕ)
      → HeadLive s.interactive_queue
      → HeadLive s.background_queue
      → IsConsistent s
      → MovesTo s (activate (choose_entry s now))
  unfolding choose_entry
  choose-Moves s now l b v = elim (Bool-cases (is_starved s now)) [
    | inl e ↦ rw e (
        pop_background-Moves (record s { last_background_relief = some now }) s.background_queue
          refl b (relieve-IsConsistent s now v))
    | inr e ↦ rw e (pop_interactive-Moves s s.interactive_queue refl l b v)
  ]

  pub next-Moves : (s : PriorityScheduler T) (now : ℕ) → IsConsistent s → MovesTo s (next s now)
  unfolding next discard_both
  next-Moves s now v =
      choose-Moves (discard_both s) now (discard_cancelled-HeadLive s.interactive_queue)
        (discard_cancelled-HeadLive s.background_queue) (discard_both-IsConsistent s v)

  -- The table of the queue gains a request, and the active set is the same.
  abbrev pub Enqueues : PriorityScheduler T → String → PriorityScheduler T → Type 0
  Enqueues s id t =
      (is_known s id ≡ false)
      × ((k : String) → has t.entries k ≡ (str_eq id k || has s.entries k))
      × (t.active ≡ s.active)

  pub enqueue-Enqueues :
      (s : PriorityScheduler T) (id : String) (payload : T) (p : Priority) (now : ℕ)
      {t : PriorityScheduler T}
      → enqueue s id payload p now ≡ ok t
      → Enqueues s id t
  unfolding enqueue
  enqueue-Enqueues s id payload p now {t} h =
      let (e, h1) = raise_if-passes (is_known s id) already_queued _ h in
      subst (Enqueues s id) (ok-injective h1) (at p e)
    where
      at :
          (p : Priority)
          → is_known s id ≡ false
          → Enqueues s id (
              push_entry p
                (new_entry s id payload p now)
                (record s { sequence = s.sequence + 1; entries = put s.entries id s.sequence }))
      at interactive e = (e, (λ k. ground (arith, get-put s.entries id k s.sequence)), refl)
      at background e = (e, (λ k. ground (arith, get-put s.entries id k s.sequence)), refl)

  pub enqueue_succeeds :
      (s : PriorityScheduler T) (id : String) (payload : T) (p : Priority) (now : ℕ)
      {e : SchedulerError}
      → is_known s id ≡ false
      → enqueue s id payload p now ≢ err e
  unfolding enqueue
  enqueue_succeeds s id payload p now new h =
      raise_if_returns (is_known s id) already_queued _ new h

  -- The active set loses the request, and the table of the queue is the same.
  pub finish_effect :
      (s : PriorityScheduler T) (id : String) (failed : Bool) {t : PriorityScheduler T}
      → finish s id failed ≡ ok t
      → (t.entries ≡ s.entries) × (t.active ≡ discard s.active id)
  unfolding finish
  finish_effect s id true {t} h =
      let (e, h1) = raise_if-passes (not (member s.active id)) not_active _ h in
      subst (λ u. (u.entries ≡ s.entries) × (u.active ≡ discard s.active id)) (ok-injective h1)
        (refl, refl)
  finish_effect s id false {t} h =
      let (e, h1) = raise_if-passes (not (member s.active id)) not_active _ h in
      subst (λ u. (u.entries ≡ s.entries) × (u.active ≡ discard s.active id)) (ok-injective h1)
        (refl, refl)

  -- `finish` of the scheduler does not raise where a task ends.
  pub finish_succeeds :
      (s : PriorityScheduler T) (id : String) (failed : Bool) {e : SchedulerError}
      → member s.active id ≡ true
      → finish s id failed ≢ err e
  unfolding finish
  finish_succeeds s id failed active h =
      raise_if_returns (not (member s.active id)) not_active _ (ground (arith, active)) h

  -- A new scheduler knows no request.
  pub new_scheduler_empty :
      (starvation : ℕ) {s : PriorityScheduler T}
      → new_scheduler starvation ≡ ok s
      → (s.active ≡ []) × ((k : String) → is_known s k ≡ false)
  unfolding new_scheduler get
  new_scheduler_empty starvation {s} h =
      let (e, h1) = raise_if-passes (starvation == 0) starvation_not_positive _ h in
      subst (λ t. (t.active ≡ []) × ((k : String) → is_known t k ≡ false)) (ok-injective h1)
        (refl, (λ k. refl))

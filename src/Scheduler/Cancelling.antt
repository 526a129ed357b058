-- ===== src/Scheduler/Cancelling.antt =====
-- scheduler.py: a cancelled request is not handed out, and the metrics account for every request.
use plug_and_play_local_rag.Base.{
  ℕ, ◌+◌, ◌≡◌, subst, ◌≢◌, inl, inr, String, List, [], ◌∷◌, ◌||◌, Option, none, some, arith,
  Bool-cases, Option-cases, str_eq_iff, str_eq_refl, if◌then◌else◌, All, ok, Dict, get, has,
  get-put, get-remove, member,
}
use plug_and_play_local_rag.Scheduler.Queue.{Priority, Entry, Registered}
use plug_and_play_local_rag.Scheduler.Invariant.{IsConsistent}
use plug_and_play_local_rag.Scheduler.Runs.{
  Call, enqueues, nexts, cancels, finishes, step, run, run-IsConsistent,
}
use plug_and_play_local_rag.Scheduler.Accepting.{new_scheduler-IsConsistent}
use plug_and_play_local_rag.Scheduler.Ending.{cancel-IsConsistent}
use plug_and_play_local_rag.Scheduler.{
  PriorityScheduler, ScheduledItem, QueueMetrics, new_scheduler, enqueue, choose_entry,
  discard_both, activate, next, cancel, finish, metrics,
}
use plug_and_play_local_rag.Scheduler.Policy.{oldest_live, policy, next-policy}

abbrev pub total : QueueMetrics → ℕ
total m =
    m.queued_interactive + m.queued_background + m.active + m.completed + m.failed + m.cancelled

module _ {T : Type 0} where
  -- The request of an item, if there is an item.
  abbrev pub Hands : Option (ScheduledItem T) → String → Type 0
  Hands none k = ⊥
  Hands (some item) k = item.request_id ≡ k

  oldest_live-known :
      (d : Dict ℕ) (q : List (Entry T)) (e : Entry T)
      → Registered d q
      → oldest_live q ≡ some e
      → get d e.request_id ≡ some e.sequence
  unfolding oldest_live
  oldest_live-known d [] e r p = cc
  oldest_live-known d (x ∷ q) e r p = elim (Bool-cases x.cancelled) [
    | inl c ↦ oldest_live-known d q e r.1 (ground arith)
    | inr c ↦
        let same : x ≡ e = ground arith in
        subst (λ (z : Entry T). get d z.request_id ≡ some z.sequence) same (r.0 c)
  ]

  policy-known :
      (s : PriorityScheduler T) (now : ℕ) (k : String)
      → IsConsistent s
      → Hands (policy s now) k
      → get s.entries k ≢ none
  unfolding policy
  policy-known s now k v h = elim (Option-cases (oldest_live s.background_queue)) [
    | inl b ↦ elim (Option-cases (oldest_live s.interactive_queue)) [
      | inl a ↦ ground arith
      | inr (x, a) ↦
          ground (
            arith,
            oldest_live-known s.entries s.interactive_queue x v.interactive_heap.registered a,
          )
    ]
    | inr (y, b) ↦ elim (Option-cases (oldest_live s.interactive_queue)) [
      | inl a ↦
          ground
            (arith, oldest_live-known s.entries s.background_queue y v.background_heap.registered b)
      | inr (x, a) ↦ ground (
        arith,
        oldest_live-known s.entries s.interactive_queue x v.interactive_heap.registered a,
        oldest_live-known s.entries s.background_queue y v.background_heap.registered b,
      )
    ]
  ]

  -- The call does not enqueue the request.
  abbrev pub Avoids : String → Call T → Type 0
  Avoids k (enqueues j payload p now) = j ≢ k
  Avoids k c = Unit {0}

  activate-unknown :
      (r : Option (Entry T) × PriorityScheduler T) (k : String)
      → get r.1.entries k ≡ none
      → get (activate r).1.entries k ≡ none
  unfolding activate
  activate-unknown (none, s) k h = h
  activate-unknown (some e, s) k h = ground (arith, get-remove s.entries e.request_id k)

  entries-choose : (s : PriorityScheduler T) (now : ℕ) → (choose_entry s now).1.entries ≡ s.entries
  unfolding choose_entry
  entries-choose s now = ground arith

  step-unknown :
      (s : PriorityScheduler T) (c : Call T) (k : String)
      → Avoids k c
      → get s.entries k ≡ none
      → get (step s c).entries k ≡ none
  unfolding step enqueue next cancel finish
  step-unknown s (enqueues j payload Priority.interactive now) k a h =
      ground (arith, str_eq_iff j k, get-put s.entries j k s.sequence)
  step-unknown s (enqueues j payload Priority.background now) k a h =
      ground (arith, str_eq_iff j k, get-put s.entries j k s.sequence)
  step-unknown s (nexts now) k a h =
      activate-unknown (choose_entry (discard_both s) now) k
        (rw entries-choose (unfold discard_both in h))
  step-unknown s (cancels j) k a h = ground (arith, get-remove s.entries j k)
  step-unknown s (finishes j b) k a h = ground arith

  run-unknown :
      (s : PriorityScheduler T) (cs : List (Call T)) (k : String)
      → All (Avoids k) cs
      → get s.entries k ≡ none
      → get (run s cs).entries k ≡ none
  unfolding run
  run-unknown s [] k a h = h
  run-unknown s (c ∷ cs) k a h = run-unknown (step s c) cs k a.1 (step-unknown s c k a.0 h)

  cancel-unknown : (s : PriorityScheduler T) (k : String) → get (cancel s k).1.entries k ≡ none
  unfolding cancel
  cancel-unknown s k = ground (arith, get-remove s.entries k k, str_eq_refl k)

  -- After a call of `cancel` on a consistent scheduler the request is not handed out, at any time
  -- and after any further calls, unless it is enqueued again.
  pub cancel-next :
      (s : PriorityScheduler T) (k : String) (cs : List (Call T)) (now : ℕ)
      → IsConsistent s
      → All (Avoids k) cs
      → ¬ Hands (next (run (cancel s k).1 cs) now).0 k
  cancel-next s k cs now v a h =
      policy-known (run (cancel s k).1 cs) now k
        (run-IsConsistent (cancel s k).1 cs (cancel-IsConsistent s k v)) (rw next-policy at h)
        (run-unknown (cancel s k).1 cs k a (cancel-unknown s k))

  -- 1 for a request that `enqueue` accepts.
  unfoldable pub accepts : PriorityScheduler T → Call T → ℕ
  accepts s (enqueues k payload p now) = if has s.entries k || member s.active k then 0 else 1
  accepts s c = 0

  -- How many of the calls are requests that `enqueue` accepts.
  unfoldable pub accepted : PriorityScheduler T → List (Call T) → ℕ
  accepted s [] = 0
  accepted s (c ∷ cs) = accepts s c + accepted (step s c) cs

  sequence-next : (s : PriorityScheduler T) (now : ℕ) → (next s now).1.sequence ≡ s.sequence
  unfolding next activate choose_entry discard_both
  sequence-next s now = ground arith

  sequence-step :
      (s : PriorityScheduler T) (c : Call T) → (step s c).sequence ≡ s.sequence + accepts s c
  unfolding step accepts enqueue cancel finish
  sequence-step s (enqueues k payload Priority.interactive now) = ground arith
  sequence-step s (enqueues k payload Priority.background now) = ground arith
  sequence-step s (nexts now) = omega (arith, sequence-next s now)
  sequence-step s (cancels k) = ground arith
  sequence-step s (finishes k b) = ground arith

  sequence-run :
      (s : PriorityScheduler T) (cs : List (Call T))
      → (run s cs).sequence ≡ s.sequence + accepted s cs
  unfolding run accepted
  sequence-run s [] = omega arith
  sequence-run s (c ∷ cs) = omega (arith, sequence-step s c, sequence-run (step s c) cs)

  -- From a new scheduler, after any calls, the counts that `metrics` reports add up to the number of
  -- requests that `enqueue` accepted.
  pub metrics-accepted :
      (starvation : ℕ) {s : PriorityScheduler T}
      → new_scheduler starvation ≡ ok s
      → (cs : List (Call T)) (now : ℕ) → total (metrics (run s cs) now) ≡ accepted s cs
  unfolding metrics new_scheduler
  metrics-accepted starvation {s} h cs now =
      let fresh : s.sequence ≡ 0 = ground arith in
      omega (
        arith,
        sequence-run s cs,
        (run-IsConsistent s cs (new_scheduler-IsConsistent starvation h)).accounted,
      )

-- ===== src/Scheduler/Policy.antt =====
-- scheduler.py: which request `next` hands out.
use plug_and_play_local_rag.Base.{
  ℕ, suc, ◌+◌, ◌≤◌, ◌≡◌, refl, subst, ◌↔◌, inl, inr, List, [], ◌∷◌, Bool, false, Option, none, some,
  arith, leb, ◌&&◌, true, Bool-cases, if◌then◌else◌, All, All-map,
}
use plug_and_play_local_rag.Scheduler.Queue.{Entry, discard_cancelled, live_count, Above}
use plug_and_play_local_rag.Scheduler.Invariant.{IsConsistent}
use plug_and_play_local_rag.Scheduler.{
  PriorityScheduler, ScheduledItem, choose_entry, discard_both, activate, next, metrics, scheduled,
}

-- Whether the starvation time has passed since the last relief, if there was one.
abbrev pub is_relief_due : ℕ → ℕ → Option ℕ → Bool
is_relief_due starvation now none = true
is_relief_due starvation now (some relief) = leb (relief + starvation) now

module _ {T : Type 0} where
  -- The first entry of a heap that is not cancelled.
  unfoldable pub oldest_live : List (Entry T) → Option (Entry T)
  oldest_live [] = none
  oldest_live (x ∷ q) = if x.cancelled then oldest_live q else some x

  -- A request is overdue if it has waited the starvation time, and since the last relief too.
  abbrev pub is_overdue : PriorityScheduler T → ℕ → Option (Entry T) → Bool
  is_overdue s now none = false
  is_overdue s now (some e) =
      leb (e.enqueued_at + s.starvation) now
      && is_relief_due s.starvation now s.last_background_relief

  abbrev pub first_of_two : Option (Entry T) → Option (Entry T) → Option (ScheduledItem T)
  first_of_two (some e) b = some (scheduled e)
  first_of_two none (some e) = some (scheduled e)
  first_of_two none none = none

  -- The policy: an overdue background request, else the oldest interactive one, else the oldest
  -- background one.
  unfoldable pub policy : PriorityScheduler T → ℕ → Option (ScheduledItem T)
  policy s now =
      if is_overdue s now (oldest_live s.background_queue)
      then first_of_two (oldest_live s.background_queue) none
      else first_of_two (oldest_live s.interactive_queue) (oldest_live s.background_queue)

  abbrev head : List (Entry T) → Option (Entry T)
  head [] = none
  head (x ∷ q) = some x

  head-discard_cancelled : (q : List (Entry T)) → head (discard_cancelled q) ≡ oldest_live q
  unfolding oldest_live discard_cancelled
  head-discard_cancelled [] = refl
  head-discard_cancelled (x ∷ q) = ground (arith, head-discard_cancelled q)

  choose_policy :
      (s : PriorityScheduler T) (now : ℕ) (a b : List (Entry T))
      → s.interactive_queue ≡ a
      → s.background_queue ≡ b
      → (activate (choose_entry s now)).0 ≡ (
          if is_overdue s now (head b)
          then first_of_two (head b) none
          else first_of_two (head a) (head b))
  unfolding activate choose_entry
  choose_policy s now a b p q = ground arith

  -- The request that `next` hands out is the one that the policy picks, at any time and from any state.
  pub next-policy : (s : PriorityScheduler T) (now : ℕ) → (next s now).0 ≡ policy s now
  unfolding next discard_both policy
  next-policy s now =
      rw (← head-discard_cancelled s.background_queue, ← head-discard_cancelled s.interactive_queue)
        (choose_policy (discard_both s) now (discard_cancelled s.interactive_queue)
          (discard_cancelled s.background_queue) refl refl)

  oldest_live-count : (q : List (Entry T)) → (oldest_live q ≡ none) ↔ (live_count q ≡ 0)
  unfolding oldest_live live_count
  oldest_live-count [] = ground arith
  oldest_live-count (x ∷ q) = ground (arith, oldest_live-count q)

  -- `next` waits exactly when the metrics count no queued request.
  pub next-none :
      (s : PriorityScheduler T) (now : ℕ)
      → ((next s now).0 ≡ none)
        ↔ ((metrics s now).queued_interactive + (metrics s now).queued_background ≡ 0)
  unfolding metrics policy
  next-none s now =
      rw next-policy (
        ground (arith, oldest_live-count s.interactive_queue, oldest_live-count s.background_queue))

  Above-All : (m : ℕ) (q : List (Entry T)) → Above m q → All (λ x. m ≤ x.sequence) q
  Above-All m [] a = tt
  Above-All m (x ∷ q) a = (
    a.0,
    All-map (λ y. suc x.sequence ≤ y.sequence) (λ y. m ≤ y.sequence) q (λ y l. omega arith)
        (Above-All (suc x.sequence) q a.1),
  )

  first_live :
      (m : ℕ) (q : List (Entry T)) (e : Entry T)
      → Above m q
      → oldest_live q ≡ some e
      → (m ≤ e.sequence) × All (λ x. x.cancelled ≡ false → e.sequence ≤ x.sequence) q
  unfolding oldest_live
  first_live m [] e a p = cc
  first_live m (x ∷ q) e a p = elim (Bool-cases x.cancelled) [
    | inl c ↦
        let ih = first_live (suc x.sequence) q e a.1 (ground arith) in
        (omega (arith, ih.0), ((λ l. cc), ih.1))
    | inr c ↦
        let same : x ≡ e = ground arith in
        let later =
          All-map (λ y. suc x.sequence ≤ y.sequence)
            (λ y. y.cancelled ≡ false → x.sequence ≤ y.sequence) q (λ y l k. omega arith)
            (Above-All (suc x.sequence) q a.1) in
        subst
          (λ (z : Entry T).
            (m ≤ z.sequence) × All (λ y. y.cancelled ≡ false → z.sequence ≤ y.sequence) (x ∷ q))
          same (a.0, ((λ l. omega arith), later))
  ]

  oldest_live-cancelled :
      (q : List (Entry T)) (e : Entry T) → oldest_live q ≡ some e → e.cancelled ≡ false
  unfolding oldest_live
  oldest_live-cancelled [] e p = cc
  oldest_live-cancelled (x ∷ q) e p = ground (arith, oldest_live-cancelled q e)

  -- In a consistent scheduler the first live entry of either heap was accepted before every other
  -- live entry of that heap: each priority is served in the order of its requests.
  pub oldest_live-first :
      (s : PriorityScheduler T) (e : Entry T)
      → IsConsistent s
      → (oldest_live s.interactive_queue ≡ some e
          → All (λ x. x.cancelled ≡ false → e.sequence ≤ x.sequence) s.interactive_queue)
        × (oldest_live s.background_queue ≡ some e
            → All (λ x. x.cancelled ≡ false → e.sequence ≤ x.sequence) s.background_queue)
  oldest_live-first s e v = (
    λ p. (first_live 0 s.interactive_queue e v.interactive_heap.sorted p).1,
    λ p. (first_live 0 s.background_queue e v.background_heap.sorted p).1,
  )

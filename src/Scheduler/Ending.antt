-- ===== src/Scheduler/Ending.antt =====
-- scheduler.py: `cancel` and `finish` keep the state consistent.
use plug_and_play_local_rag.Base.{
  ℕ, ◌+◌, ◌≡◌, subst, inl, inr, String, Bool, true, false, some, arith, Option-cases, str_eq_iff,
  ok, get, get-remove, member, discard, member-discard, discard-Distinct, length-discard,
}
use plug_and_play_local_rag.Scheduler.Heaps.{
  Names, live_count-mark_cancelled, live_of-mark_cancelled,
}
use plug_and_play_local_rag.Scheduler.Invariant.{
  IsConsistent, mark_cancelled-IsHeap, Registered-Names,
}
use plug_and_play_local_rag.Scheduler.{PriorityScheduler, cancel_entry, cancel, finish}

module _ {T : Type 0} where
  cancel_entry-IsConsistent :
      (s : PriorityScheduler T) (k : String) (n : ℕ)
      → get s.entries k ≡ some n
      → IsConsistent s
      → IsConsistent (cancel_entry (some n) k s).1
  cancel_entry-IsConsistent s k n e v =
      let only : (j : String) → get s.entries j ≡ some n → j ≡ k = λ j p. v.injective j k n p e in
      let names_i : Names n k s.interactive_queue =
        Registered-Names s.entries n k s.interactive_queue e only v.interactive_heap.registered in
      let names_b : Names n k s.background_queue =
        Registered-Names s.entries n k s.background_queue e only v.background_heap.registered in
      record {
        interactive_heap =
            mark_cancelled-IsHeap s.entries s.sequence n k s.interactive_queue names_i
              v.interactive_heap;
        background_heap =
            mark_cancelled-IsHeap s.entries s.sequence n k s.background_queue names_b
              v.background_heap;
        tabled = λ j. ground (
          arith,
          v.tabled j,
          str_eq_iff k j,
          get-remove s.entries k j,
          live_of-mark_cancelled n k j s.interactive_queue names_i,
          live_of-mark_cancelled n k j s.background_queue names_b,
        );
        numbered = λ j m. ground (arith, v.numbered j m, get-remove s.entries k j);
        injective = λ i j m.
            ground (arith, v.injective i j m, get-remove s.entries k i, get-remove s.entries k j);
        apart = λ j. ground (arith, v.apart j, get-remove s.entries k j);
        active_distinct = v.active_distinct;
        accounted = ground (
          arith,
          v.accounted,
          v.tabled k,
          live_count-mark_cancelled n k s.interactive_queue names_i,
          live_count-mark_cancelled n k s.background_queue names_b,
        );
      }

  pub cancel-IsConsistent :
      (s : PriorityScheduler T) (k : String) → IsConsistent s → IsConsistent (cancel s k).1
  unfolding cancel
  cancel-IsConsistent s k v = elim (Option-cases (get s.entries k)) [
    | inl e ↦ rw e v
    | inr (n, e) ↦ rw e (cancel_entry-IsConsistent s k n e v)
  ]

  abbrev finished : PriorityScheduler T → String → ℕ → ℕ → PriorityScheduler T
  finished s k completed failed = record s {
    active = discard s.active k;
    completed = completed;
    failed = failed;
  }

  finished-IsConsistent :
      (s : PriorityScheduler T) (k : String) (completed failed : ℕ)
      → member s.active k ≡ true
      → completed + failed ≡ s.completed + s.failed + 1
      → IsConsistent s
      → IsConsistent (finished s k completed failed)
  finished-IsConsistent s k completed failed m e v = record {
    interactive_heap = v.interactive_heap;
    background_heap = v.background_heap;
    tabled = v.tabled;
    numbered = v.numbered;
    injective = v.injective;
    apart = λ j. ground (arith, v.apart j, member-discard s.active k j);
    active_distinct = discard-Distinct s.active k v.active_distinct;
    accounted = omega (arith, v.accounted, length-discard s.active k v.active_distinct m);
  }

  pub finish-IsConsistent :
      (s : PriorityScheduler T) (k : String) (is_failed : Bool) {t : PriorityScheduler T}
      → finish s k is_failed ≡ ok t
      → IsConsistent s
      → IsConsistent t
  unfolding finish
  finish-IsConsistent s k true h v =
      subst IsConsistent (ground arith)
        (finished-IsConsistent s k s.completed (s.failed + 1) (ground arith) (omega arith) v)
  finish-IsConsistent s k false h v =
      subst IsConsistent (ground arith)
        (finished-IsConsistent s k (s.completed + 1) s.failed (ground arith) (omega arith) v)

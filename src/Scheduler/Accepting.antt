-- ===== src/Scheduler/Accepting.antt =====
-- scheduler.py: a new scheduler, `enqueue` and `_discard_cancelled` keep the state consistent.
use plug_and_play_local_rag.Base.{
  ℕ, ◌+◌, ◌≡◌, refl, subst, String, [], false, none, arith, str_eq_iff, ok, get, put, get-put,
  member,
}
use plug_and_play_local_rag.Scheduler.Queue.{
  Priority, interactive, background, heappush, live_count, live_of,
}
use plug_and_play_local_rag.Scheduler.Heaps.{
  live_count-heappush, live_of-heappush, live_count-discard_cancelled, live_of-discard_cancelled,
}
use plug_and_play_local_rag.Scheduler.Invariant.{
  IsConsistent, heappush-IsHeap, put-IsHeap, discard_cancelled-IsHeap,
}
use plug_and_play_local_rag.Scheduler.{
  PriorityScheduler, new_scheduler, new_entry, enqueue, discard_both,
}

module _ {T : Type 0} where
  abbrev start : ℕ → PriorityScheduler T
  start starvation = record {
    starvation = starvation;
    interactive_queue = [];
    background_queue = [];
    entries = [];
    sequence = 0;
    last_background_relief = none;
    active = [];
    completed = 0;
    failed = 0;
    cancelled = 0;
  }

  start-IsConsistent : (starvation : ℕ) → IsConsistent (start starvation)
  unfolding live_of live_count get
  start-IsConsistent starvation = record {
    interactive_heap = record { sorted = tt; below = tt; registered = tt };
    background_heap = record { sorted = tt; below = tt; registered = tt };
    tabled = λ k. refl;
    numbered = λ k n h. cc;
    injective = λ j k n h. cc;
    apart = λ k h. cc;
    active_distinct = tt;
    accounted = refl;
  }

  pub new_scheduler-IsConsistent :
      (starvation : ℕ) {s : PriorityScheduler T} → new_scheduler starvation ≡ ok s → IsConsistent s
  unfolding new_scheduler
  new_scheduler-IsConsistent starvation h =
      subst IsConsistent (ground arith) (start-IsConsistent starvation)

  push_interactive-IsConsistent :
      (s : PriorityScheduler T) (k : String) (payload : T) (now : ℕ)
      → get s.entries k ≡ none
      → member s.active k ≡ false
      → IsConsistent s
      → IsConsistent (record s {
        interactive_queue = heappush s.interactive_queue (new_entry s k payload interactive now);
        sequence = s.sequence + 1;
        entries = put s.entries k s.sequence;
      })
  push_interactive-IsConsistent s k payload now new idle v = record {
    interactive_heap =
        heappush-IsHeap s.entries s.interactive_queue (new_entry s k payload interactive now) new
          v.interactive_heap;
    background_heap = put-IsHeap s.entries s.sequence k s.background_queue new v.background_heap;
    tabled = λ j. ground (
      arith,
      v.tabled j,
      str_eq_iff k j,
      get-put s.entries k j s.sequence,
      live_of-heappush j s.interactive_queue (new_entry s k payload interactive now),
    );
    numbered = λ j n. ground (arith, v.numbered j n, get-put s.entries k j s.sequence);
    injective = λ i j n. ground (
      arith,
      v.injective i j n,
      v.numbered i n,
      v.numbered j n,
      str_eq_iff k i,
      str_eq_iff k j,
      get-put s.entries k i s.sequence,
      get-put s.entries k j s.sequence,
    );
    apart = λ j. ground (arith, v.apart j, str_eq_iff k j, get-put s.entries k j s.sequence);
    active_distinct = v.active_distinct;
    accounted = ground (
      arith,
      v.accounted,
      live_count-heappush s.interactive_queue (new_entry s k payload interactive now),
    );
  }

  push_background-IsConsistent :
      (s : PriorityScheduler T) (k : String) (payload : T) (now : ℕ)
      → get s.entries k ≡ none
      → member s.active k ≡ false
      → IsConsistent s
      → IsConsistent (record s {
        background_queue = heappush s.background_queue (new_entry s k payload background now);
        sequence = s.sequence + 1;
        entries = put s.entries k s.sequence;
      })
  push_background-IsConsistent s k payload now new idle v = record {
    interactive_heap = put-IsHeap s.entries s.sequence k s.interactive_queue new v.interactive_heap;
    background_heap =
        heappush-IsHeap s.entries s.background_queue (new_entry s k payload background now) new
          v.background_heap;
    tabled = λ j. ground (
      arith,
      v.tabled j,
      str_eq_iff k j,
      get-put s.entries k j s.sequence,
      live_of-heappush j s.background_queue (new_entry s k payload background now),
    );
    numbered = λ j n. ground (arith, v.numbered j n, get-put s.entries k j s.sequence);
    injective = λ i j n. ground (
      arith,
      v.injective i j n,
      v.numbered i n,
      v.numbered j n,
      str_eq_iff k i,
      str_eq_iff k j,
      get-put s.entries k i s.sequence,
      get-put s.entries k j s.sequence,
    );
    apart = λ j. ground (arith, v.apart j, str_eq_iff k j, get-put s.entries k j s.sequence);
    active_distinct = v.active_distinct;
    accounted = ground (
      arith,
      v.accounted,
      live_count-heappush s.background_queue (new_entry s k payload background now),
    );
  }

  unknown :
      (s : PriorityScheduler T) (k : String) (payload : T) (p : Priority) (now : ℕ)
      {t : PriorityScheduler T}
      → enqueue s k payload p now ≡ ok t
      → (get s.entries k ≡ none) × (member s.active k ≡ false)
  unfolding enqueue
  unknown s k payload p now h = ground arith

  pub enqueue-IsConsistent :
      (s : PriorityScheduler T) (k : String) (payload : T) (p : Priority) (now : ℕ)
      {t : PriorityScheduler T}
      → enqueue s k payload p now ≡ ok t
      → IsConsistent s
      → IsConsistent t
  unfolding enqueue
  enqueue-IsConsistent s k payload interactive now h v =
      let (new, idle) = unknown s k payload interactive now h in
      subst IsConsistent (ground arith) (push_interactive-IsConsistent s k payload now new idle v)
  enqueue-IsConsistent s k payload background now h v =
      let (new, idle) = unknown s k payload background now h in
      subst IsConsistent (ground arith) (push_background-IsConsistent s k payload now new idle v)

  pub discard_both-IsConsistent :
      (s : PriorityScheduler T) → IsConsistent s → IsConsistent (discard_both s)
  unfolding discard_both
  discard_both-IsConsistent s v = record {
    interactive_heap =
        discard_cancelled-IsHeap s.entries s.sequence s.interactive_queue v.interactive_heap;
    background_heap =
        discard_cancelled-IsHeap s.entries s.sequence s.background_queue v.background_heap;
    tabled = λ k. simp live_of-discard_cancelled (v.tabled k);
    numbered = v.numbered;
    injective = v.injective;
    apart = v.apart;
    active_distinct = v.active_distinct;
    accounted = simp live_count-discard_cancelled v.accounted;
  }

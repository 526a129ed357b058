-- ===== src/Scheduler/Dispatching.antt =====
-- scheduler.py: `_choose_entry` and `next` keep the state consistent.
use plug_and_play_local_rag.Base.{
  ℕ, ◌+◌, ◌≤◌, ◌≡◌, refl, ap, subst, inl, inr, String, List, [], ◌∷◌, false, Option, some, arith,
  Bool-cases, str_eq, str_eq_iff, str_eq_refl, if◌then◌else◌, get, remove, get-remove, add,
  member-add, add-Distinct, length-add,
}
use plug_and_play_local_rag.Scheduler.Queue.{Entry, live_count, live_of}
use plug_and_play_local_rag.Scheduler.Heaps.{HeadLive, discard_cancelled-HeadLive}
use plug_and_play_local_rag.Scheduler.Invariant.{
  IsHeap, IsConsistent, remove-IsHeap, tail-IsHeap, one_if_some,
}
use plug_and_play_local_rag.Scheduler.{
  is_starved, PriorityScheduler, choose_entry, pop_background, pop_interactive, discard_both,
  activate, next,
}
use plug_and_play_local_rag.Scheduler.Accepting.{discard_both-IsConsistent}

one_if_some-le : (o : Option ℕ) → one_if_some o ≤ 1
one_if_some-le o = ground arith

module _ {T : Type 0} where
  -- The head of a heap has no second live entry.
  alone :
      (e : Entry T) (q : List (Entry T)) (n m : ℕ)
      → e.cancelled ≡ false
      → live_of e.request_id (e ∷ q) + n ≡ m
      → m ≤ 1
      → (live_of e.request_id q ≡ 0) × (n ≡ 0)
  unfolding live_of
  alone e q n m l h b = ground (arith, str_eq_refl e.request_id)

  live_of-tail :
      (e : Entry T) (q : List (Entry T)) (k : String)
      → e.cancelled ≡ false
      → live_of k (e ∷ q) ≡ live_of k q + (if str_eq e.request_id k then 1 else 0)
  unfolding live_of
  live_of-tail e q k l = ground arith

  live_count-tail :
      (e : Entry T) (q : List (Entry T))
      → e.cancelled ≡ false
      → live_count (e ∷ q) ≡ live_count q + 1
  unfolding live_count
  live_count-tail e q l = ground arith

  -- A head that is not cancelled leaves its heap and the table, and its request becomes active.
  activate_interactive :
      (s : PriorityScheduler T) (e : Entry T) (q : List (Entry T))
      → s.interactive_queue ≡ e ∷ q
      → e.cancelled ≡ false
      → IsConsistent s
      → IsConsistent (record s {
        interactive_queue = q;
        entries = remove s.entries e.request_id;
        active = add s.active e.request_id;
      })
  activate_interactive s e q shape l v =
      let tabled : (k : String)
          → live_of k (e ∷ q) + live_of k s.background_queue ≡ one_if_some (get s.entries k) =
        λ k. rw (← shape) (v.tabled k) in
      let heap : IsHeap s.entries s.sequence (e ∷ q) =
        subst (IsHeap s.entries s.sequence) shape v.interactive_heap in
      let (mine, other) =
        alone e q (live_of e.request_id s.background_queue)
          (one_if_some (get s.entries e.request_id)) l (tabled e.request_id)
          (one_if_some-le (get s.entries e.request_id)) in
      let known : get s.entries e.request_id ≡ some e.sequence = heap.registered.0 l in
      record {
        interactive_heap =
            remove-IsHeap s.entries s.sequence e.request_id q mine
              (tail-IsHeap s.entries s.sequence e q heap);
        background_heap =
            remove-IsHeap s.entries s.sequence e.request_id s.background_queue other
              v.background_heap;
        tabled = λ k. ground (
          arith,
          tabled k,
          live_of-tail e q k l,
          str_eq_iff e.request_id k,
          get-remove s.entries e.request_id k,
        );
        numbered = λ k n. ground (arith, v.numbered k n, get-remove s.entries e.request_id k);
        injective = λ j k n. ground (
          arith,
          v.injective j k n,
          get-remove s.entries e.request_id j,
          get-remove s.entries e.request_id k,
        );
        apart = λ k. ground (
          arith,
          v.apart k,
          get-remove s.entries e.request_id k,
          member-add s.active e.request_id k,
        );
        active_distinct = add-Distinct s.active e.request_id v.active_distinct;
        accounted = ground (
          arith,
          v.accounted,
          ap live_count shape,
          live_count-tail e q l,
          v.apart e.request_id,
          length-add s.active e.request_id,
        );
      }

  activate_background :
      (s : PriorityScheduler T) (e : Entry T) (q : List (Entry T))
      → s.background_queue ≡ e ∷ q
      → e.cancelled ≡ false
      → IsConsistent s
      → IsConsistent (record s {
        background_queue = q;
        entries = remove s.entries e.request_id;
        active = add s.active e.request_id;
      })
  activate_background s e q shape l v =
      let tabled : (k : String)
          → live_of k (e ∷ q) + live_of k s.interactive_queue ≡ one_if_some (get s.entries k) =
        λ k. rw (← shape) (omega (arith, v.tabled k)) in
      let heap : IsHeap s.entries s.sequence (e ∷ q) =
        subst (IsHeap s.entries s.sequence) shape v.background_heap in
      let (mine, other) =
        alone e q (live_of e.request_id s.interactive_queue)
          (one_if_some (get s.entries e.request_id)) l (tabled e.request_id)
          (one_if_some-le (get s.entries e.request_id)) in
      let known : get s.entries e.request_id ≡ some e.sequence = heap.registered.0 l in
      record {
        interactive_heap =
            remove-IsHeap s.entries s.sequence e.request_id s.interactive_queue other
              v.interactive_heap;
        background_heap =
            remove-IsHeap s.entries s.sequence e.request_id q mine
              (tail-IsHeap s.entries s.sequence e q heap);
        tabled = λ k. ground (
          arith,
          tabled k,
          live_of-tail e q k l,
          str_eq_iff e.request_id k,
          get-remove s.entries e.request_id k,
        );
        numbered = λ k n. ground (arith, v.numbered k n, get-remove s.entries e.request_id k);
        injective = λ j k n. ground (
          arith,
          v.injective j k n,
          get-remove s.entries e.request_id j,
          get-remove s.entries e.request_id k,
        );
        apart = λ k. ground (
          arith,
          v.apart k,
          get-remove s.entries e.request_id k,
          member-add s.active e.request_id k,
        );
        active_distinct = add-Distinct s.active e.request_id v.active_distinct;
        accounted = ground (
          arith,
          v.accounted,
          ap live_count shape,
          live_count-tail e q l,
          v.apart e.request_id,
          length-add s.active e.request_id,
        );
      }

  pub relieve-IsConsistent :
      (s : PriorityScheduler T) (now : ℕ)
      → IsConsistent s
      → IsConsistent (record s { last_background_relief = some now })
  relieve-IsConsistent s now v = record {
    interactive_heap = v.interactive_heap;
    background_heap = v.background_heap;
    tabled = v.tabled;
    numbered = v.numbered;
    injective = v.injective;
    apart = v.apart;
    active_distinct = v.active_distinct;
    accounted = v.accounted;
  }

  pop_background-IsConsistent :
      (s : PriorityScheduler T) (q : List (Entry T))
      → s.background_queue ≡ q
      → HeadLive q
      → IsConsistent s
      → IsConsistent (activate (pop_background q s)).1
  unfolding activate
  pop_background-IsConsistent s [] e l v = v
  pop_background-IsConsistent s (x ∷ q) e l v = activate_background s x q e l v

  pop_interactive-IsConsistent :
      (s : PriorityScheduler T) (q : List (Entry T))
      → s.interactive_queue ≡ q
      → HeadLive q
      → HeadLive s.background_queue
      → IsConsistent s
      → IsConsistent (activate (pop_interactive q s)).1
  unfolding activate
  pop_interactive-IsConsistent s [] e l b v =
      pop_background-IsConsistent s s.background_queue refl b v
  pop_interactive-IsConsistent s (x ∷ q) e l b v = activate_interactive s x q e l v

  choose-IsConsistent :
      (s : PriorityScheduler T) (now : ℕ)
      → HeadLive s.interactive_queue
      → HeadLive s.background_queue
      → IsConsistent s
      → IsConsistent (activate (choose_entry s now)).1
  unfolding choose_entry
  choose-IsConsistent s now l b v = elim (Bool-cases (is_starved s now)) [
    | inl e ↦ rw e (
        pop_background-IsConsistent (record s { last_background_relief = some now })
          s.background_queue refl b (relieve-IsConsistent s now v))
    | inr e ↦ rw e (pop_interactive-IsConsistent s s.interactive_queue refl l b v)
  ]

  pub next-IsConsistent :
      (s : PriorityScheduler T) (now : ℕ) → IsConsistent s → IsConsistent (next s now).1
  unfolding next
  next-IsConsistent s now v =
      choose-IsConsistent (discard_both s) now
        (unfold discard_both in discard_cancelled-HeadLive s.interactive_queue)
        (unfold discard_both in discard_cancelled-HeadLive s.background_queue)
        (discard_both-IsConsistent s v)

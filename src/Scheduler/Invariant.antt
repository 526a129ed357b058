-- ===== src/Scheduler/Invariant.antt =====
-- scheduler.py: what ties the heaps, the table of queued requests, the active set and the counters
-- together, and the operations that keep it.
use plug_and_play_local_rag.Base.{
  ℕ, ◌+◌, ◌<◌, ◌≡◌, ap, ◌∙◌, String, List, [], ◌∷◌, true, false, Option, none, some, arith, length,
  All-map, Dict, get, put, remove, dict_laws, member, Distinct,
}
use plug_and_play_local_rag.Scheduler.Queue.{
  Entry, heappush, discard_cancelled, mark_cancelled, live_count, live_of, Above, Below, Registered,
}
use plug_and_play_local_rag.Scheduler.Heaps.{
  heappush-All, heappush-Above, discard_cancelled-All, discard_cancelled-Above,
  mark_cancelled-Above, mark_cancelled-Below, Names, mark_cancelled-Registered, put-Registered,
  remove-Registered,
}
use plug_and_play_local_rag.Scheduler.{PriorityScheduler}

-- A heap in order, below the next sequence number, of registered entries.
pub record IsHeap {T : Type 0} (d : Dict ℕ) (n : ℕ) (q : List (Entry T)) : Type 0 where
  pub sorted : Above 0 q
  pub below : Below n q
  pub registered : Registered d q

abbrev pub one_if_some : Option ℕ → ℕ
one_if_some none = 0
one_if_some (some n) = 1

pub record IsConsistent {T : Type 0} (s : PriorityScheduler T) : Type 0 where
  pub interactive_heap : IsHeap s.entries s.sequence s.interactive_queue
  pub background_heap : IsHeap s.entries s.sequence s.background_queue
  -- the table holds exactly the requests with a live entry, of which each has one
  pub tabled :
      (k : String)
      → live_of k s.interactive_queue + live_of k s.background_queue ≡ one_if_some (get s.entries k)
  pub numbered : (k : String) (n : ℕ) → get s.entries k ≡ some n → n < s.sequence
  pub injective :
      (j k : String) (n : ℕ) → get s.entries j ≡ some n → get s.entries k ≡ some n → j ≡ k
  pub apart : (k : String) → member s.active k ≡ true → get s.entries k ≡ none
  pub active_distinct : Distinct s.active
  -- every accepted request is queued, active, completed, failed or cancelled
  pub accounted :
      s.sequence
      ≡ live_count s.interactive_queue
        + live_count s.background_queue
        + length s.active
        + s.completed
        + s.failed
        + s.cancelled

module _ {T : Type 0} where
  pub heappush-IsHeap :
      (d : Dict ℕ) (q : List (Entry T)) (e : Entry T)
      → get d e.request_id ≡ none
      → IsHeap d e.sequence q
      → IsHeap (put d e.request_id e.sequence) (e.sequence + 1) (heappush q e)
  heappush-IsHeap d q e new h = record {
    sorted = heappush-Above 0 q e (omega arith) h.below h.sorted;
    below =
        heappush-All (λ x. x.sequence < e.sequence + 1) q e (omega arith)
          (All-map (λ x. x.sequence < e.sequence) (λ x. x.sequence < e.sequence + 1) q
            (λ x l. omega arith) h.below);
    registered =
        heappush-All
          (λ x.
            x.cancelled ≡ false
            → get (put d e.request_id e.sequence) x.request_id ≡ some x.sequence)
          q e (λ l. simp dict_laws) (put-Registered d e.sequence e.request_id q new h.registered);
  }

  pub put-IsHeap :
      (d : Dict ℕ) (n : ℕ) (k : String) (q : List (Entry T))
      → get d k ≡ none
      → IsHeap d n q
      → IsHeap (put d k n) (n + 1) q
  put-IsHeap d n k q new h = record {
    sorted = h.sorted;
    below = All-map (λ x. x.sequence < n) (λ x. x.sequence < n + 1) q (λ x l. omega arith) h.below;
    registered = put-Registered d n k q new h.registered;
  }

  pub discard_cancelled-IsHeap :
      (d : Dict ℕ) (n : ℕ) (q : List (Entry T)) → IsHeap d n q → IsHeap d n (discard_cancelled q)
  discard_cancelled-IsHeap d n q h = record {
    sorted = discard_cancelled-Above 0 q h.sorted;
    below = discard_cancelled-All (λ x. x.sequence < n) q h.below;
    registered =
        discard_cancelled-All (λ x. x.cancelled ≡ false → get d x.request_id ≡ some x.sequence) q
          h.registered;
  }

  pub mark_cancelled-IsHeap :
      (d : Dict ℕ) (m n : ℕ) (k : String) (q : List (Entry T))
      → Names n k q
      → IsHeap d m q
      → IsHeap (remove d k) m (mark_cancelled n q)
  mark_cancelled-IsHeap d m n k q names h = record {
    sorted = mark_cancelled-Above 0 n q h.sorted;
    below = mark_cancelled-Below m n q h.below;
    registered = mark_cancelled-Registered d n k q names h.registered;
  }

  pub remove-IsHeap :
      (d : Dict ℕ) (n : ℕ) (k : String) (q : List (Entry T))
      → live_of k q ≡ 0
      → IsHeap d n q
      → IsHeap (remove d k) n q
  remove-IsHeap d n k q e h = record {
    sorted = h.sorted;
    below = h.below;
    registered = remove-Registered d k q e h.registered;
  }

  Above-tail : (e : Entry T) (q : List (Entry T)) → Above 0 (e ∷ q) → Above 0 q
  Above-tail e [] h = tt
  Above-tail e (x ∷ q) h = (omega arith, h.1.1)

  pub tail-IsHeap :
      (d : Dict ℕ) (n : ℕ) (e : Entry T) (q : List (Entry T)) → IsHeap d n (e ∷ q) → IsHeap d n q
  tail-IsHeap d n e q h = record {
    sorted = Above-tail e q h.sorted;
    below = h.below.1;
    registered = h.registered.1;
  }

  -- The queued request that is registered under `n` is named by `n` among the live entries.
  pub Registered-Names :
      (d : Dict ℕ) (n : ℕ) (k : String) (q : List (Entry T))
      → get d k ≡ some n
      → ((j : String) → get d j ≡ some n → j ≡ k)
      → Registered d q
      → Names n k q
  Registered-Names d n k [] e only r = tt
  Registered-Names d n k (x ∷ q) e only r = (
    λ l. (λ p. only x.request_id (r.0 l ∙ ap some p), λ p. ground (arith, r.0 l, ap (get d) p)),
    Registered-Names d n k q e only r.1,
  )

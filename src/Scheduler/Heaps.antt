-- ===== src/Scheduler/Heaps.antt =====
-- The heap operations of scheduler.py: what pushing, discarding and marking keep.
use plug_and_play_local_rag.Base.{
  ℕ, suc, ◌+◌, ◌≤◌, ◌≡◌, refl, ◌↔◌, inl, inr, String, List, [], ◌∷◌, Bool, false, not, ◌&&◌, none,
  arith, Bool-cases, str_eq, str_eq_iff, if◌then◌else◌, All, Dict, get, put, remove, get-put,
  get-remove,
}
use plug_and_play_local_rag.Scheduler.Queue.{
  Entry, entry_before, heappush, discard_cancelled, mark_cancelled, live_count, live_of, Above,
  Below, Registered,
}

-- 1 if the Boolean is true.
abbrev pub one_if : Bool → ℕ
one_if b = if b then 1 else 0

module _ {T : Type 0} where
  pub live_count-heappush :
      (q : List (Entry T)) (e : Entry T)
      → live_count (heappush q e) ≡ live_count q + one_if (not e.cancelled)
  unfolding live_count heappush
  live_count-heappush [] e = ground arith
  live_count-heappush (x ∷ q) e = ground (arith, live_count-heappush q e)

  pub live_of-heappush :
      (k : String) (q : List (Entry T)) (e : Entry T)
      → live_of k (heappush q e) ≡ live_of k q + one_if (not e.cancelled && str_eq e.request_id k)
  unfolding live_of heappush
  live_of-heappush k [] e = ground arith
  live_of-heappush k (x ∷ q) e = ground (arith, live_of-heappush k q e)

  pub heappush-All :
      (P : Entry T → Type 0) (q : List (Entry T)) (e : Entry T)
      → P e
      → All P q
      → All P (heappush q e)
  unfolding heappush
  heappush-All P [] e p h = (p, tt)
  heappush-All P (x ∷ q) e p h = elim (Bool-cases (entry_before e x)) [
    | inl b ↦ rw b (p, h)
    | inr b ↦ rw b (h.0, heappush-All P q e p h.1)
  ]

  pub heappush-Above :
      (m : ℕ) (q : List (Entry T)) (e : Entry T)
      → m ≤ e.sequence
      → Below e.sequence q
      → Above m q
      → Above m (heappush q e)
  unfolding heappush
  heappush-Above m [] e l b h = (l, tt)
  heappush-Above m (x ∷ q) e l b h = ground (arith, heappush-Above (suc x.sequence) q e)

  pub live_count-discard_cancelled :
      (q : List (Entry T)) → live_count (discard_cancelled q) ≡ live_count q
  unfolding live_count discard_cancelled
  live_count-discard_cancelled [] = refl
  live_count-discard_cancelled (x ∷ q) = ground (arith, live_count-discard_cancelled q)

  pub live_of-discard_cancelled :
      (k : String) (q : List (Entry T)) → live_of k (discard_cancelled q) ≡ live_of k q
  unfolding live_of discard_cancelled
  live_of-discard_cancelled k [] = refl
  live_of-discard_cancelled k (x ∷ q) = ground (arith, live_of-discard_cancelled k q)

  pub discard_cancelled-All :
      (P : Entry T → Type 0) (q : List (Entry T)) → All P q → All P (discard_cancelled q)
  unfolding discard_cancelled
  discard_cancelled-All P [] h = tt
  discard_cancelled-All P (x ∷ q) h = elim (Bool-cases x.cancelled) [
    | inl b ↦ rw b (discard_cancelled-All P q h.1)
    | inr b ↦ simp b h
  ]

  Above-mono : (m n : ℕ) (q : List (Entry T)) → m ≤ n → Above n q → Above m q
  Above-mono m n [] l h = tt
  Above-mono m n (x ∷ q) l h = (omega arith, h.1)

  pub discard_cancelled-Above :
      (m : ℕ) (q : List (Entry T)) → Above m q → Above m (discard_cancelled q)
  unfolding discard_cancelled
  discard_cancelled-Above m [] h = tt
  discard_cancelled-Above m (x ∷ q) h =
      ground (arith, discard_cancelled-Above m q, Above-mono m (suc x.sequence) q)

  -- What is left begins with an entry that is not cancelled, if anything is left.
  abbrev pub HeadLive : List (Entry T) → Type 0
  HeadLive [] = Unit {0}
  HeadLive (x ∷ q) = x.cancelled ≡ false

  pub discard_cancelled-HeadLive : (q : List (Entry T)) → HeadLive (discard_cancelled q)
  unfolding discard_cancelled
  discard_cancelled-HeadLive [] = tt
  discard_cancelled-HeadLive (x ∷ q) = elim (Bool-cases x.cancelled) [
    | inl b ↦ rw b (discard_cancelled-HeadLive q)
    | inr b ↦ simp b
  ]

  pub mark_cancelled-Above :
      (m n : ℕ) (q : List (Entry T)) → Above m q → Above m (mark_cancelled n q)
  unfolding mark_cancelled
  mark_cancelled-Above m n [] h = tt
  mark_cancelled-Above m n (x ∷ q) h = ground (arith, mark_cancelled-Above (suc x.sequence) n q h.1)

  pub mark_cancelled-Below :
      (m n : ℕ) (q : List (Entry T)) → Below m q → Below m (mark_cancelled n q)
  unfolding mark_cancelled
  mark_cancelled-Below m n [] h = tt
  mark_cancelled-Below m n (x ∷ q) h = ground (arith, mark_cancelled-Below m n q h.1)

  -- Among live entries, the sequence number and the request name the same ones.
  abbrev pub Names : ℕ → String → List (Entry T) → Type 0
  Names n k q = All (λ x. x.cancelled ≡ false → (x.sequence ≡ n) ↔ (x.request_id ≡ k)) q

  -- Marking takes away the live entries of that request, and no others.
  pub live_count-mark_cancelled :
      (n : ℕ) (k : String) (q : List (Entry T))
      → Names n k q
      → live_count (mark_cancelled n q) + live_of k q ≡ live_count q
  unfolding live_count live_of mark_cancelled
  live_count-mark_cancelled n k [] h = omega arith
  live_count-mark_cancelled n k (x ∷ q) h =
      ground (arith, str_eq_iff x.request_id k, live_count-mark_cancelled n k q h.1)

  pub live_of-mark_cancelled :
      (n : ℕ) (k j : String) (q : List (Entry T))
      → Names n k q
      → live_of j (mark_cancelled n q) ≡ (if str_eq k j then 0 else live_of j q)
  unfolding live_of mark_cancelled
  live_of-mark_cancelled n k j [] h = ground arith
  live_of-mark_cancelled n k j (x ∷ q) h = ground (
    arith,
    str_eq_iff x.request_id k,
    str_eq_iff x.request_id j,
    str_eq_iff k j,
    live_of-mark_cancelled n k j q h.1,
  )

  pub mark_cancelled-Registered :
      (d : Dict ℕ) (n : ℕ) (k : String) (q : List (Entry T))
      → Names n k q
      → Registered d q
      → Registered (remove d k) (mark_cancelled n q)
  unfolding mark_cancelled
  mark_cancelled-Registered d n k [] h r = tt
  mark_cancelled-Registered d n k (x ∷ q) h r = (
    ground (arith, get-remove d k x.request_id, str_eq_iff k x.request_id, r.0, h.0),
    mark_cancelled-Registered d n k q h.1 r.1,
  )

  -- A new request leaves the others registered.
  pub put-Registered :
      (d : Dict ℕ) (n : ℕ) (k : String) (q : List (Entry T))
      → get d k ≡ none
      → Registered d q
      → Registered (put d k n) q
  put-Registered d n k [] e r = tt
  put-Registered d n k (x ∷ q) e r = (
    λ l. ground (arith, get-put d k x.request_id n, str_eq_iff k x.request_id, r.0 l),
    put-Registered d n k q e r.1,
  )

  -- A request without live entries leaves the others registered.
  pub remove-Registered :
      (d : Dict ℕ) (k : String) (q : List (Entry T))
      → live_of k q ≡ 0
      → Registered d q
      → Registered (remove d k) q
  unfolding live_of
  remove-Registered d k [] e r = tt
  remove-Registered d k (x ∷ q) e r = (
    λ l. ground (
      arith,
      get-remove d k x.request_id,
      str_eq_iff x.request_id k,
      str_eq_iff k x.request_id,
      r.0 l,
    ),
    remove-Registered d k q (ground (arith, str_eq_iff x.request_id k)) r.1,
  )

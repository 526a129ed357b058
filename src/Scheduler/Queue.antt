-- ===== src/Scheduler/Queue.antt =====
-- The heaps of scheduler.py: entries in the order of `(sequence, enqueued_at)`, in which `heapq`
-- pops them.
use plug_and_play_local_rag.Base.{
  ℕ, suc, ◌≤◌, ◌<◌, min, ◌≡◌, String, List, [], ◌∷◌, Bool, true, false, ◌&&◌, ◌||◌, Option, none,
  some, ltb, ◌==◌, str_eq, if◌then◌else◌, All, Dict, get,
}

pub data Priority : Type 0 where
  interactive background : Priority

pub record Entry (T : Type 0) : Type 0 where
  pub sequence : ℕ
  pub enqueued_at : ℕ
  pub request_id : String
  pub payload : T
  pub priority : Priority
  pub cancelled : Bool

abbrev pub min_option : ℕ → Option ℕ → Option ℕ
min_option t none = some t
min_option t (some u) = some (min t u)

module _ {T : Type 0} where
  -- The order of `@dataclass(order=True)` over the two compared fields.
  abbrev pub entry_before : Entry T → Entry T → Bool
  entry_before a b =
      ltb a.sequence b.sequence || (a.sequence == b.sequence && ltb a.enqueued_at b.enqueued_at)

  -- heapq.heappush(queue, entry)
  unfoldable pub heappush : List (Entry T) → Entry T → List (Entry T)
  heappush [] e = e ∷ []
  heappush (x ∷ q) e = if entry_before e x then e ∷ x ∷ q else x ∷ heappush q e

  -- `_discard_cancelled`: pops while the first entry is cancelled
  unfoldable pub discard_cancelled : List (Entry T) → List (Entry T)
  discard_cancelled [] = []
  discard_cancelled (x ∷ q) = let rest = discard_cancelled q in if x.cancelled then rest else x ∷ q

  -- entry.cancelled = True, seen through the heap that holds the entry
  unfoldable pub mark_cancelled : ℕ → List (Entry T) → List (Entry T)
  mark_cancelled n [] = []
  mark_cancelled n (x ∷ q) =
      (if x.sequence == n then record x { cancelled = true } else x) ∷ mark_cancelled n q

  -- sum(not entry.cancelled for entry in queue)
  unfoldable pub live_count : List (Entry T) → ℕ
  live_count [] = 0
  live_count (x ∷ q) = if x.cancelled then live_count q else suc (live_count q)

  -- min(entry.enqueued_at for entry in queue if not entry.cancelled)
  unfoldable pub oldest_enqueued : List (Entry T) → Option ℕ
  oldest_enqueued [] = none
  oldest_enqueued (x ∷ q) =
      let rest = oldest_enqueued q in if x.cancelled then rest else min_option x.enqueued_at rest

  -- The entries of one request that are not cancelled, counted.
  unfoldable pub live_of : String → List (Entry T) → ℕ
  live_of k [] = 0
  live_of k (x ∷ q) =
      if x.cancelled
      then live_of k q
      else (if str_eq x.request_id k then suc (live_of k q) else live_of k q)

  -- Sequence numbers rise along a heap and stay under the bound.
  abbrev pub Above : ℕ → List (Entry T) → Type 0
  Above m [] = Unit {0}
  Above m (x ∷ q) = (m ≤ x.sequence) × Above (suc x.sequence) q

  abbrev pub Below : ℕ → List (Entry T) → Type 0
  Below n q = All (λ x. x.sequence < n) q

  -- Every live entry is registered under its request with its own sequence number.
  abbrev pub Registered : Dict ℕ → List (Entry T) → Type 0
  Registered d q = All (λ x. x.cancelled ≡ false → get d x.request_id ≡ some x.sequence) q

-- ===== src/Scheduler.antt =====
-- apps/api/app/runtime/scheduler.py: an interactive-first queue with a starvation escape for
-- background work. Time is in clock ticks and is an argument of each call. A heap of the standard
-- library is the list of its entries in the order in which it pops them; an entry object, which a
-- heap and `_entries` share, is named by its sequence number.
pub mod Queue
pub mod Heaps
pub mod Invariant
pub mod Accepting
pub mod Dispatching
pub mod Moves
pub mod Ending
pub mod Runs
pub mod Policy
pub mod Cancelling
use plug_and_play_local_rag.Base.{
  ℕ, ◌+◌, ◌-◌, min, max, String, List, [], ◌∷◌, Bool, true, false, not, ◌||◌, Option, none, some,
  leb, ◌==◌, if◌then◌else◌, length, Result, ok, ◌>>=◌, ◌>>◌, raise_if, Dict, get, put, remove, has,
  member, add, discard,
}
pub use Queue.{Priority, interactive, background, Entry}
use Queue.{heappush, discard_cancelled, mark_cancelled, live_count, oldest_enqueued}

pub record ScheduledItem (T : Type 0) : Type 0 where
  pub request_id : String
  pub payload : T
  pub priority : Priority
  pub enqueued_at : ℕ

pub record QueueMetrics : Type 0 where
  pub queued_interactive : ℕ
  pub queued_background : ℕ
  pub active : ℕ
  pub completed : ℕ
  pub failed : ℕ
  pub cancelled : ℕ
  pub oldest_background_wait : Option ℕ

pub record PriorityScheduler (T : Type 0) : Type 0 where
  pub starvation : ℕ
  pub interactive_queue : List (Entry T)
  pub background_queue : List (Entry T)
  pub entries : Dict ℕ
  pub sequence : ℕ
  pub last_background_relief : Option ℕ
  pub active : List String
  pub completed : ℕ
  pub failed : ℕ
  pub cancelled : ℕ

pub data SchedulerError : Type 0 where
  starvation_not_positive already_queued not_active : SchedulerError

-- max(0.0, now - min(…)): subtraction on ℕ stops at 0
abbrev pub oldest_wait : ℕ → Option ℕ → Option ℕ
oldest_wait now none = none
oldest_wait now (some t) = some (now - t)

module _ {T : Type 0} where
  unfoldable pub new_scheduler : ℕ → Result SchedulerError (PriorityScheduler T)
  new_scheduler starvation = do
    raise_if (starvation == 0) starvation_not_positive
    ok (record {
      starvation = starvation;
      interactive_queue = [];
      background_queue = [];
      entries = [];
      sequence = 0;
      last_background_relief = none;
      active = [];
      completed = 0;
      failed = 0;
      cancelled = 0;
    })

  abbrev pub new_entry : PriorityScheduler T → String → T → Priority → ℕ → Entry T
  new_entry s request_id payload priority now = record {
    sequence = s.sequence;
    enqueued_at = now;
    request_id = request_id;
    payload = payload;
    priority = priority;
    cancelled = false;
  }

  -- heapq.heappush(queue, entry), with the queue that the priority chooses
  abbrev pub push_entry : Priority → Entry T → PriorityScheduler T → PriorityScheduler T
  push_entry interactive e s = record s { interactive_queue = heappush s.interactive_queue e }
  push_entry background e s = record s { background_queue = heappush s.background_queue e }

  abbrev pub is_known : PriorityScheduler T → String → Bool
  is_known s request_id = has s.entries request_id || member s.active request_id

  unfoldable pub enqueue :
      PriorityScheduler T → String → T → Priority → ℕ → Result SchedulerError (PriorityScheduler T)
  enqueue s request_id payload priority now = do
    raise_if (is_known s request_id) already_queued
    let entry : Entry T = new_entry s request_id payload priority now
    let counted : PriorityScheduler T = record s {
      sequence = s.sequence + 1;
      entries = put s.entries request_id s.sequence;
    }
    ok (push_entry priority entry counted)

  -- oldest.enqueued_at if self._last_background_relief is None else max(…)
  abbrev pub starvation_started : Entry T → Option ℕ → ℕ
  starvation_started oldest none = oldest.enqueued_at
  starvation_started oldest (some relief) = max oldest.enqueued_at relief

  -- now - starvation_started >= self._starvation_seconds
  abbrev pub is_starved : PriorityScheduler T → ℕ → Bool
  is_starved s now = elim s.background_queue [
    | [] ↦ false
    | oldest ∷ rest ↦ leb (starvation_started oldest s.last_background_relief + s.starvation) now
  ]

  abbrev pub pop_background :
      List (Entry T) → PriorityScheduler T → Option (Entry T) × PriorityScheduler T
  pop_background [] s = (none, s)
  pop_background (e ∷ rest) s = (some e, record s { background_queue = rest })

  abbrev pub pop_interactive :
      List (Entry T) → PriorityScheduler T → Option (Entry T) × PriorityScheduler T
  pop_interactive [] s = pop_background s.background_queue s
  pop_interactive (e ∷ rest) s = (some e, record s { interactive_queue = rest })

  unfoldable pub choose_entry : PriorityScheduler T → ℕ → Option (Entry T) × PriorityScheduler T
  choose_entry s now =
      if is_starved s now
      then pop_background s.background_queue (record s { last_background_relief = some now })
      else pop_interactive s.interactive_queue s

  unfoldable pub discard_both : PriorityScheduler T → PriorityScheduler T
  discard_both s = record s {
    interactive_queue = discard_cancelled s.interactive_queue;
    background_queue = discard_cancelled s.background_queue;
  }

  abbrev pub scheduled : Entry T → ScheduledItem T
  scheduled e = record {
    request_id = e.request_id;
    payload = e.payload;
    priority = e.priority;
    enqueued_at = e.enqueued_at;
  }

  unfoldable pub activate :
      Option (Entry T) × PriorityScheduler T → Option (ScheduledItem T) × PriorityScheduler T
  activate (none, s) = (none, s)
  activate (some e, s) = (
    some (scheduled e),
    record s { entries = remove s.entries e.request_id; active = add s.active e.request_id },
  )

  -- One round of the loop of `next`; without an item the caller waits for a notification.
  unfoldable pub next : PriorityScheduler T → ℕ → Option (ScheduledItem T) × PriorityScheduler T
  next s now = activate (choose_entry (discard_both s) now)

  abbrev pub cancel_entry : Option ℕ → String → PriorityScheduler T → Bool × PriorityScheduler T
  cancel_entry none request_id s = (false, s)
  cancel_entry (some sequence) request_id s = (
    true,
    record s {
      entries = remove s.entries request_id;
      interactive_queue = mark_cancelled sequence s.interactive_queue;
      background_queue = mark_cancelled sequence s.background_queue;
      cancelled = s.cancelled + 1;
    },
  )

  unfoldable pub cancel : PriorityScheduler T → String → Bool × PriorityScheduler T
  cancel s request_id = cancel_entry (get s.entries request_id) request_id s

  unfoldable pub finish :
      PriorityScheduler T → String → Bool → Result SchedulerError (PriorityScheduler T)
  finish s request_id is_failed = do
    raise_if (not (member s.active request_id)) not_active
    let left : PriorityScheduler T = record s { active = discard s.active request_id }
    ok (
        if is_failed
        then record left { failed = s.failed + 1 }
        else record left { completed = s.completed + 1 })

  unfoldable pub metrics : PriorityScheduler T → ℕ → QueueMetrics
  metrics s now = record {
    queued_interactive = live_count s.interactive_queue;
    queued_background = live_count s.background_queue;
    active = length s.active;
    completed = s.completed;
    failed = s.failed;
    cancelled = s.cancelled;
    oldest_background_wait = oldest_wait now (oldest_enqueued s.background_queue);
  }

-- ===== src/Coordinator.antt =====
-- apps/api/app/runtime/coordinator.py, `CoordinatorRuntime`, over the scheduler. A coroutine is the
-- steps between its suspensions, so that the calls of several tasks interleave: `submit` and `stream`
-- are a registration and an enqueueing, `cancel` sets the event of a request and then asks the
-- scheduler, and a task is created, starts, ends, and has its callbacks called. What an adapter
-- returns, and when, and whether the queue of a stream has room for a failure, are arguments.
-- `close` is in Closing, the queue of a stream in Streaming. The stage limits are not modelled here.
pub mod Tracked
pub mod Entering
pub mod Starting
pub mod Running
pub mod Cancelling
pub mod Runs
pub mod Holding
pub mod Progress
pub mod Closing
pub mod Streaming
pub mod InFlight
pub mod Putting
pub mod Delivery
use plug_and_play_local_rag.Base.{
  ℕ, String, List, [], ◌∷◌, Bool, true, false, not, ◌&&◌, ◌||◌, Option, none, some, if◌then◌else◌,
  is_empty, Result, ok, err, ◌>>=◌, ◌>>◌, raise_if, Dict, get, put, remove, has, member, add,
  discard,
}
use plug_and_play_local_rag.Scheduler.{
  PriorityScheduler, SchedulerError, ScheduledItem, Priority, enqueue as schedule, next,
  cancel as unschedule, finish,
}
use plug_and_play_local_rag.Scheduler.{cancel}

-- How a request ends.
pub data Outcome (V : Type 0) : Type 0 where
  returned : V → Outcome V
  cancelled_outcome failed_outcome : Outcome V

-- `futures`, `streams` and `active_tasks` are the keys of the three tables, `cancellations` says of
-- each request whether its event is set. `tasks` are the tasks that have not ended, and whether each
-- has begun to run; `done_tasks` those that have ended and whose callbacks are still to be called.
-- `entering` are the calls that wait for the lock of `enqueue`, `waiting` those whose future or stream
-- is not done, `stranded` the consumers whose stream is forgotten without its end or failure in the
-- queue, and `answers` what was set on the others.
pub record CoordinatorRuntime (T V : Type 0) : Type 0 where
  pub scheduler : PriorityScheduler T
  pub entering : List String
  pub futures : List String
  pub streams : List String
  pub cancellations : Dict Bool
  pub tasks : Dict Bool
  pub active_tasks : List String
  pub done_tasks : List String
  pub waiting : List String
  pub stranded : List String
  pub answers : List (String × Outcome V)
  pub idle : Bool
  pub closed : Bool
  pub draining : Bool

pub data CoordinatorError : Type 0 where
  runtime_closed coordinator_draining already_queued_or_active : CoordinatorError

-- What a request waits for: the future of `submit`, or the queue of `stream`.
pub data Kind : Type 0 where
  by_future by_stream : Kind

-- An adapter that returned after the event was set is taken as cancelled, of a future.
abbrev pub effective : {V : Type 0} → Kind → Option Bool → Outcome V → Outcome V
effective by_future (some true) (returned v) = cancelled_outcome
effective by_future (some true) cancelled_outcome = cancelled_outcome
effective by_future (some true) failed_outcome = failed_outcome
effective by_future (some false) outcome = outcome
effective by_future none outcome = outcome
effective by_stream event outcome = outcome

abbrev pub is_failed : {V : Type 0} → Outcome V → Bool
is_failed (returned v) = false
is_failed cancelled_outcome = true
is_failed failed_outcome = true

-- The end of a stream waits for room in the queue; a failure without room is dropped.
abbrev pub is_delivered : {V : Type 0} → Kind → Bool → Outcome V → Bool
is_delivered by_future room outcome = true
is_delivered by_stream room outcome = room || not (is_failed outcome)

abbrev pub is_running : Option Bool → Bool
is_running none = false
is_running (some begun) = begun

module _ {T V : Type 0} where
  unfoldable pub new_runtime : PriorityScheduler T → CoordinatorRuntime T V
  new_runtime scheduler = record {
    scheduler = scheduler;
    entering = [];
    futures = [];
    streams = [];
    cancellations = [];
    tasks = [];
    active_tasks = [];
    done_tasks = [];
    waiting = [];
    stranded = [];
    answers = [];
    idle = true;
    closed = false;
    draining = false;
  }

  abbrev pub own : Kind → String → CoordinatorRuntime T V → CoordinatorRuntime T V
  own by_future request_id r = record r { futures = add r.futures request_id }
  own by_stream request_id r = record r { streams = add r.streams request_id }

  abbrev pub is_taken : Kind → CoordinatorRuntime T V → String → Bool
  is_taken by_future r request_id = member r.futures request_id || has r.cancellations request_id
  is_taken by_stream r request_id =
      member r.futures request_id || member r.streams request_id || has r.cancellations request_id

  -- `submit` and `stream`, up to the call of `enqueue`
  unfoldable pub register :
      Kind → CoordinatorRuntime T V → String → Result CoordinatorError (CoordinatorRuntime T V)
  register kind r request_id = do
    raise_if r.closed runtime_closed
    raise_if r.draining coordinator_draining
    raise_if (is_taken kind r request_id) already_queued_or_active
    ok (
        own kind request_id (record r {
          cancellations = put r.cancellations request_id false;
          idle = false;
          entering = add r.entering request_id;
          waiting = add r.waiting request_id;
        }))

  abbrev pub disown : Kind → String → CoordinatorRuntime T V → CoordinatorRuntime T V
  disown by_future request_id r = record r { futures = discard r.futures request_id }
  disown by_stream request_id r = record r { streams = discard r.streams request_id }

  -- self._futures.pop or self._streams.pop; self._cancellations.pop; and, once that is empty, idle
  unfoldable pub forget : Kind → String → CoordinatorRuntime T V → CoordinatorRuntime T V
  forget kind request_id r =
      let left = remove r.cancellations request_id in
      disown kind request_id (record r { cancellations = left; idle = r.idle || is_empty left })

  abbrev pub kind_of : CoordinatorRuntime T V → String → Kind
  kind_of r request_id = if member r.streams request_id then by_stream else by_future

  abbrev pub enqueued :
      Result SchedulerError (PriorityScheduler T)
      → String
      → CoordinatorRuntime T V
      → CoordinatorRuntime T V
  enqueued (ok s) request_id r = record r { scheduler = s }
  enqueued (err e) request_id r =
      forget (kind_of r request_id) request_id (record r { waiting = discard r.waiting request_id })

  -- The call of `enqueue`, by a call that has registered.
  unfoldable pub enter : CoordinatorRuntime T V → String → T → Priority → ℕ → CoordinatorRuntime T V
  enter r request_id payload priority now =
      if member r.entering request_id
      then enqueued (schedule r.scheduler request_id payload priority now) request_id
          (record r { entering = discard r.entering request_id })
      else r

  -- A call that is cancelled while it waits for the lock of `enqueue`.
  unfoldable pub give_up : CoordinatorRuntime T V → String → CoordinatorRuntime T V
  give_up r request_id =
      if member r.entering request_id
      then forget (kind_of r request_id) request_id (record r {
        entering = discard r.entering request_id;
        waiting = discard r.waiting request_id;
      })
      else r

  abbrev pub dispatched :
      Option (ScheduledItem T)
      → PriorityScheduler T
      → CoordinatorRuntime T V
      → CoordinatorRuntime T V
  dispatched none s r = record r { scheduler = s }
  dispatched (some item) s r = record r {
    scheduler = s;
    tasks = put r.tasks item.request_id false;
    active_tasks = add r.active_tasks item.request_id;
  }

  -- One round of `_dispatch`: the task of the next request is created, and has not begun.
  unfoldable pub dispatch : CoordinatorRuntime T V → ℕ → CoordinatorRuntime T V
  dispatch r now =
      if r.closed then r else dispatched (next r.scheduler now).0 (next r.scheduler now).1 r

  -- The entries that `_execute` looks up before its `try`.
  abbrev pub is_found : CoordinatorRuntime T V → String → Bool
  is_found r request_id =
      has r.cancellations request_id && (member r.streams request_id || member r.futures request_id)

  -- The task begins to run; a KeyError of its first lines ends it.
  unfoldable pub start : CoordinatorRuntime T V → String → CoordinatorRuntime T V
  start r request_id =
      if has r.tasks request_id
      then record r {
        tasks =
            if is_found r request_id
            then put r.tasks request_id true
            else remove r.tasks request_id;
        done_tasks = if is_found r request_id then r.done_tasks else add r.done_tasks request_id;
      }
      else r

  -- The callbacks of a task that has ended.
  unfoldable pub call_back : CoordinatorRuntime T V → String → CoordinatorRuntime T V
  call_back r request_id =
      if member r.done_tasks request_id
      then record r {
        active_tasks = discard r.active_tasks request_id;
        done_tasks = discard r.done_tasks request_id;
      }
      else r

  -- if not future.done(): future.set_result, set_exception or cancel
  abbrev pub answer : String → Outcome V → CoordinatorRuntime T V → CoordinatorRuntime T V
  answer request_id outcome r = record r {
    waiting = discard r.waiting request_id;
    answers = if member r.waiting request_id then (request_id, outcome) ∷ r.answers else r.answers;
  }

  abbrev pub strand : String → CoordinatorRuntime T V → CoordinatorRuntime T V
  strand request_id r = record r {
    waiting = discard r.waiting request_id;
    stranded = if member r.waiting request_id then request_id ∷ r.stranded else r.stranded;
  }

  abbrev pub settle : Bool → String → Outcome V → CoordinatorRuntime T V → CoordinatorRuntime T V
  settle true request_id outcome r = answer request_id outcome r
  settle false request_id outcome r = strand request_id r

  -- The task of a request ends: its callbacks are still to be called.
  abbrev pub end_task : String → CoordinatorRuntime T V → CoordinatorRuntime T V
  end_task request_id r = record r {
    tasks = remove r.tasks request_id;
    done_tasks = add r.done_tasks request_id;
  }

  -- The `finally`: `finish` of the scheduler may raise, and the tables are left as they are then.
  abbrev pub finished :
      Result SchedulerError (PriorityScheduler T)
      → Kind
      → String
      → CoordinatorRuntime T V
      → CoordinatorRuntime T V
  finished (ok s) kind request_id r = forget kind request_id (record r { scheduler = s })
  finished (err e) kind request_id r = r

  abbrev pub ended :
      Kind → Outcome V → Bool → String → CoordinatorRuntime T V → CoordinatorRuntime T V
  ended kind outcome room request_id r =
      finished (finish r.scheduler request_id (is_failed outcome)) kind request_id
        (settle (is_delivered kind room outcome) request_id outcome (end_task request_id r))

  -- `_execute` and `_execute_stream`, from what the adapter did to the end of the task
  unfoldable pub complete :
      CoordinatorRuntime T V → String → Outcome V → Bool → CoordinatorRuntime T V
  complete r request_id outcome room =
      if is_running (get r.tasks request_id)
      then ended (kind_of r request_id)
          (effective (kind_of r request_id) (get r.cancellations request_id) outcome) room
          request_id r
      else r

  -- `cancel`, up to the call of the scheduler: what it returns, and the event set.
  unfoldable pub cancel_begin : CoordinatorRuntime T V → String → Bool × CoordinatorRuntime T V
  cancel_begin r request_id =
      if has r.cancellations request_id
      then (true, record r { cancellations = put r.cancellations request_id true })
      else (false, r)

  -- What a request that was still queued leaves.
  abbrev pub unqueued : Bool → String → CoordinatorRuntime T V → CoordinatorRuntime T V
  unqueued false request_id r = r
  unqueued true request_id r = answer request_id cancelled_outcome (record r {
    futures = discard r.futures request_id;
    streams = discard r.streams request_id;
    cancellations = remove r.cancellations request_id;
  })

  -- active.cancel(): a task that has not begun ends without running; one that runs ends by `complete`.
  abbrev pub cancel_task : Option Bool → String → CoordinatorRuntime T V → CoordinatorRuntime T V
  cancel_task none request_id r = r
  cancel_task (some true) request_id r = r
  cancel_task (some false) request_id r = end_task request_id r

  -- The task in the table, if it has not ended.
  abbrev pub active_task : CoordinatorRuntime T V → String → Option Bool
  active_task r request_id =
      if member r.active_tasks request_id then get r.tasks request_id else none

  -- `cancel`, from the call of the scheduler
  unfoldable pub cancel_end : CoordinatorRuntime T V → String → CoordinatorRuntime T V
  cancel_end r request_id = cancel_task (active_task r request_id) request_id (
      unqueued (unschedule r.scheduler request_id).0 request_id
        (record r { scheduler = (unschedule r.scheduler request_id).1 }))

  -- The caller of `submit` is cancelled while it waits, and with it the future; `cancel` follows.
  unfoldable pub abandon : CoordinatorRuntime T V → String → CoordinatorRuntime T V
  abandon r request_id = record r { waiting = discard r.waiting request_id }

  -- `drain`, up to the waiting: it returns once `idle` is set
  unfoldable pub drain : CoordinatorRuntime T V → CoordinatorRuntime T V
  drain r = record r { draining = true; idle = r.idle || is_empty r.cancellations }

  unfoldable pub resume : CoordinatorRuntime T V → CoordinatorRuntime T V
  resume r = record r { draining = if r.closed then r.draining else false }

-- ===== src/Examples/Coordinating.antt =====
-- Runs of the coordinator.
use plug_and_play_local_rag.Base.{
  ℕ, ◌≡◌, refl, List, [], ◌∷◌, ◌++◌, true, false, none, ok, get, put, remove, has, member, add,
  discard,
}
use plug_and_play_local_rag.Scheduler.{
  PriorityScheduler, new_scheduler, interactive, background, enqueue as schedule, next,
  choose_entry, activate, discard_both, cancel as unschedule, finish,
}
use plug_and_play_local_rag.Scheduler.Queue.{heappush, discard_cancelled, mark_cancelled}
use plug_and_play_local_rag.Coordinator.{
  by_future, by_stream, returned, failed_outcome, new_runtime, register, enter, dispatch, start,
  complete, forget, give_up, call_back, cancel_begin, cancel_end, abandon, drain, resume,
}
use plug_and_play_local_rag.Coordinator.Tracked.{IsTracked}
use plug_and_play_local_rag.Coordinator.Runs.{
  Call, registers, enters, dispatches, starts, completes, begins_cancel, ends_cancel, drains,
  gives_up, calls_back, is_awaited, step, run, reachable-IsTracked, idle_boundary,
}
use plug_and_play_local_rag.Scheduler.{is_known}

abbrev scheduler : PriorityScheduler ℕ
scheduler = record {
  starvation = 5;
  interactive_queue = [];
  background_queue = [];
  entries = [];
  sequence = 0;
  last_background_relief = none;
  active = [];
  completed = 0;
  failed = 0;
  cancelled = 0;
}

scheduler_is_new : new_scheduler 5 ≡ ok scheduler
unfolding new_scheduler
scheduler_is_new = refl

-- Two requests; the first has run, and the second begins.
abbrev both : List (Call ℕ ℕ)
both =
    registers by_future "a"
    ∷ registers by_stream "b"
    ∷ enters "b" 2 background 1
    ∷ enters "a" 1 interactive 2
    ∷ dispatches 3
    ∷ dispatches 3
    ∷ starts "a"
    ∷ completes "a" (returned 7) true
    ∷ calls_back "a"
    ∷ starts "b"
    ∷ []

abbrev end_of_second : List (Call ℕ ℕ)
end_of_second = both ++ completes "b" (returned 8) false ∷ drains ∷ []

both_answered :
    (run (new_runtime scheduler) end_of_second).answers ≡ ("b", returned 8) ∷ ("a", returned 7) ∷ []
unfolding new_runtime run step register enter dispatch start complete forget give_up call_back
    cancel_begin cancel_end abandon drain resume schedule next choose_entry activate discard_both
    unschedule finish heappush discard_cancelled mark_cancelled get put remove add discard
both_answered = refl

-- A task that is cancelled before it begins leaves its request active for ever: nothing is queued or has
-- a task, the caller of "a" waits, and the drain does not end.
abbrev lost : List (Call ℕ ℕ)
lost =
    registers by_future "a"
    ∷ enters "a" 1 interactive 2
    ∷ dispatches 3
    ∷ begins_cancel "a"
    ∷ ends_cancel "a"
    ∷ drains
    ∷ []

lost_waits :
    ((run (new_runtime scheduler) lost).waiting ≡ "a" ∷ [])
    × ((run (new_runtime scheduler) lost).tasks ≡ [])
    × ((run (new_runtime scheduler) lost).scheduler.active ≡ "a" ∷ [])
    × ((run (new_runtime scheduler) lost).scheduler.entries ≡ [])
    × ((run (new_runtime scheduler) lost).idle ≡ false)
unfolding new_runtime run step register enter dispatch start complete forget give_up call_back
    cancel_begin cancel_end abandon drain resume schedule next choose_entry activate discard_both
    unschedule finish heappush discard_cancelled mark_cancelled get put remove add discard
lost_waits = (refl, refl, refl, refl, refl)

-- A drain is waiting when the last request, which is queued, is cancelled: nothing is registered, and
-- `idle` is not set.
abbrev unnoticed : List (Call ℕ ℕ)
unnoticed =
    registers by_future "a"
    ∷ enters "a" 1 interactive 2
    ∷ drains
    ∷ begins_cancel "a"
    ∷ ends_cancel "a"
    ∷ []

unnoticed_drain :
    ((run (new_runtime scheduler) unnoticed).cancellations ≡ [])
    × ((run (new_runtime scheduler) unnoticed).scheduler.entries ≡ [])
    × ((run (new_runtime scheduler) unnoticed).draining ≡ true)
    × ((run (new_runtime scheduler) unnoticed).idle ≡ false)
unfolding new_runtime run step register enter dispatch start complete forget give_up call_back
    cancel_begin cancel_end abandon drain resume schedule next choose_entry activate discard_both
    unschedule finish heappush discard_cancelled mark_cancelled get put remove add discard
unnoticed_drain = (refl, refl, refl, refl)

-- The failure of a stream finds the queue full: nothing is registered, a drain returns, and the
-- consumer waits.
abbrev dropped : List (Call ℕ ℕ)
dropped =
    registers by_stream "b"
    ∷ enters "b" 2 background 1
    ∷ dispatches 3
    ∷ starts "b"
    ∷ completes "b" failed_outcome false
    ∷ calls_back "b"
    ∷ drains
    ∷ []

dropped_stranded :
    ((run (new_runtime scheduler) dropped).stranded ≡ "b" ∷ [])
    × ((run (new_runtime scheduler) dropped).cancellations ≡ [])
    × ((run (new_runtime scheduler) dropped).active_tasks ≡ [])
    × ((run (new_runtime scheduler) dropped).idle ≡ true)
unfolding new_runtime run step register enter dispatch start complete forget give_up call_back
    cancel_begin cancel_end abandon drain resume schedule next choose_entry activate discard_both
    unschedule finish heappush discard_cancelled mark_cancelled get put remove add discard
dropped_stranded = (refl, refl, refl, refl)

-- A call that is cancelled before it is queued leaves nothing.
gave_up :
    (run {V = ℕ} (new_runtime scheduler) (registers by_future "a" ∷ gives_up "a" ∷ [])).idle ≡ true
unfolding new_runtime run step register enter dispatch start complete forget give_up call_back
    cancel_begin cancel_end abandon drain resume schedule next choose_entry activate discard_both
    unschedule finish heappush discard_cancelled mark_cancelled get put remove add discard
gave_up = refl

reachable-IsTracked_example : IsTracked (run (new_runtime scheduler) both)
reachable-IsTracked_example = reachable-IsTracked 5 scheduler both scheduler_is_new

idle_boundary_example :
    (is_known (run (new_runtime scheduler) end_of_second).scheduler "b" ≡ false)
    × (member (run (new_runtime scheduler) end_of_second).entering "b" ≡ false)
    × (has (run (new_runtime scheduler) end_of_second).tasks "b" ≡ false)
    × (is_awaited (run (new_runtime scheduler) end_of_second) "b"
        ≡ member (run (new_runtime scheduler) end_of_second).stranded "b")
unfolding new_runtime run step register enter dispatch start complete forget give_up call_back
    cancel_begin cancel_end abandon drain resume schedule next choose_entry activate discard_both
    unschedule finish heappush discard_cancelled mark_cancelled get put remove add discard
idle_boundary_example = idle_boundary 5 scheduler end_of_second "b" scheduler_is_new refl

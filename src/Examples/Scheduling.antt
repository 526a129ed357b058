-- ===== src/Examples/Scheduling.antt =====
-- Runs of the queue of apps/api/app/runtime/scheduler.py.
use plug_and_play_local_rag.Base.{ℕ, ◌+◌, ◌≡◌, refl, ◌↔◌, List, [], ◌∷◌, false, none}
use plug_and_play_local_rag.Scheduler.{
  PriorityScheduler, Entry, interactive, background, new_scheduler, next, cancel, metrics,
}
use plug_and_play_local_rag.Scheduler.Invariant.{IsConsistent}
use plug_and_play_local_rag.Scheduler.Runs.{
  Call, enqueues, nexts, cancels, finishes, run, reachable-IsConsistent,
}
use plug_and_play_local_rag.Scheduler.Policy.{policy, next-policy, next-none}
use plug_and_play_local_rag.Scheduler.Cancelling.{
  Hands, total, accepted, cancel-next, metrics-accepted,
}

abbrev fresh : PriorityScheduler ℕ
fresh = record {
  starvation = 60;
  interactive_queue = [];
  background_queue = [];
  entries = [];
  sequence = 0;
  last_background_relief = none;
  active = [];
  completed = 0;
  failed = 0;
  cancelled = 0;
}

abbrev ingest : Entry ℕ
ingest = record {
  sequence = 0;
  enqueued_at = 5;
  request_id = "ingest";
  payload = 7;
  priority = background;
  cancelled = false;
}

abbrev chat : Entry ℕ
chat = record {
  sequence = 1;
  enqueued_at = 9;
  request_id = "chat";
  payload = 8;
  priority = interactive;
  cancelled = false;
}

abbrev both_queued : PriorityScheduler ℕ
both_queued = record fresh {
  interactive_queue = chat ∷ [];
  background_queue = ingest ∷ [];
  entries = ("ingest", 0) ∷ ("chat", 1) ∷ [];
  sequence = 2;
}

abbrev calls : List (Call ℕ)
calls =
    enqueues "ingest" 7 background 5
    ∷ enqueues "chat" 8 interactive 9
    ∷ cancels "ingest"
    ∷ nexts 12
    ∷ finishes "chat" false
    ∷ []

next-policy_example : (next both_queued 65).0 ≡ policy both_queued 65
next-policy_example = next-policy both_queued 65

next-none_example :
    ((next fresh 3).0 ≡ none)
    ↔ ((metrics fresh 3).queued_interactive + (metrics fresh 3).queued_background ≡ 0)
next-none_example = next-none fresh 3

reachable-IsConsistent_example : IsConsistent (run fresh calls)
unfolding new_scheduler
reachable-IsConsistent_example = reachable-IsConsistent 60 {s = fresh} refl calls

cancel-next_example :
    ¬ Hands
      (next (run (cancel (run fresh (enqueues "chat" 8 interactive 9 ∷ [])) "chat").1 []) 12).0
      "chat"
unfolding new_scheduler
cancel-next_example =
    cancel-next (run fresh (enqueues "chat" 8 interactive 9 ∷ [])) "chat" [] 12
      (reachable-IsConsistent 60 {s = fresh} refl (enqueues "chat" 8 interactive 9 ∷ [])) tt

metrics-accepted_example : total (metrics (run fresh calls) 20) ≡ accepted fresh calls
unfolding new_scheduler
metrics-accepted_example = metrics-accepted 60 {s = fresh} refl calls 20

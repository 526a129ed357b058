-- ===== src/Examples/Halting.antt =====
-- A run of the stop cascade of apps/supervisor/runtime.py, on a host that is the list of the running
-- processes, of which one cannot be terminated.
use plug_and_play_local_rag.Base.{
  ◌≡◌, refl, ◌⊎◌, String, List, [], ◌∷◌, Bool, true, false, not, none, some, arith, str_eq, get,
  put, remove, member, discard, member-discard,
}
use plug_and_play_local_rag.Services.{Service, order, ordered_services}
use plug_and_play_local_rag.Stopping.{
  Reply, returned, raised, Adapter, ProcessError, Cascade, passes, terminate_and_close, stop_all,
  stop_cascade,
}
use plug_and_play_local_rag.Stopping.Tracking.{IsReliable, Listed, stop_cascade-Tracked}

abbrev terminated : List String → String → Bool → List String × Reply Unit
terminated w p true = (w, raised)
terminated w p false = (discard w p, returned tt)

abbrev host : Adapter (List String) String
host = record {
  poll = λ w p. (w, returned (not (member w p)));
  terminate = λ w p. terminated w p (str_eq p "stuck");
  wait = λ w p. (w, returned true);
  close_process = λ w p. (w, returned tt);
}

abbrev HasExited : List String → String → Type 0
HasExited w p = member w p ≡ false

seen_exited : (b : Bool) → Path (Reply Bool) (returned (not b)) (returned true) → b ≡ false
seen_exited true h = cc
seen_exited false h = refl

host-IsReliable : IsReliable host HasExited
host-IsReliable = record {
  poll_true = λ w p h. seen_exited (member w p) h;
  poll_keeps = λ w p q h. h;
  terminate_keeps = λ w p q h. keeps w p q h (str_eq p "stuck");
  wait_keeps = λ w p q h. h;
  close_keeps = λ w p q h. h;
}
  where
    keeps :
        (w : List String) (p q : String)
        → HasExited w q
        → (b : Bool) → HasExited (terminated w p b).0 q
    keeps w p q h true = h
    keeps w p q h false = ground (arith, member-discard w p q)

abbrev services : List Service
services =
    record { name = "api"; dependencies = "database" ∷ [] }
    ∷ record { name = "database"; dependencies = [] }
    ∷ []

abbrev started_all : Cascade (List String) String
started_all = record {
  host = "server" ∷ "stuck" ∷ [];
  processes = ("database", "stuck") ∷ ("api", "server") ∷ [];
  retained = [];
  last_error = none;
}

abbrev stopped : Cascade (List String) String
stopped = record {
  host = "stuck" ∷ [];
  processes = [];
  retained = "stuck" ∷ [];
  last_error = some ProcessError.adapter_error;
}

stop_cascade-Tracked_example :
    HasExited stopped.host "stuck" ⊎ Listed host HasExited host-IsReliable "stuck" stopped.retained
unfolding stop_cascade ordered_services order stop_all terminate_and_close passes get put remove
    discard
stop_cascade-Tracked_example =
    stop_cascade-Tracked host HasExited host-IsReliable services started_all stopped "database"
      "stuck" refl refl refl

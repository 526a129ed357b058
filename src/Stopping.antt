-- ===== src/Stopping.antt =====
-- apps/supervisor/runtime.py, `_stop_cascade` and `_terminate_and_close`: the processes are stopped in
-- the reverse of the start order. The Win32 adapter is a parameter.
pub mod Tracking
use plug_and_play_local_rag.Base.{
  ℕ, zero, suc, String, List, [], ◌∷◌, ◌++◌, Bool, true, false, not, Option, none, some,
  if◌then◌else◌, Result, ok, ◌>>=◌, ◌>>◌, Dict, get, remove, has,
}
use plug_and_play_local_rag.Services.{Service, OrderError, ordered_services}

-- A call of the adapter returns or raises, and leaves a host behind either way.
pub data Reply (A : Type 0) : Type 0 where
  returned : A → Reply A
  raised : Reply A

-- The adapter's calls: `poll` tells whether there is an exit code, and `wait` whether the process
-- signalled its end in time.
pub record Adapter (W P : Type 0) : Type 0 where
  pub poll : W → P → W × Reply Bool
  pub terminate : W → P → W × Reply Unit
  pub wait : W → P → W × Reply Bool
  pub close_process : W → P → W × Reply Unit

pub data ProcessError : Type 0 where
  adapter_error not_signalled still_active unconfirmed : ProcessError

-- The names of the services' processes, those kept because they may still run, and the last error.
pub record Cascade (W P : Type 0) : Type 0 where
  pub host : W
  pub processes : Dict P
  pub retained : List P
  pub last_error : Option ProcessError

abbrev pub or_unconfirmed : Option ProcessError → ProcessError
or_unconfirmed none = unconfirmed
or_unconfirmed (some e) = e

-- reversed(ordered), by name
abbrev pub reversed_names : List Service → List String
reversed_names [] = []
reversed_names (s ∷ l) = reversed_names l ++ s.name ∷ []

module _ {W P : Type 0} (adapter : Adapter W P) where
  -- if adapter.poll(process) is None: raise
  abbrev pub confirm : W × Reply Bool → W × Option ProcessError
  confirm (w, returned true) = (w, none)
  confirm (w, returned false) = (w, some still_active)
  confirm (w, raised) = (w, some adapter_error)

  -- if not adapter.wait(process, 5000): raise
  abbrev pub await_end : P → W × Reply Bool → W × Option ProcessError
  await_end p (w, returned true) = confirm (adapter.poll w p)
  await_end p (w, returned false) = (w, some not_signalled)
  await_end p (w, raised) = (w, some adapter_error)

  abbrev pub after_terminate : P → W × Reply Unit → W × Option ProcessError
  after_terminate p (w, returned u) = await_end p (adapter.wait w p)
  after_terminate p (w, raised) = (w, some adapter_error)

  -- One pass of the loop: a first poll, and the second `try` block if the process has not exited.
  abbrev pub after_poll : P → W × Reply Bool → W × Option ProcessError
  after_poll p (w, returned true) = (w, none)
  after_poll p (w, returned false) = after_terminate p (adapter.terminate w p)
  after_poll p (w, raised) = after_terminate p (adapter.terminate w p)

  abbrev pub close_of : W × Reply Unit → W × Option ProcessError
  close_of (w, returned u) = (w, none)
  close_of (w, raised) = (w, some adapter_error)

  abbrev pub after_pass :
      W × Option ProcessError
      → (W → W × Option ProcessError)
      → (ProcessError → W → W × Option ProcessError)
      → W × Option ProcessError
  after_pass (w, none) close again = close w
  after_pass (w, some e) close again = again e w

  -- The loop, with the passes that are left; it ends at the first that finds the process exited.
  unfoldable pub passes : ℕ → Option ProcessError → P → W → W × Option ProcessError
  passes zero last p w = (w, some (or_unconfirmed last))
  passes (suc left) last p w =
      after_pass (after_poll p (adapter.poll w p)) (λ v. close_of (adapter.close_process v p))
        (λ e v. passes left (some e) p v)

  unfoldable pub terminate_and_close : P → W → W × Option ProcessError
  unfolding passes
  terminate_and_close p w = passes 3 none p w

  abbrev pub keep : P → Option ProcessError → List P → List P
  keep p none l = l
  keep p (some e) l = l ++ p ∷ []

  abbrev pub latest : Option ProcessError → Option ProcessError → Option ProcessError
  latest none last = last
  latest (some e) last = some e

  abbrev pub stop_process : String → Option P → Cascade W P → Cascade W P
  stop_process name none s = s
  stop_process name (some p) s =
      let (w, error) = terminate_and_close p s.host in
      record {
        host = w;
        processes = remove s.processes name;
        retained = keep p error s.retained;
        last_error = latest error s.last_error;
      }

  unfoldable pub stop_all : List String → Cascade W P → Cascade W P
  unfolding terminate_and_close
  stop_all [] s = s
  stop_all (name ∷ names) s = stop_all names (stop_process name (get s.processes name) s)

  unfoldable pub stop_cascade : List Service → Cascade W P → Result OrderError (Cascade W P)
  unfolding stop_all
  stop_cascade services s = do
    ordered ← ordered_services services
    ok (stop_all (reversed_names ordered) (record s { last_error = none }))

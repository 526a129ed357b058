-- ===== src/Budget.antt =====
-- apps/supervisor/runtime.py, `RestartBudget`: how often a failed service is restarted. Times are
-- ticks of the supervisor's clock; `attempt <= now - window` is written as a sum.
pub mod Window
use plug_and_play_local_rag.Base.{
  ℕ, zero, suc, ◌+◌, ◌-◌, min, List, [], ◌∷◌, ◌++◌, Bool, true, false, Option, none, some, leb,
  if◌then◌else◌, length,
}

pub record RestartPolicy : Type 0 where
  pub maximum_restarts : ℕ
  pub window_seconds : ℕ
  pub backoff_seconds : List ℕ

-- The delay is `none` when there is no restart; so it is when `backoff_seconds[delay_index]` would
-- raise, which takes a policy with no delays.
pub record RestartDecision : Type 0 where
  pub allowed : Bool
  pub delay_seconds : Option ℕ
  pub attempts_in_window : ℕ

-- while attempts and attempts[0] <= cutoff: attempts.popleft()
unfoldable pub expire : ℕ → ℕ → List ℕ → List ℕ
expire window now [] = []
expire window now (a ∷ attempts) =
    let rest = expire window now attempts in if leb (a + window) now then rest else a ∷ attempts

-- backoff[i]
abbrev pub nth_delay : List ℕ → ℕ → Option ℕ
nth_delay [] i = none
nth_delay (d ∷ ds) zero = some d
nth_delay (d ∷ ds) (suc i) = nth_delay ds i

-- min(len(attempts) - 1, len(backoff) - 1), of at least one attempt
abbrev pub delay_index : List ℕ → List ℕ → ℕ
delay_index attempts backoff = min (length attempts - 1) (length backoff - 1)

-- What follows the expiry in `record_failure`.
unfoldable pub decide : RestartPolicy → List ℕ → ℕ → RestartDecision × List ℕ
decide policy attempts now =
    let appended = attempts ++ now ∷ [] in
    if leb policy.maximum_restarts (length attempts)
    then (
      record { allowed = false; delay_seconds = none; attempts_in_window = length attempts },
      attempts,
    )
    else (
      record {
        allowed = true;
        delay_seconds =
            nth_delay policy.backoff_seconds (delay_index appended policy.backoff_seconds);
        attempts_in_window = length appended;
      },
      appended,
    )

unfoldable pub record_failure : RestartPolicy → List ℕ → ℕ → RestartDecision × List ℕ
unfolding expire decide
record_failure policy attempts now = decide policy (expire policy.window_seconds now attempts) now

-- The times at which a restart is granted, for failures at the given times.
unfoldable pub restarts : RestartPolicy → List ℕ → List ℕ → List ℕ
unfolding record_failure
restarts policy attempts [] = []
restarts policy attempts (now ∷ times) =
    let later = restarts policy (record_failure policy attempts now).1 times in
    if (record_failure policy attempts now).0.allowed then now ∷ later else later

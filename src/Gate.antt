-- ===== src/Gate.antt =====
-- apps/api/app/runtime/maintenance_gate.py: mutating requests pass a gate that a maintenance
-- operation closes. Each method runs under the gate's lock, so it is one step; `_idle` is the
-- event that `drain` waits for.
pub mod Requests
pub mod Draining
use plug_and_play_local_rag.Base.{
  ℕ, ◌+◌, ◌-◌, String, List, [], ◌∷◌, Bool, true, false, not, ◌&&◌, ◌==◌, if◌then◌else◌, member,
}

pub record MaintenanceGate : Type 0 where
  pub draining : Bool
  pub active_mutations : ℕ
  pub idle : Bool

abbrev pub new_gate : MaintenanceGate
new_gate = record { draining = false; active_mutations = 0; idle = true }

unfoldable pub enter_mutation : MaintenanceGate → Bool × MaintenanceGate
enter_mutation g =
    if g.draining
    then (false, g)
    else (true, record g { active_mutations = g.active_mutations + 1; idle = false })

-- `_active_mutations -= 1`; the middleware leaves only after it entered, and Requests shows that
-- the subtraction never meets 0.
unfoldable pub leave_mutation : MaintenanceGate → MaintenanceGate
leave_mutation g =
    let left : MaintenanceGate = record g { active_mutations = g.active_mutations - 1 } in
    if left.active_mutations == 0 then record left { idle = true } else left

-- The part of `drain` under the lock; what follows waits for `idle`.
unfoldable pub begin_drain : MaintenanceGate → MaintenanceGate
begin_drain g =
    let closed : MaintenanceGate = record g { draining = true } in
    if g.active_mutations == 0 then record closed { idle = true } else closed

unfoldable pub resume : MaintenanceGate → MaintenanceGate
resume g = record g { draining = false }

-- A request as `MaintenanceGateMiddleware` reads it from the ASGI scope.
pub record Scope : Type 0 where
  pub is_http : Bool
  pub method : String
  pub is_internal_path : Bool

-- The members of `_MUTATION_METHODS`.
abbrev pub mutation_methods : List String
mutation_methods = "POST" ∷ "PUT" ∷ "PATCH" ∷ "DELETE" ∷ []

unfoldable pub is_mutation : Scope → Bool
is_mutation scope = scope.is_http && member mutation_methods scope.method

-- mutation and not internal
abbrev pub is_gated : Scope → Bool
is_gated scope = is_mutation scope && not scope.is_internal_path

-- ===== src/Controller.antt =====
-- apps/supervisor/controller.py, `ConfigurationController.apply`: draining, new environments, restart
-- and validation of the affected services, and the rollback. The runtime and the reporter are
-- parameters, and each of their calls may raise.
pub mod Loops
pub mod Rollback
pub mod Affected
pub mod Outcomes
use plug_and_play_local_rag.Base.{
  String, List, [], ◌∷◌, Bool, true, false, ◌&&◌, Option, none, some, ◌==◌, str_eq, if◌then◌else◌,
  length, is_empty, all, Result, ok, err, Dict, get, add,
}
use Prim.Native.Nat.{Ordering}
use Prim.Native.String.{compare}
use plug_and_play_local_rag.Profiles.{
  RuntimeConfiguration, SignedProfileResolver, ControllerError, no_impact, resolve,
}

pub data ControllerStage : Type 0 where
  preflight backing_up draining applying restarting validating effective failed rolling_back
        rolled_back :
      ControllerStage

-- A call of the runtime returns or raises, and leaves a runtime behind either way.
pub data Attempt (W : Type 0) : Type 0 where
  done : W → Attempt W
  raised : W → Attempt W

abbrev pub left_by : {W : Type 0} → Attempt W → W
left_by (done w) = w
left_by (raised w) = w

infixl 5 ◌then◌
abbrev pub ◌then◌ : {W : Type 0} → Attempt W → (W → Attempt W) → Attempt W
done w then f = f w
raised w then f = raised w

-- `ControllerRuntime`, and `stage` of `ControllerReporter`
pub record ControllerRuntime (W : Type 0) : Type 0 where
  pub drain : W → String → Attempt W
  pub replace_environment : W → String → Dict String → Attempt W
  pub restart : W → String → Attempt W
  pub validate : W → String → Attempt W
  pub stage : W → ControllerStage → Attempt W

-- `stages` are those that the reporter was called with, latest first.
pub record Progress (W : Type 0) : Type 0 where
  pub runtime : W
  pub stages : List ControllerStage

pub data Outcome : Type 0 where
  applied : Outcome
  rejected : ControllerError → Outcome
  restored rollback_failed unreported : Outcome

-- a == b on dicts, whatever their order
abbrev pub same_value : String → Option String → Bool
same_value v none = false
same_value v (some w) = str_eq v w

abbrev pub same_dict : Dict String → Dict String → Bool
same_dict a b = (length a == length b) && all (λ e. same_value e.1 (get b e.0)) a

abbrev pub same_option : Option (Dict String) → Option (Dict String) → Bool
same_option none none = true
same_option none (some b) = false
same_option (some a) none = false
same_option (some a) (some b) = same_dict a b

-- set(keys), added to a set
abbrev pub keys {ℓ} : {V : Type ℓ} → Dict V → List String → List String
keys [] s = s
keys ((k, v) ∷ d) s = keys d (add s k)

abbrev pub insert_sorted : String → List String → List String
insert_sorted k [] = k ∷ []
insert_sorted k (j ∷ l) =
    let rest = insert_sorted k l in elim (compare k j) [ Ordering.gt ↦ j ∷ rest | _ ↦ k ∷ j ∷ l ]

abbrev pub sorted : List String → List String
sorted [] = []
sorted (k ∷ l) = insert_sorted k (sorted l)

abbrev pub changed : Dict (Dict String) → Dict (Dict String) → List String → List String
changed desired prior [] = []
changed desired prior (s ∷ l) =
    if same_option (get desired s) (get prior s)
    then changed desired prior l
    else s ∷ changed desired prior l

unfoldable pub affected : Dict (Dict String) → Dict (Dict String) → List String
affected desired prior = sorted (changed desired prior (keys prior (keys desired [])))

-- for service in affected: ...
unfoldable pub each : {W : Type 0} → (W → String → Attempt W) → List String → W → Attempt W
each f [] w = done w
each f (s ∷ l) w = f w s then each f l

abbrev pub at_stage : {W : Type 0} → List ControllerStage → Attempt W → Attempt (Progress W)
at_stage stages (done w) = done (record { runtime = w; stages = stages })
at_stage stages (raised w) = raised (record { runtime = w; stages = stages })

module _ {W : Type 0} (api : ControllerRuntime W) where
  abbrev pub report : ControllerStage → Progress W → Attempt (Progress W)
  report stage p = at_stage (stage ∷ p.stages) (api.stage p.runtime stage)

  -- A stage is reported, and its loop runs.
  abbrev pub stage_loop :
      ControllerStage → (W → String → Attempt W) → List String → Progress W → Attempt (Progress W)
  stage_loop stage f services p =
      report stage p then (λ q. at_stage q.stages (each f services q.runtime))

  abbrev pub replace_with : W → String → Option (Dict String) → Attempt W
  replace_with w service none = raised w
  replace_with w service (some environment) = api.replace_environment w service environment

  -- `values[service]` raises on a missing service.
  unfoldable pub replace_from : Dict (Dict String) → W → String → Attempt W
  replace_from values w service = replace_with w service (get values service)

  unfoldable pub apply_stages : Dict (Dict String) → List String → Progress W → Attempt (Progress W)
  unfolding replace_from
  apply_stages desired services p =
      stage_loop draining api.drain services p
      then stage_loop applying (replace_from desired) services
      then stage_loop restarting api.restart services
      then stage_loop validating api.validate services

  unfoldable pub restore_service : Dict (Dict String) → W → String → Attempt W
  unfolding replace_from
  restore_service prior w service =
      replace_from prior w service
      then (λ v. api.restart v service then (λ u. api.validate u service))

  abbrev pub after_rollback : Attempt (Progress W) → Progress W × Outcome
  after_rollback (done q) = (q, restored)
  after_rollback (raised q) = (q, rollback_failed)

  -- The `except` block, which raises again at its end. If its first report raises, nothing is restored.
  unfoldable pub roll_back : Dict (Dict String) → List String → Progress W → Progress W × Outcome
  unfolding restore_service
  roll_back prior services p =
      after_rollback
        (stage_loop rolling_back (restore_service prior) services p then report rolled_back)

  abbrev pub after_report : Attempt (Progress W) → Progress W × Outcome
  after_report (done q) = (q, applied)
  after_report (raised q) = (q, unreported)

  unfoldable pub conclude :
      Dict (Dict String) → List String → Attempt (Progress W) → Progress W × Outcome
  unfolding roll_back
  conclude prior services (done q) = after_report (report effective q)
  conclude prior services (raised q) = roll_back prior services q

  unfoldable pub apply_values :
      Dict (Dict String) → Dict (Dict String) → List String → Progress W → Progress W × Outcome
  unfolding apply_stages conclude
  apply_values desired prior services p = conclude prior services (apply_stages desired services p)

  unfoldable pub apply_resolved :
      Result ControllerError (Dict (Dict String))
      → Result ControllerError (Dict (Dict String))
      → Progress W
      → Progress W × Outcome
  unfolding affected apply_values
  apply_resolved (err e) prior p = (p, rejected e)
  apply_resolved (ok desired) (err e) p = (p, rejected e)
  apply_resolved (ok desired) (ok prior) p =
      if is_empty (affected desired prior)
      then (p, rejected no_impact)
      else apply_values desired prior (affected desired prior) p

  abbrev pub after_preflight :
      Result ControllerError (Dict (Dict String))
      → Result ControllerError (Dict (Dict String))
      → Attempt (Progress W)
      → Progress W × Outcome
  unfolding apply_resolved
  after_preflight desired prior (done p) = apply_resolved desired prior p
  after_preflight desired prior (raised p) = (p, unreported)

  unfoldable pub apply :
      SignedProfileResolver
      → RuntimeConfiguration
      → RuntimeConfiguration
      → Progress W
      → Progress W × Outcome
  unfolding resolve apply_resolved
  apply resolver desired prior p =
      after_preflight (resolve resolver desired) (resolve resolver prior) (report preflight p)

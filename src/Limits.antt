-- ===== src/Limits.antt =====
-- apps/api/app/runtime/limits.py: one semaphore for each stage of the runtime. A semaphore of the
-- standard library is its counter; a caller that finds 0 waits, and its `acquire` is tried again.
pub mod Bounds
use plug_and_play_local_rag.Base.{
  ℕ, ◌+◌, ◌-◌, List, [], ◌∷◌, map, Bool, true, false, not, Option, none, some, ◌==◌, if◌then◌else◌,
  any, all, Result, ok, ◌>>=◌, ◌>>◌, raise_if, is_some,
}

pub data Stage : Type 0 where
  digital_io generation rerank embedding ocr : Stage

unfoldable pub Stage-discrete : Discrete Stage
Stage-discrete = hlevel

-- tuple(Stage)
abbrev pub all_stages : List Stage
all_stages = digital_io ∷ generation ∷ rerank ∷ embedding ∷ ocr ∷ []

abbrev pub default_stage_limits : List (Stage × ℕ)
default_stage_limits =
    (digital_io, 2) ∷ (generation, 1) ∷ (rerank, 1) ∷ (embedding, 1) ∷ (ocr, 1) ∷ []

abbrev pub stage_eq : Stage → Stage → Bool
stage_eq a b = elim (Stage-discrete a b) [ yes p ↦ true | no p ↦ false ]

-- limits[stage]
unfoldable pub limit_of : List (Stage × ℕ) → Stage → Option ℕ
limit_of [] stage = none
limit_of ((other, limit) ∷ rest) stage =
    if stage_eq other stage then some limit else limit_of rest stage

pub record Slot : Type 0 where
  pub limit : ℕ
  pub permits : ℕ
  pub active : ℕ

abbrev pub StageLimits : Type 0
StageLimits = Stage → Slot

pub data LimitsError : Type 0 where
  stages_not_covered limit_not_positive : LimitsError

abbrev pub or_one : Option ℕ → ℕ
or_one none = 1
or_one (some n) = n

abbrev pub fresh_slot : ℕ → Slot
fresh_slot limit = record { limit = limit; permits = limit; active = 0 }

-- A key is always a stage, so the set of keys is the set of stages if none is missing.
unfoldable pub new_limits : List (Stage × ℕ) → Result LimitsError StageLimits
unfolding limit_of
new_limits configured = do
  raise_if (not (all (λ stage. is_some (limit_of configured stage)) all_stages)) stages_not_covered
  raise_if (any (λ entry. entry.1 == 0) configured) limit_not_positive
  ok (λ stage. fresh_slot (or_one (limit_of configured stage)))

unfoldable pub update : StageLimits → Stage → Slot → StageLimits
update s stage slot other = if stage_eq stage other then slot else s other

-- `semaphore.acquire()` and the count, or no change while the caller waits.
abbrev pub try_take : Slot → Bool × Slot
try_take slot =
    if slot.permits == 0
    then (false, slot)
    else (true, record slot { permits = slot.permits - 1; active = slot.active + 1 })

unfoldable pub enter : StageLimits → Stage → Bool × StageLimits
enter s stage = let (taken, slot) = try_take (s stage) in (taken, update s stage slot)

-- The `finally` block: `_active[stage] -= 1; semaphore.release()`.
abbrev pub give_back : Slot → Slot
give_back slot = record slot { permits = slot.permits + 1; active = slot.active - 1 }

unfoldable pub leave : StageLimits → Stage → StageLimits
leave s stage = update s stage (give_back (s stage))

abbrev pub StageStatus : Type 0
StageStatus = Stage × ℕ × ℕ

unfoldable pub snapshot : StageLimits → List StageStatus
snapshot s = map (λ stage. (stage, (s stage).limit, (s stage).active)) all_stages

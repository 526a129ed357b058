-- ===== src/Profiles.antt =====
-- apps/supervisor/controller.py, `SignedProfileResolver`: the identifiers of a configuration become
-- the values of each service's environment.
pub mod Values
use plug_and_play_local_rag.Base.{
  ℕ, zero, suc, ◌+◌, ◌-◌, ◌*◌, ◌/◌, ◌%◌, String, List, [], ◌∷◌, Bool, not, ◌&&◌, ◌||◌, Option, none,
  some, ltb, leb, ◌==◌, if◌then◌else◌, length, Result, ok, err, ◌>>=◌, ◌>>◌, Dict, get, put, has,
  after_prefix, is_digit,
}
use Prim.Native.Char.{Char, code}
use Prim.Native.String.{[] as empty, ◌∷◌ as ◌∷ₛ◌, ◌++◌ as ◌++ₛ◌}

pub record RuntimeConfiguration : Type 0 where
  pub generation_profile_id : String
  pub reranker_profile_id : String
  pub ocr_mode : String
  pub ocr_profile_id : String
  pub ocr_preset_id : String

pub record ResolvedProfile : Type 0 where
  pub profile_id : String
  pub service : String
  pub environment : List (String × String)

pub record SignedProfileResolver : Type 0 where
  pub profiles : Dict ResolvedProfile
  pub presets : Dict (List (String × String))

pub data ControllerError : Type 0 where
  unavailable_profile profile_overlap preset_overlap tuning_range no_impact : ControllerError

abbrev pub profiles_by_id : List ResolvedProfile → Dict ResolvedProfile → Dict ResolvedProfile
profiles_by_id [] d = d
profiles_by_id (p ∷ ps) d = profiles_by_id ps (put d p.profile_id p)

unfoldable pub new_resolver :
    List ResolvedProfile → Dict (List (String × String)) → SignedProfileResolver
new_resolver profiles presets = record { profiles = profiles_by_id profiles []; presets = presets }

-- The digits that a text begins with, and what follows them.
abbrev pub digits : String → List ℕ × String
digits empty = ([], empty)
digits (c ∷ₛ s) = if is_digit c then ((code c - 48) ∷ (digits s).0, (digits s).1) else ([], c ∷ₛ s)

abbrev pub value_of : ℕ → List ℕ → ℕ
value_of n [] = n
value_of n (d ∷ ds) = value_of (n * 10 + d) ds

-- int(group) of [1-9][0-9]{0,most - 1}
abbrev pub numeral : ℕ → List ℕ → Option ℕ
numeral most [] = none
numeral most (d ∷ ds) =
    if not (d == 0) && leb (suc (length ds)) most then some (value_of d ds) else none

abbrev pub nth_text : List String → ℕ → Option String
nth_text [] i = none
nth_text (t ∷ l) zero = some t
nth_text (t ∷ l) (suc i) = nth_text l i

-- str(d) of a digit
abbrev pub digit_text : ℕ → String
digit_text d = elim (nth_text ("0" ∷ "1" ∷ "2" ∷ "3" ∷ "4" ∷ "5" ∷ "6" ∷ "7" ∷ "8" ∷ "9" ∷ []) d) [
  | none ↦ ""
  | some t ↦ t
]

-- str(n), with as much fuel as there are digits
abbrev pub decimal : ℕ → ℕ → String
decimal zero n = empty
decimal (suc fuel) n =
    let rest = decimal fuel (n / 10) in
    let last = digit_text (n % 10) in if ltb n 10 then last else rest ++ₛ last

abbrev pub pair : Option ℕ → Option ℕ → String → Option (ℕ × ℕ)
pair (some a) (some b) empty = some (a, b)
pair (some a) (some b) (c ∷ₛ s) = none
pair (some a) none s = none
pair none b s = none

abbrev pub match_processes : Option ℕ → Option String → Option (ℕ × ℕ)
match_processes threads none = none
match_processes threads (some s) = pair threads (numeral 2 (digits s).0) (digits s).1

abbrev pub match_threads : Option String → Option (ℕ × ℕ)
match_threads none = none
match_threads (some s) = match_processes (numeral 3 (digits s).0) (after_prefix "-p" (digits s).1)

-- `_MANUAL_OCR_PRESET.fullmatch`, with the two numbers of the match.
abbrev pub match_manual : String → Option (ℕ × ℕ)
match_manual preset_id = match_threads (after_prefix "manual-t" preset_id)

abbrev pub manual_values : Option (ℕ × ℕ) → Result ControllerError (List (String × String))
manual_values none = err unavailable_profile
manual_values (some (cpu_threads, process_count)) =
    if not (leb 1 cpu_threads && leb cpu_threads 256)
      || not (leb 1 process_count && leb process_count 16)
    then err tuning_range
    else ok (
        ("OCR_CPU_THREADS", decimal 3 cpu_threads)
        ∷ ("OCR_PAGE_BATCH_SIZE", "8")
        ∷ ("OCR_PROCESS_COUNT", decimal 2 process_count)
        ∷ [])

-- `_resolve_manual_ocr_preset`
unfoldable pub resolve_manual_ocr_preset : String → Result ControllerError (List (String × String))
resolve_manual_ocr_preset preset_id = manual_values (match_manual preset_id)

abbrev pub found : Option ResolvedProfile → Result ControllerError ResolvedProfile
found none = err unavailable_profile
found (some p) = ok p

-- self._profiles[profile_id]
unfoldable pub profile_of : SignedProfileResolver → String → Result ControllerError ResolvedProfile
profile_of r profile_id = found (get r.profiles profile_id)

unfoldable pub preset_of :
    SignedProfileResolver → String → Result ControllerError (List (String × String))
unfolding resolve_manual_ocr_preset
preset_of r preset_id = elim (get r.presets preset_id) [
  | none ↦ resolve_manual_ocr_preset preset_id
  | some p ↦ ok p
]

-- The inner loops: no name may be there already.
unfoldable pub merge :
    ControllerError → List (String × String) → Dict String → Result ControllerError (Dict String)
merge overlap [] values = ok values
merge overlap ((name, value) ∷ rest) values =
    let merged = merge overlap rest (put values name value) in
    if has values name then err overlap else merged

abbrev pub or_empty : Option (Dict String) → Dict String
or_empty none = []
or_empty (some v) = v

-- values.setdefault(service, {})
abbrev pub service_values : Dict (Dict String) → String → Dict String
service_values values service = or_empty (get values service)

unfoldable pub merge_service :
    ControllerError
    → Dict (Dict String)
    → String
    → List (String × String)
    → Result ControllerError (Dict (Dict String))
merge_service overlap values service environment = do
  merged ← merge overlap environment (service_values values service)
  ok (put values service merged)

unfoldable pub merge_profiles :
    List ResolvedProfile → Dict (Dict String) → Result ControllerError (Dict (Dict String))
merge_profiles [] values = ok values
merge_profiles (p ∷ ps) values = do
  merged ← merge_service profile_overlap values p.service p.environment
  merge_profiles ps merged

unfoldable pub resolve :
    SignedProfileResolver → RuntimeConfiguration → Result ControllerError (Dict (Dict String))
unfolding profile_of preset_of merge_profiles merge_service
resolve r configuration = do
  generation ← profile_of r configuration.generation_profile_id
  reranker ← profile_of r configuration.reranker_profile_id
  ocr ← profile_of r configuration.ocr_profile_id
  preset ← preset_of r configuration.ocr_preset_id
  values ← merge_profiles (generation ∷ reranker ∷ ocr ∷ []) []
  tuned ← merge_service preset_overlap values "ocr" preset
  ok (
      put tuned "ocr"
        (put (service_values tuned "ocr") "OCR_SELECTION_MODE" configuration.ocr_mode))

-- ===== src/Examples/Supervising.antt =====
-- Runs of the configuration controller and of the start order of the services.
use plug_and_play_local_rag.Base.{
  ◌≡◌, refl, sym, ap, ◌∙◌, subst, ◌≢◌, ◌⊎◌, String, List, [], ◌∷◌, Bool, true, false, some, arith,
  str_eq_iff, str_eq_refl, if◌then◌else◌, All, ok, err, Dict, get, put, remove, get-put, member,
  add,
}
use plug_and_play_local_rag.Profiles.{
  RuntimeConfiguration, ResolvedProfile, SignedProfileResolver, ControllerError,
  resolve_manual_ocr_preset, profile_of, preset_of, merge, merge_service, merge_profiles,
  service_values, resolve,
}
use plug_and_play_local_rag.Profiles.Values.{Delivers, resolve-Delivers}
use plug_and_play_local_rag.Controller.{
  Attempt, ControllerStage, rollback_failed, same_option, left_by, done, raised, ControllerRuntime,
  Progress, preflight, draining, applying, restarting, validating, effective, rolling_back,
  rolled_back, applied, affected, each, replace_from, apply_stages, restore_service, roll_back,
  conclude, apply_values, apply_resolved, apply,
}
use plug_and_play_local_rag.Controller.Loops.{IsFaithful}
use plug_and_play_local_rag.Controller.Outcomes.{apply-applied, apply-restored, apply_or_restore}
use plug_and_play_local_rag.Services.{Service, out_of_fuel, by_name, order, ordered_services}
use plug_and_play_local_rag.Services.Ordering.{InOrder, started, ordered_services-InOrder}
use plug_and_play_local_rag.Services.Fuel.{ordered_services-ends}

manual_tuning :
    resolve_manual_ocr_preset "manual-t12-p4"
    ≡ ok
        (("OCR_CPU_THREADS", "12") ∷ ("OCR_PAGE_BATCH_SIZE", "8") ∷ ("OCR_PROCESS_COUNT", "4") ∷ [])
unfolding resolve_manual_ocr_preset
manual_tuning = refl

manual_leading_zero :
    resolve_manual_ocr_preset "manual-t02-p4" ≡ err ControllerError.unavailable_profile
unfolding resolve_manual_ocr_preset
manual_leading_zero = refl

abbrev profile : String → String → List (String × String) → ResolvedProfile
profile profile_id service environment = record {
  profile_id = profile_id;
  service = service;
  environment = environment;
}

abbrev catalog : SignedProfileResolver
catalog = record {
  profiles =
      ("small", profile "small" "generation" (("MODEL", "a") ∷ []))
      ∷ ("large", profile "large" "generation" (("MODEL", "b") ∷ []))
      ∷ ("rank", profile "rank" "reranker" (("TOP", "5") ∷ []))
      ∷ ("scan", profile "scan" "ocr" (("LANGUAGE", "en") ∷ []))
      ∷ [];
  presets = ("fast", ("OCR_PAGE_BATCH_SIZE", "4") ∷ []) ∷ [];
}

abbrev configuration : String → RuntimeConfiguration
configuration generation = record {
  generation_profile_id = generation;
  reranker_profile_id = "rank";
  ocr_mode = "auto";
  ocr_profile_id = "scan";
  ocr_preset_id = "fast";
}

abbrev values_with : String → Dict (Dict String)
values_with model =
    ("generation", ("MODEL", model) ∷ [])
    ∷ ("reranker", ("TOP", "5") ∷ [])
    ∷ (
      "ocr",
      ("LANGUAGE", "en") ∷ ("OCR_PAGE_BATCH_SIZE", "4") ∷ ("OCR_SELECTION_MODE", "auto") ∷ [],
    )
    ∷ []

resolve-Delivers_example :
    All
      (Delivers catalog (configuration "large") (values_with "b"))
      ("large" ∷ "rank" ∷ "scan" ∷ [])
unfolding resolve profile_of preset_of merge_profiles merge_service merge get put
resolve-Delivers_example = resolve-Delivers catalog (configuration "large") (values_with "b") refl

-- A runtime that is the environments of its services, and that may fail to drain.
abbrev drained : Bool → Dict (Dict String) → Attempt (Dict (Dict String))
drained true w = done w
drained false w = raised w

abbrev machine : Bool → ControllerRuntime (Dict (Dict String))
machine drains = record {
  drain = λ w s. drained drains w;
  replace_environment = λ w s e. done (put w s e);
  restart = λ w s. done w;
  validate = λ w s. done w;
  stage = λ w stage. done w;
}

-- Its reporter raises at the first report of a rollback.
abbrev told : ControllerStage → Dict (Dict String) → Attempt (Dict (Dict String))
told rolling_back w = raised w
told stage w = done w

abbrev unheard : ControllerRuntime (Dict (Dict String))
unheard = record (machine true) { validate = λ w s. raised w; stage = λ w stage. told stage w }

-- Then the change stays in force although `apply` failed.
change_left :
    (apply unheard catalog
      (configuration "large")
      (configuration "small")
      (record { runtime = values_with "a"; stages = [] }))
    ≡ (
      record {
        runtime = values_with "b";
        stages = rolling_back ∷ validating ∷ restarting ∷ applying ∷ draining ∷ preflight ∷ [];
      },
      rollback_failed,
    )
unfolding apply apply_resolved apply_values apply_stages conclude roll_back restore_service affected
    each replace_from resolve profile_of preset_of merge_profiles merge_service merge get put add
change_left = refl

machine-IsFaithful : (drains : Bool) → IsFaithful (machine drains) service_values
machine-IsFaithful drains = record {
  drain_keeps = λ w s t. keeps drains w t;
  restart_keeps = λ w s t. refl;
  validate_keeps = λ w s t. refl;
  stage_keeps = λ w stage t. refl;
  replace_sets = λ w v s e h.
      ap (λ x. service_values x s) (sym (written h)) ∙ rw (get-put w s s e, str_eq_refl s) refl;
  replace_keeps = λ w s t e h. rw (get-put w s t e, h) refl;
}
  where
    keeps :
        (b : Bool) (w : Dict (Dict String)) (t : String)
        → service_values (left_by (drained b w)) t ≡ service_values w t
    keeps true w t = refl
    keeps false w t = refl

    written : {w v : Dict (Dict String)} → done w ≡ done v → w ≡ v
    written h = ap left_by h

abbrev running : Progress (Dict (Dict String))
running = record { runtime = values_with "a"; stages = [] }

abbrev upgraded : Progress (Dict (Dict String))
upgraded = record {
  runtime = values_with "b";
  stages = effective ∷ validating ∷ restarting ∷ applying ∷ draining ∷ preflight ∷ [];
}

abbrev rolled : Progress (Dict (Dict String))
rolled = record {
  runtime = values_with "a";
  stages = rolled_back ∷ rolling_back ∷ draining ∷ preflight ∷ [];
}

apply-applied_example : some (service_values upgraded.runtime "generation") ≡ (
    if same_option (get (values_with "b") "generation") (get (values_with "a") "generation")
    then some (service_values running.runtime "generation")
    else get (values_with "b") "generation")
unfolding apply apply_resolved apply_values apply_stages conclude affected each replace_from resolve
    profile_of preset_of merge_profiles merge_service merge get put add
apply-applied_example =
    apply-applied (machine true) service_values (machine-IsFaithful true) catalog
      (configuration "large") (configuration "small") (values_with "b") (values_with "a") refl refl
      running upgraded refl "generation"

apply-restored_example : some (service_values rolled.runtime "generation") ≡ (
    if member (affected (values_with "b") (values_with "a")) "generation"
    then get (values_with "a") "generation"
    else some (service_values running.runtime "generation"))
unfolding apply apply_resolved apply_values apply_stages conclude roll_back restore_service affected
    each replace_from resolve profile_of preset_of merge_profiles merge_service merge get put add
apply-restored_example =
    apply-restored (machine false) service_values (machine-IsFaithful false) catalog
      (configuration "large") (configuration "small") (values_with "b") (values_with "a") refl refl
      running rolled refl "generation"

only_generation : affected (values_with "b") (values_with "a") ≡ "generation" ∷ []
unfolding affected get add
only_generation = refl

restorable :
    (w : Dict (Dict String)) (s : String)
    → member (affected (values_with "b") (values_with "a")) s ≡ true
    → (v : Dict (Dict String)) × (restore_service (machine false) (values_with "a") w s ≡ done v)
unfolding restore_service replace_from get
restorable w s m =
    let here : "generation" ≡ s = ground (arith, only_generation, str_eq_iff "generation" s) in
    subst
      (λ x.
        (v : Dict (Dict String)) × (restore_service (machine false) (values_with "a") w x ≡ done v))
      here (put w "generation" (("MODEL", "a") ∷ []), refl)

in_force :
    (t : String) (e : Dict String)
    → get (values_with "a") t ≡ some e
    → service_values (values_with "a") t ≡ e
in_force t e h = rw h refl

apply_or_restore_example :
    ((apply (machine false) catalog (configuration "large") (configuration "small") running).1
      ≡ applied)
    ⊎ ((t : String)
        → service_values
            (apply
              (machine false)
              catalog
              (configuration "large")
              (configuration "small")
              running).0.runtime
            t
          ≡ service_values running.runtime t)
unfolding resolve profile_of preset_of merge_profiles merge_service merge get put
apply_or_restore_example =
    apply_or_restore (machine false) service_values (machine-IsFaithful false) catalog
      (configuration "large") (configuration "small") (values_with "b") (values_with "a") refl refl
      running in_force restorable (λ w. (w, refl)) (λ w. (w, refl))

abbrev caddy : Service
caddy = record { name = "caddy"; dependencies = "api" ∷ [] }

abbrev api : Service
api = record { name = "api"; dependencies = "database" ∷ [] }

abbrev worker : Service
worker = record { name = "worker"; dependencies = "database" ∷ [] }

abbrev database : Service
database = record { name = "database"; dependencies = [] }

ordered_services-InOrder_example :
    InOrder
      (by_name (caddy ∷ worker ∷ api ∷ database ∷ []) [])
      []
      (database ∷ api ∷ worker ∷ caddy ∷ [])
    × All
        (λ e. member (started (database ∷ api ∷ worker ∷ caddy ∷ []) []) e.0 ≡ true)
        (by_name (caddy ∷ worker ∷ api ∷ database ∷ []) [])
unfolding ordered_services order get put remove
ordered_services-InOrder_example =
    ordered_services-InOrder (caddy ∷ worker ∷ api ∷ database ∷ [])
      (database ∷ api ∷ worker ∷ caddy ∷ []) refl

ordered_services-ends_example : ordered_services (caddy ∷ api ∷ []) ≢ err out_of_fuel
ordered_services-ends_example = ordered_services-ends (caddy ∷ api ∷ [])

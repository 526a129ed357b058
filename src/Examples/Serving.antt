-- ===== src/Examples/Serving.antt =====
-- Runs of the maintenance gate, of the stage limits and of the restart budget.
use plug_and_play_local_rag.Base.{
  ◌≤◌, List, ℕ, ◌≤◌, ◌≡◌, refl, [], ◌∷◌, true, false, some, arith, if◌then◌else◌,
}
use plug_and_play_local_rag.Gate.{Scope, is_gated}
use plug_and_play_local_rag.Gate.Requests.{
  Server, arrives, Event, ends, drains, handled, unavailable, arrive, handle, serve,
}
use plug_and_play_local_rag.Gate.Draining.{drained_stays_quiet, drain_completes, count, all_ended}
use plug_and_play_local_rag.Limits.{
  Stage-discrete, ocr, StageLimits, fresh_slot, default_stage_limits, limit_of, or_one, new_limits,
}
use plug_and_play_local_rag.Limits.Bounds.{
  enters, leaves, serve as serve_stages, count_stage, stage_bounded,
}
use plug_and_play_local_rag.Budget.{RestartPolicy, restarts}
use plug_and_play_local_rag.Budget.Window.{in_window, restarts-bounded}

abbrev upload : Scope
upload = record { is_http = true; method = "POST"; is_internal_path = false }

abbrev quiet : Server
quiet = record {
  gate = record { draining = true; active_mutations = 0; idle = true };
  passed = [];
  ungated = [];
}

abbrev busy : Server
busy = record {
  gate = record { draining = false; active_mutations = 1; idle = false };
  passed = 4 ∷ [];
  ungated = [];
}

drained_stays_quiet_example :
    ((serve quiet (arrives 1 upload ∷ [])).passed ≡ [])
    × ((n : ℕ) (scope : Scope)
        → (arrive n scope (serve quiet (arrives 1 upload ∷ []))).1
          ≡ (if is_gated scope then unavailable else handled))
drained_stays_quiet_example =
    drained_stays_quiet quiet (arrives 1 upload ∷ []) (record { counted = refl; idle_iff = refl })
      refl refl (tt, tt)

-- An upload that is refused, the end of the one inside, and a second drain.
abbrev meanwhile : List Event
meanwhile = arrives 1 upload ∷ ends 4 ∷ drains ∷ []

all_end : (n : ℕ) → count n busy.passed ≤ all_ended n meanwhile
all_end n = ground arith

drain_completes_example :
    ((serve (handle busy drains) meanwhile).gate.idle ≡ true)
    × ((serve (handle busy drains) meanwhile).gate.draining ≡ true)
drain_completes_example =
    drain_completes busy meanwhile (record { counted = refl; idle_iff = refl }) (tt, (tt, (tt, tt)))
      all_end

abbrev default_stages : StageLimits
unfolding limit_of
default_stages stage = fresh_slot (or_one (limit_of default_stage_limits stage))

stage_bounded_example :
    let r =
      serve_stages
        (record { limits = default_stages; inside = [] })
        (enters ocr ∷ enters ocr ∷ leaves ocr ∷ []) in
    ((r.limits ocr).active ≡ count_stage ocr r.inside)
    × (some (r.limits ocr).limit ≡ limit_of default_stage_limits ocr)
    × (count_stage ocr r.inside ≤ (r.limits ocr).limit)
unfolding new_limits limit_of default_stages Stage-discrete
stage_bounded_example =
    stage_bounded default_stage_limits {s = default_stages} refl
      (enters ocr ∷ enters ocr ∷ leaves ocr ∷ []) ocr

abbrev two_a_minute : RestartPolicy
two_a_minute = record { maximum_restarts = 2; window_seconds = 60; backoff_seconds = 1 ∷ 5 ∷ [] }

restarts-bounded_example : in_window 60 40 (restarts two_a_minute [] (10 ∷ 20 ∷ 30 ∷ [])) ≤ 2
restarts-bounded_example =
    restarts-bounded two_a_minute (10 ∷ 20 ∷ 30 ∷ []) 40
      (omega arith, (omega arith, (omega arith, omega arith)))

-- ===== src/Controller/Rollback.antt =====
-- controller.py, `apply`: the environments it leaves behind when it succeeds, and when it rolls back.
use plug_and_play_local_rag.Base.{
  ◌≡◌, refl, sym, ap, ◌∙◌, subst, String, List, true, false, some, Dict, get, member,
}
use plug_and_play_local_rag.Controller.{
  Attempt, done, raised, left_by, ◌then◌, ControllerRuntime, Progress, applied, restored,
  ControllerStage, draining, applying, restarting, validating, rolling_back, each, stage_loop,
  replace_from, restore_service, apply_stages, conclude, after_rollback, roll_back, apply_values,
  report, after_report, effective, rolled_back,
}
use plug_and_play_local_rag.Controller.Loops.{
  IsFaithful, then-eq-done, left-done, stage_loop-done, stage_loop-keeps, report-keeps, then-keeps,
  each-Keeps, each-Keeps_all, each-sets, replace_from-Keeps, replace_from-sets,
  restore_service-Keeps, restore_service-sets,
}

module _ {W : Type 0} (api : ControllerRuntime W) (env : W → String → Dict String)
    (law : IsFaithful api env) where
  abbrev env_of : Progress W → String → Dict String
  env_of p t = env p.runtime t

  -- A loop of calls that keep every environment, and one that keeps those of other services.
  loop-keeps_all :
      (stage : ControllerStage) (f : W → String → Attempt W) (services : List String) (t : String)
      → ((w : W) (s : String) → env (left_by (f w s)) t ≡ env w t)
      → (p : Progress W) → env_of (left_by (stage_loop api stage f services p)) t ≡ env_of p t
  loop-keeps_all stage f services t k =
      stage_loop-keeps api env law stage f services t (each-Keeps_all env f t k services)

  pub apply_stages-keeps :
      (values : Dict (Dict String)) (services : List String) (p : Progress W) (t : String)
      → member services t ≡ false
      → env_of (left_by (apply_stages api values services p)) t ≡ env_of p t
  unfolding apply_stages
  apply_stages-keeps values services p t out =
      follow
        (stage_loop api draining api.drain services p
          then stage_loop api applying (replace_from api values) services
          then stage_loop api restarting api.restart services)
        (stage_loop api validating api.validate services)
        (follow
          (stage_loop api draining api.drain services p
            then stage_loop api applying (replace_from api values) services)
          (stage_loop api restarting api.restart services)
          (follow (stage_loop api draining api.drain services p)
            (stage_loop api applying (replace_from api values) services)
            (loop-keeps_all draining api.drain services t (λ w s. law.drain_keeps w s t) p)
            (stage_loop-keeps api env law applying (replace_from api values) services t (λ w.
              each-Keeps env (replace_from api values) t (replace_from-Keeps api env law values t)
                services w out)))
          (loop-keeps_all restarting api.restart services t (λ w s. law.restart_keeps w s t)))
        (loop-keeps_all validating api.validate services t (λ w s. law.validate_keeps w s t))
    where
      follow :
          (m : Attempt (Progress W)) (f : Progress W → Attempt (Progress W))
          → env_of (left_by m) t ≡ env_of p t
          → ((q : Progress W) → env_of (left_by (f q)) t ≡ env_of q t)
          → env_of (left_by (m then f)) t ≡ env_of p t
      follow m f e k = then-keeps env_of m f t (env_of p t) e (λ q h. k q ∙ h)

  -- A loop that returned and keeps every environment.
  kept_by :
      (stage : ControllerStage) (f : W → String → Attempt W) (services : List String) (t : String)
      → ((w : W) (s : String) → env (left_by (f w s)) t ≡ env w t)
      → (p : Progress W) {q : Progress W} → stage_loop api stage f services p ≡ done q
      → env_of q t ≡ env_of p t
  kept_by stage f services t k p h =
      sym (ap (λ x. env_of x t) (left-done (stage_loop api stage f services p) h))
      ∙ loop-keeps_all stage f services t k p

  apply_stages-sets :
      (values : Dict (Dict String)) (services : List String) (p : Progress W) {q : Progress W}
      (t : String)
      → apply_stages api values services p ≡ done q
      → member services t ≡ true
      → get values t ≡ some (env_of q t)
  unfolding apply_stages
  apply_stages-sets values services p {q} t h m =
      let (c, upto, validated) =
        then-eq-done
          (stage_loop api draining api.drain services p
            then stage_loop api applying (replace_from api values) services
            then stage_loop api restarting api.restart services)
          (stage_loop api validating api.validate services) h in
      let (b, before, restarted) =
        then-eq-done
          (stage_loop api draining api.drain services p
            then stage_loop api applying (replace_from api values) services)
          (stage_loop api restarting api.restart services) upto in
      let (a, drained, replaced) =
        then-eq-done (stage_loop api draining api.drain services p)
          (stage_loop api applying (replace_from api values) services) before in
      let (w, reported, looped) =
        stage_loop-done api env law applying (replace_from api values) services a replaced in
      each-sets env (λ e. get values t ≡ some e) (replace_from api values) t
        (replace_from-Keeps api env law values t) (replace_from-sets api env law values t) services
        w m looped
      ∙ ap some (
          sym
            (kept_by restarting api.restart services t (λ w s. law.restart_keeps w s t) b restarted)
          ∙ sym (
              kept_by validating api.validate services t (λ w s. law.validate_keeps w s t) c
                validated))

  -- What a rollback that ended leaves, from the state that the failure left.
  abbrev pub IsRestored : Dict (Dict String) → List String → Progress W → Progress W → Type 0
  IsRestored prior services p q =
      (t : String)
      → (member services t ≡ true → get prior t ≡ some (env_of q t))
        × (member services t ≡ false → env_of q t ≡ env_of p t)

  -- The loop of the rollback, and a report after it.
  pub restoring-IsRestored :
      (prior : Dict (Dict String)) (services : List String) (p : Progress W) {q : Progress W}
      → stage_loop api rolling_back (restore_service api prior) services p ≡ done q
      → IsRestored prior services p q
  restoring-IsRestored prior services p {q} h t =
      let (w, reported, looped) =
        stage_loop-done api env law rolling_back (restore_service api prior) services p h in
      (
        λ m.
            each-sets env (λ e. get prior t ≡ some e) (restore_service api prior) t
              (restore_service-Keeps api env law prior t) (restore_service-sets api env law prior t)
              services w m looped,
        λ m.
            sym (ap (λ v. env v t) (left-done (each (restore_service api prior) services w) looped))
            ∙ each-Keeps env (restore_service api prior) t
                (restore_service-Keeps api env law prior t) services w m
            ∙ reported t,
      )

  pub reported-IsRestored :
      (stage : ControllerStage) (values : Dict (Dict String)) (services : List String)
      (p q : Progress W)
      → IsRestored values services p q
      → IsRestored values services p (left_by (report api stage q))
  reported-IsRestored stage values services p q v t =
      let same = report-keeps api env law stage q t in
      (λ m. (v t).0 m ∙ ap some (sym same), λ m. same ∙ (v t).1 m)

  after_rollback_restored :
      (m : Attempt (Progress W)) {q : Progress W}
      → after_rollback api m ≡ (q, restored)
      → m ≡ done q
  after_rollback_restored (done r) h = ap (λ x. done x.0) h
  after_rollback_restored (raised r) h = cc

  roll_back-IsRestored :
      (prior : Dict (Dict String)) (services : List String) (p : Progress W) {q : Progress W}
      → roll_back api prior services p ≡ (q, restored)
      → IsRestored prior services p q
  unfolding roll_back
  roll_back-IsRestored prior services p {q} h =
      let restoring = stage_loop api rolling_back (restore_service api prior) services p in
      let (r, looped, reported) =
        then-eq-done restoring (report api rolled_back)
          (after_rollback_restored (restoring then report api rolled_back) h) in
      subst (IsRestored prior services p) (left-done (report api rolled_back r) reported) (
        reported-IsRestored rolled_back prior services p r
          (restoring-IsRestored prior services p looped))

  after_report_applied :
      (m : Attempt (Progress W)) {q : Progress W} → after_report api m ≡ (q, applied) → m ≡ done q
  after_report_applied (done r) h = ap (λ x. done x.0) h
  after_report_applied (raised r) h = cc

  conclude_applied :
      (prior : Dict (Dict String)) (services : List String) (m : Attempt (Progress W))
      {q : Progress W}
      → conclude api prior services m ≡ (q, applied)
      → (r : Progress W) × (m ≡ done r) × (report api effective r ≡ done q)
  unfolding conclude roll_back
  conclude_applied prior services (done r) h =
      (r, refl, after_report_applied (report api effective r) h)
  conclude_applied prior services (raised r) h = absurd (
      never
        (stage_loop api rolling_back (restore_service api prior) services r
          then report api rolled_back)
        h)
    where
      never : (m : Attempt (Progress W)) {q : Progress W} → after_rollback api m ≡ (q, applied) → ⊥
      never (done r) h = cc
      never (raised r) h = cc

  conclude_restored :
      (prior : Dict (Dict String)) (services : List String) (m : Attempt (Progress W))
      {q : Progress W}
      → conclude api prior services m ≡ (q, restored)
      → roll_back api prior services (left_by m) ≡ (q, restored)
  unfolding conclude
  conclude_restored prior services (done r) h = absurd (never (report api effective r) h)
    where
      never : (m : Attempt (Progress W)) {q : Progress W} → after_report api m ≡ (q, restored) → ⊥
      never (done r) h = cc
      never (raised r) h = cc
  conclude_restored prior services (raised r) h = h

  pub apply_values-restored :
      (desired prior : Dict (Dict String)) (services : List String) (p : Progress W)
      {q : Progress W}
      → apply_values api desired prior services p ≡ (q, restored)
      → IsRestored prior services p q
  unfolding apply_values
  apply_values-restored desired prior services p h t =
      let undone =
        roll_back-IsRestored prior services (left_by (apply_stages api desired services p))
          (conclude_restored prior services (apply_stages api desired services p) h) t in
      (undone.0, (λ m. undone.1 m ∙ apply_stages-keeps desired services p t m))

  pub apply_values-applied :
      (desired prior : Dict (Dict String)) (services : List String) (p : Progress W)
      {q : Progress W}
      → apply_values api desired prior services p ≡ (q, applied)
      → IsRestored desired services p q
  unfolding apply_values
  apply_values-applied desired prior services p h =
      let (r, finished, reported) =
        conclude_applied prior services (apply_stages api desired services p) h in
      subst (IsRestored desired services p) (left-done (report api effective r) reported) (
        reported-IsRestored effective desired services p r (λ t. (
          apply_stages-sets desired services p t finished,
          λ m.
              sym (ap (λ x. env_of x t) (left-done (apply_stages api desired services p) finished))
              ∙ apply_stages-keeps desired services p t m,
        )))

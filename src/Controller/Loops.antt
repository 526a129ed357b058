-- ===== src/Controller/Loops.antt =====
-- controller.py: what the loops over the affected services do to the environments, for a runtime whose
-- calls change no environment but the one they replace.
use plug_and_play_local_rag.Base.{
  ◌≡◌, refl, sym, ap, ◌∙◌, subst, inl, inr, String, List, [], ◌∷◌, true, false, Option, none, some,
  arith, Bool-cases, str_eq, str_eq_iff, Dict, get, member,
}
use plug_and_play_local_rag.Controller.{
  Attempt, at_stage, replace_with, done, raised, left_by, ◌then◌, ControllerRuntime, Progress,
  ControllerStage, each, stage_loop, report, replace_from, restore_service,
}

-- What the controller relies on: draining, restarting, validating and reporting change no environment,
-- also when they raise; replacing sets the service's environment when it returns, and never touches another's.
pub record IsFaithful {W : Type 0} (api : ControllerRuntime W) (env : W → String → Dict String)
    : Type 0 where
  pub drain_keeps : (w : W) (s t : String) → env (left_by (api.drain w s)) t ≡ env w t
  pub restart_keeps : (w : W) (s t : String) → env (left_by (api.restart w s)) t ≡ env w t
  pub validate_keeps : (w : W) (s t : String) → env (left_by (api.validate w s)) t ≡ env w t
  pub stage_keeps :
      (w : W) (stage : ControllerStage) (t : String) → env (left_by (api.stage w stage)) t ≡ env w t
  pub replace_sets :
      (w v : W) (s : String) (e : Dict String)
      → api.replace_environment w s e ≡ done v
      → env v s ≡ e
  pub replace_keeps :
      (w : W) (s t : String) (e : Dict String)
      → str_eq s t ≡ false
      → env (left_by (api.replace_environment w s e)) t ≡ env w t

pub then-eq-done :
    {W : Type 0} (m : Attempt W) (f : W → Attempt W) {u : W}
    → (m then f) ≡ done u
    → (v : W) × (m ≡ done v) × (f v ≡ done u)
then-eq-done (done w) f h = (w, refl, h)
then-eq-done (raised w) f h = cc

pub left-done : {W : Type 0} (m : Attempt W) {v : W} → m ≡ done v → left_by m ≡ v
left-done m h = ap left_by h

pub at_stage-done :
    {W : Type 0} (stages : List ControllerStage) (m : Attempt W) {q : Progress W}
    → at_stage stages m ≡ done q
    → m ≡ done q.runtime
at_stage-done {W = W} stages (done w) h = ap (λ x. done (left_by {W = Progress W} x).runtime) h
at_stage-done stages (raised w) h = cc

at_stage-left :
    {W : Type 0} (stages : List ControllerStage) (m : Attempt W)
    → (left_by (at_stage stages m)).runtime ≡ left_by m
at_stage-left stages (done w) = refl
at_stage-left stages (raised w) = refl

module _ {W : Type 0} (env : W → String → Dict String) where
  abbrev pub Keeps : (W → String → Attempt W) → String → Type 0
  Keeps f t = (w : W) (s : String) → str_eq s t ≡ false → env (left_by (f w s)) t ≡ env w t

  pub then-keeps :
      (m : Attempt W) (f : W → Attempt W) (t : String) (e : Dict String)
      → env (left_by m) t ≡ e
      → ((w : W) → env w t ≡ e → env (left_by (f w)) t ≡ e)
      → env (left_by (m then f)) t ≡ e
  then-keeps (done w) f t e h k = k w h
  then-keeps (raised w) f t e h k = h

  pub each-Keeps :
      (f : W → String → Attempt W) (t : String)
      → Keeps f t
      → (l : List String) (w : W) → member l t ≡ false
      → env (left_by (each f l w)) t ≡ env w t
  unfolding each
  each-Keeps f t k [] w h = refl
  each-Keeps f t k (s ∷ l) w h =
      then-keeps (f w s) (each f l) t (env w t) (k w s (ground arith))
        (λ v e. each-Keeps f t k l v (ground arith) ∙ e)

  pub each-Keeps_all :
      (f : W → String → Attempt W) (t : String)
      → ((w : W) (s : String) → env (left_by (f w s)) t ≡ env w t)
      → (l : List String) (w : W) → env (left_by (each f l w)) t ≡ env w t
  unfolding each
  each-Keeps_all f t k [] w = refl
  each-Keeps_all f t k (s ∷ l) w =
      then-keeps (f w s) (each f l) t (env w t) (k w s) (λ v e. each-Keeps_all f t k l v ∙ e)

  -- A loop that returns has brought about, at each of its services, what one call there does.
  pub each-sets :
      (P : Dict String → Type 0) (f : W → String → Attempt W) (t : String)
      → Keeps f t
      → ((w v : W) → f w t ≡ done v → P (env v t))
      → (l : List String) (w : W) {u : W} → member l t ≡ true
      → each f l w ≡ done u
      → P (env u t)
  unfolding each
  each-sets P f t k sets [] w m h = cc
  each-sets P f t k sets (s ∷ l) w {u} m h =
      let (v, first, rest) = then-eq-done (f w s) (each f l) h in
      elim (Bool-cases (member l t)) [
        | inl again ↦ each-sets P f t k sets l v again rest
        | inr last ↦
            let here : s ≡ t = ground (arith, str_eq_iff s t) in
            let kept : env u t ≡ env v t =
              sym (ap (λ x. env x t) (left-done (each f l v) rest)) ∙ each-Keeps f t k l v last in
            subst P (sym kept) (sets w v (subst (λ x. f w x ≡ done v) here first))
      ]

module _ {W : Type 0} (api : ControllerRuntime W) (env : W → String → Dict String)
    (law : IsFaithful api env) where
  pub replace_from-Keeps :
      (values : Dict (Dict String)) (t : String) → Keeps env (replace_from api values) t
  unfolding replace_from
  replace_from-Keeps values t w s h = replaced (get values s)
    where
      replaced : (o : Option (Dict String)) → env (left_by (replace_with api w s o)) t ≡ env w t
      replaced none = refl
      replaced (some e) = law.replace_keeps w s t e h

  pub replace_from-sets :
      (values : Dict (Dict String)) (t : String) (w v : W)
      → replace_from api values w t ≡ done v
      → get values t ≡ some (env v t)
  unfolding replace_from
  replace_from-sets values t w v h = replaced (get values t) h
    where
      replaced : (o : Option (Dict String)) → replace_with api w t o ≡ done v → o ≡ some (env v t)
      replaced none g = cc
      replaced (some e) g = ap some (sym (law.replace_sets w v t e g))

  pub restore_service-Keeps :
      (values : Dict (Dict String)) (t : String) → Keeps env (restore_service api values) t
  unfolding restore_service
  restore_service-Keeps values t w s h =
      then-keeps env (replace_from api values w s)
        (λ v. api.restart v s then (λ u. api.validate u s)) t (env w t)
        (replace_from-Keeps values t w s h) (λ v e. restarted v ∙ e)
    where
      restarted : (v : W) → env (left_by (api.restart v s then (λ u. api.validate u s))) t ≡ env v t
      restarted v =
          then-keeps env (api.restart v s) (λ u. api.validate u s) t (env v t)
            (law.restart_keeps v s t) (λ u e. law.validate_keeps u s t ∙ e)

  pub restore_service-sets :
      (values : Dict (Dict String)) (t : String) (w v : W)
      → restore_service api values w t ≡ done v
      → get values t ≡ some (env v t)
  unfolding restore_service
  restore_service-sets values t w v h =
      let (a, replaced, rest) =
        then-eq-done (replace_from api values w t)
          (λ v. api.restart v t then (λ u. api.validate u t)) h in
      let (b, restarted, validated) = then-eq-done (api.restart a t) (λ u. api.validate u t) rest in
      let kept : env v t ≡ env a t =
        sym (ap (λ x. env x t) (left-done (api.validate b t) validated))
        ∙ law.validate_keeps b t t
        ∙ sym (ap (λ x. env x t) (left-done (api.restart a t) restarted))
        ∙ law.restart_keeps a t t in
      replace_from-sets values t w a replaced ∙ ap some (sym kept)

  pub report-keeps :
      (stage : ControllerStage) (p : Progress W) (t : String)
      → env (left_by (report api stage p)).runtime t ≡ env p.runtime t
  report-keeps stage p t =
      ap (λ w. env w t) (at_stage-left (stage ∷ p.stages) (api.stage p.runtime stage))
      ∙ law.stage_keeps p.runtime stage t

  -- A loop of calls that keep an environment.
  pub stage_loop-keeps :
      (stage : ControllerStage) (f : W → String → Attempt W) (services : List String) (t : String)
      → ((w : W) → env (left_by (each f services w)) t ≡ env w t)
      → (p : Progress W)
      → env (left_by (stage_loop api stage f services p)).runtime t ≡ env p.runtime t
  stage_loop-keeps stage f services t k p =
      then-keeps (λ (q : Progress W). env q.runtime) (report api stage p)
        (λ q. at_stage q.stages (each f services q.runtime)) t (env p.runtime t)
        (report-keeps stage p t)
        (λ q e.
          ap (λ w. env w t) (at_stage-left q.stages (each f services q.runtime)) ∙ k q.runtime ∙ e)

  -- A loop that returned began where the report left the runtime.
  pub stage_loop-done :
      (stage : ControllerStage) (f : W → String → Attempt W) (services : List String)
      (p : Progress W) {q : Progress W}
      → stage_loop api stage f services p ≡ done q
      → (w : W) × ((t : String) → env w t ≡ env p.runtime t) × (each f services w ≡ done q.runtime)
  stage_loop-done stage f services p h =
      let (r, reported, looped) =
        then-eq-done (report api stage p) (λ q. at_stage q.stages (each f services q.runtime)) h in
      (
        r.runtime,
        λ t.
            sym (ap (λ x. env x.runtime t) (left-done (report api stage p) reported))
            ∙ report-keeps stage p t,
        at_stage-done r.stages (each f services r.runtime) looped,
      )

-- ===== src/Controller/Outcomes.antt =====
-- controller.py, `apply`: what a configuration change leaves in every service's environment.
use plug_and_play_local_rag.Base.{
  ◌≡◌, refl, sym, ap, ◌∙◌, ◌⊎◌, ◌≢◌, inl, inr, String, List, [], ◌∷◌, true, false, some, arith,
  Bool-cases, str_eq_refl, if◌then◌else◌, is_empty, ok, Dict, get, member,
}
use plug_and_play_local_rag.Profiles.{RuntimeConfiguration, SignedProfileResolver, resolve}
use plug_and_play_local_rag.Controller.{
  Attempt, stage_loop, rolled_back, after_rollback, ◌then◌, done, raised, left_by, rolling_back,
  effective, same_option, after_preflight, ControllerRuntime, Progress, applied, restored,
  preflight, report, affected, each, restore_service, apply_stages, conclude, roll_back,
  apply_values, apply_resolved, apply,
}
use plug_and_play_local_rag.Controller.Affected.{member-affected}
use plug_and_play_local_rag.Controller.Loops.{IsFaithful, report-keeps}
use plug_and_play_local_rag.Controller.Rollback.{
  restoring-IsRestored, reported-IsRestored, apply_stages-keeps, IsRestored, apply_values-applied,
  apply_values-restored,
}

each-returns :
    {W : Type 0} (f : W → String → Attempt W) (l : List String)
    → ((w : W) (s : String) → member l s ≡ true → (v : W) × (f w s ≡ done v))
    → (w : W) → (u : W) × (each f l w ≡ done u)
unfolding each
each-returns f [] h w = (w, refl)
each-returns f (s ∷ l) h w =
    let (v, e) = h w s (ground (arith, str_eq_refl s)) in
    rw e (each-returns f l (λ x t m. h x t (ground arith)) v)

module _ {W : Type 0} (api : ControllerRuntime W) (env : W → String → Dict String)
    (law : IsFaithful api env) (resolver : SignedProfileResolver)
    (desired prior : RuntimeConfiguration) (dv pv : Dict (Dict String))
    (desired_ok : resolve resolver desired ≡ ok dv)
    (prior_ok : resolve resolver prior ≡ ok pv) where
  -- `apply` ends early, neither applied nor rolled back, or is the change after the first report.
  apply-split :
      (p : Progress W)
      → (((t : String) → env (apply api resolver desired prior p).0.runtime t ≡ env p.runtime t)
          × ((apply api resolver desired prior p).1 ≢ applied)
          × ((apply api resolver desired prior p).1 ≢ restored))
        ⊎ ((q : Progress W) × ((t : String) → env q.runtime t ≡ env p.runtime t)
            × (apply api resolver desired prior p ≡ apply_values api dv pv (affected dv pv) q))
  unfolding apply apply_resolved
  apply-split p =
      rw (desired_ok, prior_ok) (at (report api preflight p) (report-keeps api env law preflight p))
    where
      at :
          (m : Attempt (Progress W))
          → ((t : String) → env (left_by m).runtime t ≡ env p.runtime t)
          → (((t : String)
                → env (after_preflight api (ok dv) (ok pv) m).0.runtime t ≡ env p.runtime t)
              × ((after_preflight api (ok dv) (ok pv) m).1 ≢ applied)
              × ((after_preflight api (ok dv) (ok pv) m).1 ≢ restored))
            ⊎ ((q : Progress W) × ((t : String) → env q.runtime t ≡ env p.runtime t)
                × (after_preflight api (ok dv) (ok pv) m
                    ≡ apply_values api dv pv (affected dv pv) q))
      at (raised q) k = inl (k, λ e. cc, λ e. cc)
      at (done q) k = elim (Bool-cases (is_empty (affected dv pv))) [
        | inl empty ↦ rw empty (inl (k, λ e. cc, λ e. cc))
        | inr full ↦ rw full (inr (q, k, refl))
      ]

  either :
      (values : Dict (Dict String)) (new old : Dict String) (t : String)
      → (member (affected dv pv) t ≡ true → get values t ≡ some new)
        × (member (affected dv pv) t ≡ false → new ≡ old)
      → some new ≡ (if member (affected dv pv) t then get values t else some old)
  either values new old t (set, kept) = elim (Bool-cases (member (affected dv pv) t)) [
    | inl m ↦ rw m (sym (set m))
    | inr m ↦ rw m (ap some (kept m))
  ]

  -- A change that is reported as applied leaves every service whose resolved values differ with those
  -- that the desired configuration resolves to, and every other service with the environment it had.
  pub apply-applied :
      (p q : Progress W)
      → apply api resolver desired prior p ≡ (q, applied)
      → (t : String)
      → some (env q.runtime t)
        ≡ (if same_option (get dv t) (get pv t) then some (env p.runtime t) else get dv t)
  apply-applied p q h t = elim (apply-split p) [
    | inl (kept, other, e) ↦ absurd (other (ap (λ x. x.1) h))
    | inr (r, kept, e) ↦
        let changed =
          either dv (env q.runtime t) (env r.runtime t) t
            (apply_values-applied api env law dv pv (affected dv pv) r (sym e ∙ h) t) in
        ground (arith, changed, member-affected dv pv t, kept t)
  ]

  -- A change that fails and is reported as rolled back leaves every affected service with the
  -- environment that the prior configuration resolves to, and every other service with the one it had.
  pub apply-restored :
      (p q : Progress W)
      → apply api resolver desired prior p ≡ (q, restored)
      → (t : String)
      → some (env q.runtime t)
        ≡ (if member (affected dv pv) t then get pv t else some (env p.runtime t))
  apply-restored p q h t = elim (apply-split p) [
    | inl (kept, other, e) ↦ absurd (e (ap (λ x. x.1) h))
    | inr (r, kept, e) ↦
        let changed =
          either pv (env q.runtime t) (env r.runtime t) t
            (apply_values-restored api env law dv pv (affected dv pv) r (sym e ∙ h) t) in
        ground (arith, changed, kept t)
  ]

  -- A rollback that restored the services left those that ran with the prior values as they were.
  undone :
      (p q : Progress W)
      → ((t : String) (e : Dict String) → get pv t ≡ some e → env p.runtime t ≡ e)
      → IsRestored api env law pv (affected dv pv) p q
      → (t : String) → env q.runtime t ≡ env p.runtime t
  undone p q in_force v t = elim (Bool-cases (member (affected dv pv) t)) [
    | inl m ↦ sym (in_force t (env q.runtime t) ((v t).0 m))
    | inr m ↦ (v t).1 m
  ]

  after_rollback-left : (m : Attempt (Progress W)) → (after_rollback api m).0 ≡ left_by m
  after_rollback-left (done q) = refl
  after_rollback-left (raised q) = refl

  -- The loop of the rollback returns.
  restoring-returns :
      ((w : W) (s : String)
        → member (affected dv pv) s ≡ true
        → (v : W) × (restore_service api pv w s ≡ done v))
      → ((w : W) → (v : W) × (api.stage w rolling_back ≡ done v))
      → (p : Progress W)
      → (q : Progress W) × (stage_loop api rolling_back (restore_service api pv) (affected dv pv) p
          ≡ done q)
  restoring-returns restorable begins p =
      let (v, begun) = begins p.runtime in
      let (w, looped) = each-returns (restore_service api pv) (affected dv pv) restorable v in
      (record { runtime = w; stages = rolling_back ∷ p.stages }, rw begun (rw looped refl))

  -- After a failure, every service has the environment that it had before the change.
  failure-undone :
      (p r : Progress W)
      → ((t : String) (e : Dict String) → get pv t ≡ some e → env p.runtime t ≡ e)
      → ((w : W) (s : String)
          → member (affected dv pv) s ≡ true
          → (v : W) × (restore_service api pv w s ≡ done v))
      → ((w : W) → (v : W) × (api.stage w rolling_back ≡ done v))
      → apply_stages api dv (affected dv pv) p ≡ raised r
      → (t : String) → env (roll_back api pv (affected dv pv) r).0.runtime t ≡ env p.runtime t
  unfolding roll_back
  failure-undone p r in_force restorable begins failed t =
      let (u, looped) = restoring-returns restorable begins r in
      let left : (roll_back api pv (affected dv pv) r).0 ≡ left_by (report api rolled_back u) =
        after_rollback-left (
          stage_loop api rolling_back (restore_service api pv) (affected dv pv) r
          then report api rolled_back)
        ∙ ap (λ m. left_by (m then report api rolled_back)) looped in
      let from_failure = restoring-IsRestored api env law pv (affected dv pv) r looped in
      let from_begin : IsRestored api env law pv (affected dv pv) p u = λ j. (
        (from_failure j).0,
        λ m.
            (from_failure j).1 m
            ∙ sym (ap (λ x. env (left_by {W = Progress W} x).runtime j) failed)
            ∙ apply_stages-keeps api env law dv (affected dv pv) p j m,
      ) in
      ap (λ x. env x.runtime t) left
      ∙ undone p (left_by (report api rolled_back u)) in_force
          (reported-IsRestored api env law rolled_back pv (affected dv pv) p u from_begin) t

  -- If the services run with the prior values, in every state an affected service can be given its
  -- prior environment, restarted and validated, and the reports of the rollback's begin and of the
  -- change in effect do not raise, then a change is either applied, or leaves the environment of every
  -- service as it was.
  pub apply_or_restore :
      (p : Progress W)
      → ((t : String) (e : Dict String) → get pv t ≡ some e → env p.runtime t ≡ e)
      → ((w : W) (s : String)
          → member (affected dv pv) s ≡ true
          → (v : W) × (restore_service api pv w s ≡ done v))
      → ((w : W) → (v : W) × (api.stage w rolling_back ≡ done v))
      → ((w : W) → (v : W) × (api.stage w effective ≡ done v))
      → ((apply api resolver desired prior p).1 ≡ applied)
        ⊎ ((t : String) → env (apply api resolver desired prior p).0.runtime t ≡ env p.runtime t)
  unfolding apply_values conclude
  apply_or_restore p in_force restorable begins tells = elim (apply-split p) [
    | inl (kept, other, e) ↦ inr kept
    | inr (q, kept, e) ↦ rw e (by q kept (apply_stages api dv (affected dv pv) q) refl)
  ]
    where
      by :
          (q : Progress W)
          → ((t : String) → env q.runtime t ≡ env p.runtime t)
          → (m : Attempt (Progress W)) → apply_stages api dv (affected dv pv) q ≡ m
          → ((conclude api pv (affected dv pv) m).1 ≡ applied)
            ⊎ ((t : String)
                → env (conclude api pv (affected dv pv) m).0.runtime t ≡ env p.runtime t)
      by q kept (done r) ran = inl (rw ((tells r.runtime).1) refl)
      by q kept (raised r) ran = inr (λ t.
          failure-undone q r (λ j e g. kept j ∙ in_force j e g) restorable begins ran t ∙ kept t)

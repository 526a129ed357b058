-- ===== src/Manifest/Deployable.antt =====
-- manifest.py, `from_dict`: the manifests that are read, with the start order and the restart budget of
-- runtime.py.
use plug_and_play_local_rag.Base.{
  ℕ, zero, suc, ◌<◌, ◌≡◌, refl, sym, ◌∙◌, subst, ◌⊎◌, inl, inr, String, List, [], ◌∷◌, ◌++◌, map,
  true, false, not, ◌&&◌, Option, none, some, arith, leb, Bool-cases, str_eq, str_eq_iff, length,
  is_empty, All, Result, ok, err, >>=-eq-ok, raise_if-passes, >>-eq-ok, ok-injective, Dict, member,
}
use plug_and_play_local_rag.Budget.{RestartPolicy}
use plug_and_play_local_rag.Services.{
  ordered_services, by_name, Service as StartedService, OrderError, dependency_cycle,
  out_of_fuel as order_out_of_fuel,
}
use plug_and_play_local_rag.Services.Ordering.{InOrder, started, ordered_services-InOrder}
use plug_and_play_local_rag.Manifest.{Builtins, DeploymentManifest, manifest_error, type_error}
use plug_and_play_local_rag.Manifest.Contents.{
  DeploymentReadiness, from_dict, parse_readiness, required_checks,
}
use plug_and_play_local_rag.Json.{Json, as_text, is_unhashable, same_set}
use plug_and_play_local_rag.Budget.{decide, delay_index, expire, nth_delay, record_failure}
use plug_and_play_local_rag.Manifest.Parts.{from_dict-Parts}
use plug_and_play_local_rag.Manifest.Fields.{
  item, member_of, one_of, require_exact_keys, require_object, string_array,
}
use plug_and_play_local_rag.Manifest.Dependencies.{names, validate_all_names, validate_dependencies}
use plug_and_play_local_rag.Manifest.ListenerContract.{
  IsDeployable, IsPolicy, Within, validate_listeners-IsListener,
}
use plug_and_play_local_rag.Manifest.Contract.{
  parse_backup-none, parse_caddy_pinned, parse_policy-IsPolicy, parse_services_valid,
}
use plug_and_play_local_rag.Manifest.Peeling.{started_as, verdict}
use plug_and_play_local_rag.Manifest.Starting.{validate_dependencies-ordered_services}

pub one_of_cases :
    (a b : String) (value : Json) {s : String}
    → one_of (a ∷ b ∷ []) value ≡ ok s
    → (str_eq s a ≡ true) ⊎ (str_eq s b ≡ true)
unfolding one_of
one_of_cases a b value {s} h = elim (Bool-cases (is_unhashable value)) [
  | inl list ↦ absurd (let bad : err type_error ≡ ok s = sym (rw list refl) ∙ h in cc)
  | inr other ↦ at (as_text value) (sym (rw other refl) ∙ h)
]
  where
    at :
        (o : Option String)
        → member_of (a ∷ b ∷ []) o ≡ ok s
        → (str_eq s a ≡ true) ⊎ (str_eq s b ≡ true)
    at none h = cc
    at (some t) h = elim (Bool-cases (member (a ∷ b ∷ []) t)) [
      | inl listed ↦
          let same : t ≡ s = ok-injective (sym (rw listed refl) ∙ h) in
          subst (λ x. (str_eq x a ≡ true) ⊎ (str_eq x b ≡ true)) same
            (ground (arith, listed, str_eq_iff t a, str_eq_iff t b, str_eq_iff a t, str_eq_iff b t))
      | inr other ↦ absurd (let bad : err manifest_error ≡ ok s = sym (rw other refl) ∙ h in cc)
    ]

is_empty_nil : (l : List String) → is_empty l ≡ true → l ≡ []
is_empty_nil [] h = refl
is_empty_nil (s ∷ l) h = cc

parse_readiness_clear :
    (profile : String) (value : Json) {r : DeploymentReadiness}
    → parse_readiness profile value ≡ ok r
    → (r.1 ≡ []) × (same_set r.2 (required_checks profile) ≡ true)
unfolding parse_readiness
parse_readiness_clear profile value {r} h =
    let (readiness, e1, h1) = >>=-eq-ok (require_object value) _ h in
    let (keys, h2) =
      >>-eq-ok (require_exact_keys readiness ("state" ∷ "blockers" ∷ "prerequisite_checks" ∷ [])) _
        h1 in
    let (v1, e3, h3) = >>=-eq-ok (item readiness "state") _ h2 in
    let (state, e4, h4) = >>=-eq-ok (one_of ("installable" ∷ "installed" ∷ []) v1) _ h3 in
    let (v2, e5, h5) = >>=-eq-ok (item readiness "blockers") _ h4 in
    let (blockers, e6, h6) = >>=-eq-ok (string_array v2) _ h5 in
    let (v3, e7, h7) = >>=-eq-ok (item readiness "prerequisite_checks") _ h6 in
    let (checks, e8, h8) = >>=-eq-ok (string_array v3) _ h7 in
    let (complete, h9) =
      raise_if-passes (not (same_set checks (required_checks profile))) manifest_error _ h8 in
    let (first, h10) =
      raise_if-passes (str_eq state "installable" && not (is_empty blockers)) manifest_error _ h9 in
    let (second, h11) =
      raise_if-passes (str_eq state "installed" && not (is_empty blockers)) manifest_error _ h10 in
    let state_is = one_of_cases "installable" "installed" v1 e4 in
    subst (λ r. (r.1 ≡ []) × (same_set r.2 (required_checks profile) ≡ true)) (ok-injective h11)
      (
        is_empty_nil blockers (elim state_is [ inl e ↦ ground arith | inr e ↦ ground arith ]),
        ground arith,
      )

-- Every manifest that is read keeps the contract: its services are the seven required ones, each once,
-- of which only Caddy listens outside the loopback addresses or at port 443; the limits on restarts are
-- in range; no backup is configured; Caddy is the pinned release; nothing blocks the deployment, and
-- its checks are those of its profile.
pub from_dict-IsDeployable :
    (py : Builtins) (value : Dict Json) (m : DeploymentManifest)
    → from_dict py value ≡ ok m
    → IsDeployable py m
from_dict-IsDeployable py value m h =
    let parts = from_dict-Parts py value h in
    let (distinct, complete, listeners, dependencies) =
      parse_services_valid py m.product_profile parts.services_value parts.services_ok in
    (
      (distinct, complete, validate_listeners-IsListener py m.services listeners),
      parse_policy-IsPolicy parts.policy_value parts.policy_ok,
      parse_backup-none py parts.backup_value parts.backup_ok,
      parse_caddy_pinned py parts.caddy_value parts.caddy_ok,
      parse_readiness_clear m.product_profile parts.readiness_value parts.readiness_ok,
    )

verdict-ok :
    (r : Result OrderError (List StartedService))
    → verdict r ≡ ok tt
    → (out : List StartedService) × (r ≡ ok out)
verdict-ok (ok out) h = (out, refl)
verdict-ok (err dependency_cycle) h = cc
verdict-ok (err order_out_of_fuel) h = cc

-- The supervisor finds an order for the services of every manifest that is read, in which each service
-- comes after those it depends on and none is left out.
pub from_dict_starts :
    (py : Builtins) (value : Dict Json) (m : DeploymentManifest)
    → from_dict py value ≡ ok m
    → (out : List StartedService) × (ordered_services (map started_as m.services) ≡ ok out)
      × InOrder (by_name (map started_as m.services) []) [] out
      × All (λ e. member (started out []) e.0 ≡ true) (by_name (map started_as m.services) [])
unfolding validate_dependencies
from_dict_starts py value m h =
    let parts = from_dict-Parts py value h in
    let (distinct, complete, listeners, valid) =
      parse_services_valid py m.product_profile parts.services_value parts.services_ok in
    let (in_order, acyclic) = >>-eq-ok (validate_all_names (names m.services) m.services) _ valid in
    let (out, ordered) =
      verdict-ok (ordered_services (map started_as m.services))
        (sym (validate_dependencies-ordered_services m.services in_order) ∙ valid) in
    let (sorted, complete_order) =
      ordered_services-InOrder (map started_as m.services) out ordered in
    (out, ordered, sorted, complete_order)

nth_delay-Within :
    (l : List ℕ) (i : ℕ)
    → All (Within 1 300) l
    → i < length l
    → (d : ℕ) × (nth_delay l i ≡ some d) × Within 1 300 d
nth_delay-Within [] i h k = absurd (omega arith)
nth_delay-Within (d ∷ l) zero h k = (d, refl, h.0)
nth_delay-Within (d ∷ l) (suc i) h k = nth_delay-Within l i h.1 (omega arith)

decide-Within :
    (p : RestartPolicy) (attempts : List ℕ) (now : ℕ)
    → IsPolicy p
    → (decide p attempts now).0.allowed ≡ true
    → (d : ℕ) × ((decide p attempts now).0.delay_seconds ≡ some d) × Within 1 300 d
unfolding decide
decide-Within p attempts now v h = elim (Bool-cases (leb p.maximum_restarts (length attempts))) [
  | inl full ↦ absurd (let bad : false ≡ true = sym (rw full refl) ∙ h in cc)
  | inr free ↦
      let i = delay_index (attempts ++ now ∷ []) p.backoff_seconds in
      let (d, there, fits) = nth_delay-Within p.backoff_seconds i v.3 (omega (arith, v.2)) in
      (d, rw free there, fits)
]

-- With the restart policy of a manifest that is read, every restart that is allowed has its delay, of 1
-- to 300 seconds.
pub from_dict_delays :
    (py : Builtins) (value : Dict Json) (m : DeploymentManifest) (attempts : List ℕ) (now : ℕ)
    → from_dict py value ≡ ok m
    → (record_failure m.restart_policy attempts now).0.allowed ≡ true
    → (d : ℕ) × ((record_failure m.restart_policy attempts now).0.delay_seconds ≡ some d)
      × Within 1 300 d
unfolding record_failure
from_dict_delays py value m attempts now h allowed =
    let parts = from_dict-Parts py value h in
    decide-Within m.restart_policy (expire m.restart_policy.window_seconds now attempts) now
      (parse_policy-IsPolicy parts.policy_value parts.policy_ok) allowed

-- ===== src/Planning.antt =====
-- apps/supervisor/planning.py: the dry-run plan of an installation.
use plug_and_play_local_rag.Base.{
  ℕ, ◌≡◌, refl, ◌⊎◌, inl, inr, String, List, [], ◌∷◌, map, Bool, true, false, not, ◌&&◌, ◌||◌,
  Option, none, some, str_eq, str_eq_iff, all, ok, Dict,
}
use Prim.Native.String.{◌++◌ as ◌++ₛ◌}
use plug_and_play_local_rag.Manifest.{Builtins, DeploymentManifest}
use plug_and_play_local_rag.Json.{
  Json, array, boolean, elements_of, integer, members_of, object, text, texts,
}
use plug_and_play_local_rag.Manifest.{caddy_executable_sha256}
use plug_and_play_local_rag.Manifest.Rendering.{digest}
use plug_and_play_local_rag.Manifest.Contents.{from_dict}
use plug_and_play_local_rag.Manifest.Parts.{from_dict-Parts}
use plug_and_play_local_rag.Manifest.Deployable.{one_of_cases}
use plug_and_play_local_rag.Manifest.Contract.{parse_caddy_pinned}
use plug_and_play_local_rag.Manifest.SectionReading.{state_config_parts}

pub record PlanStep : Type 0 where
  pub sequence : ℕ
  pub action : String
  pub target : String
  pub privileged : Bool
  pub status : String
  pub detail : String

abbrev step : ℕ → String → String → Bool → String → String → PlanStep
step sequence action target privileged status detail = record {
  sequence = sequence;
  action = action;
  target = target;
  privileged = privileged;
  status = status;
  detail = detail;
}

-- str(value) of an optional text
abbrev shown : Option String → String
shown none = "None"
shown (some s) = s

abbrev caddy_status : Option String → String
caddy_status none = "blocked"
caddy_status (some sha) = "ready"

abbrev caddy_detail : Option String → Option String → String
caddy_detail version none = "Pin a Caddy version and SHA-256 before installation"
caddy_detail version (some sha) = "Verify Caddy " ++ₛ shown version ++ₛ " before installation"

-- `build_install_plan`
unfoldable pub build_install_plan : Builtins → DeploymentManifest → List PlanStep
build_install_plan py m =
    step 1 "verify" "manifest" false "ready"
      ("Validated deployment manifest SHA-256 " ++ₛ digest py m)
    ∷ step 2 "verify" "dependencies" false "planned"
        "Check Docker PostgreSQL/RustFS, native Ollama models, and isolated OCR"
    ∷ step 3 "provision" "service-identities-and-acls" true "attended"
        "Create least-privilege identities and apply explicit directory/secret ACLs"
    ∷ step 4 "provision" "private-ca-and-leaf-certificates" true "attended"
        "Generate local CA, rag.home.arpa leaf, and loopback mTLS identities; install trust explicitly"
    ∷ step 5 "install" "caddy" true (caddy_status m.caddy_sha256)
        (caddy_detail m.caddy_version m.caddy_sha256)
    ∷ step 6 "configure" "firewall" true "attended"
        "Allow inbound TCP 443 on Private only; create no Public rule"
    ∷ step 7 "install" "windows-service" true "attended"
        "Install the automatic-delayed own-process RagSupervisor service"
    ∷ step 8 "configure" "backup-schedule" true "not_configured"
        "Disabled until an administrator approves an encrypted external destination"
    ∷ step 9 "configure" "update-trust" true m.update_state
        "Pin an offline Ed25519 release key before update checks"
    ∷ step 10 "verify" "network-and-recovery" false "planned"
        "Prove Caddy is the only LAN listener, Public is closed, and rollback evidence is retained"
    ∷ []

-- asdict(item)
abbrev step_json : PlanStep → Json
step_json s = object (
    members_of (
      ("sequence", integer s.sequence)
      ∷ ("action", text s.action)
      ∷ ("target", text s.target)
      ∷ ("privileged", boolean s.privileged)
      ∷ ("status", text s.status)
      ∷ ("detail", text s.detail)
      ∷ []))

-- `plan_as_dict`
unfoldable pub plan_as_dict : Builtins → DeploymentManifest → Dict Json
unfolding build_install_plan
plan_as_dict py m =
    ("schema_version", integer 2)
    ∷ ("mode", text "dry_run")
    ∷ ("deployment_id", text m.deployment_id)
    ∷ ("manifest_sha256", text (digest py m))
    ∷ ("changes_applied", boolean false)
    ∷ ("idempotency_key", text (m.deployment_id ++ₛ ":" ++ₛ digest py m))
    ∷ (
      "deployment_readiness",
      object (
          members_of (
            ("state", text m.deployment_state)
            ∷ ("blockers", texts m.deployment_blockers)
            ∷ ("prerequisite_checks", texts m.prerequisite_checks)
            ∷ [])),
    )
    ∷ ("steps", array (elements_of (map step_json (build_install_plan py m))))
    ∷ []

-- No step is blocked; what is ready with privileges is the installation of Caddy; what an administrator
-- attends has privileges.
abbrev pub is_guarded : PlanStep → Bool
is_guarded s =
    not (str_eq s.status "blocked")
    && (not (s.privileged && str_eq s.status "ready") || str_eq s.target "caddy")
    && (not (str_eq s.status "attended") || s.privileged)

guarded_plan :
    (py : Builtins) (m : DeploymentManifest) (sha state : String)
    → m.caddy_sha256 ≡ some sha
    → m.update_state ≡ state
    → (state ≡ "not_configured") ⊎ (state ≡ "configured")
    → all is_guarded (build_install_plan py m) ≡ true
unfolding build_install_plan
guarded_plan py m sha state e1 e2 (inl e3) = rw (e1, e2, e3) refl
guarded_plan py m sha state e1 e2 (inr e3) = rw (e1, e2, e3) refl

-- The plan for a manifest that is read has its ten steps in order. None is blocked, the only step with
-- privileges that is ready is the installation of Caddy, and what is attended has privileges.
pub build_install_plan_guarded :
    (py : Builtins) (value : Dict Json) (m : DeploymentManifest)
    → from_dict py value ≡ ok m
    → (map (λ s. s.sequence) (build_install_plan py m)
        ≡ 1 ∷ 2 ∷ 3 ∷ 4 ∷ 5 ∷ 6 ∷ 7 ∷ 8 ∷ 9 ∷ 10 ∷ [])
      × (all is_guarded (build_install_plan py m) ≡ true)
unfolding build_install_plan
build_install_plan_guarded py value m h =
    let parts = from_dict-Parts py value h in
    let (version, archive, sha) = parse_caddy_pinned py parts.caddy_value parts.caddy_ok in
    let (state_ok, configured, agrees) =
      state_config_parts py "public_key_sha256" parts.updates_value
        (m.update_state, m.update_public_key_sha256) parts.updates_ok in
    let state_is : (m.update_state ≡ "not_configured") ⊎ (m.update_state ≡ "configured") =
      elim (one_of_cases "not_configured" "configured" (text m.update_state) state_ok) [
        | inl e ↦ inl ((str_eq_iff m.update_state "not_configured").0 e)
        | inr e ↦ inr ((str_eq_iff m.update_state "configured").0 e)
      ] in
    (refl, guarded_plan py m caddy_executable_sha256 m.update_state sha refl state_is)

-- ===== src/Manifest/Rendering.antt =====
-- manifest.py, `digest`: the value that the digest of a manifest is computed from.
use plug_and_play_local_rag.Base.{String, [], ◌∷◌, ◌++◌, map, str_eq, if◌then◌else◌, Dict}
use plug_and_play_local_rag.Json.{
  Json, text, array, object, integer, texts, optional_text, optional_integer, elements_of,
  members_of,
}
use plug_and_play_local_rag.Budget.{RestartPolicy}
use plug_and_play_local_rag.Manifest.{Service, DeploymentManifest, Builtins}

abbrev pub service_dict : Service → Dict Json
service_dict s =
    ("name", text s.name)
    ∷ ("executable", text s.executable)
    ∷ ("arguments", texts s.arguments)
    ∷ ("working_directory", text s.working_directory)
    ∷ ("identity", text s.identity)
    ∷ ("listen_host", optional_text s.listen_host)
    ∷ ("listen_port", optional_integer s.listen_port)
    ∷ ("dependencies", texts s.dependencies)
    ∷ ("environment_file", text s.environment_file)
    ∷ ("identity_secret_file", text s.identity_secret_file)
    ∷ ("environment_keys", texts s.environment_keys)
    ∷ (
      "readiness",
      object (
          members_of (
            ("url", optional_text s.readiness_url)
            ∷ ("token_environment", optional_text s.readiness_token_environment)
            ∷ ("timeout_seconds", integer s.readiness_timeout_seconds)
            ∷ [])),
    )
    ∷ []

abbrev pub service_json : Service → Json
service_json s = object (members_of (service_dict s))

abbrev pub policy_json : RestartPolicy → Json
policy_json p = object (
    members_of (
      ("maximum_restarts", integer p.maximum_restarts)
      ∷ ("window_seconds", integer p.window_seconds)
      ∷ ("backoff_seconds", array (elements_of (map integer p.backoff_seconds)))
      ∷ []))

-- `value`, without the product profile
abbrev pub sections : DeploymentManifest → Dict Json
sections m =
    ("schema_version", integer m.schema_version)
    ∷ ("deployment_id", text m.deployment_id)
    ∷ ("canonical_host", text m.canonical_host)
    ∷ ("firewall_profile", text m.firewall_profile)
    ∷ ("services", array (elements_of (map service_json m.services)))
    ∷ ("restart_policy", policy_json m.restart_policy)
    ∷ (
      "backup",
      object (
          members_of (
            ("state", text m.backup_state)
            ∷ ("destination", optional_text m.backup_destination)
            ∷ [])),
    )
    ∷ (
      "updates",
      object (
          members_of (
            ("state", text m.update_state)
            ∷ ("public_key_sha256", optional_text m.update_public_key_sha256)
            ∷ [])),
    )
    ∷ (
      "caddy",
      object (
          members_of (
            ("version", optional_text m.caddy_version)
            ∷ ("archive_sha512", optional_text m.caddy_archive_sha512)
            ∷ ("executable_sha256", optional_text m.caddy_sha256)
            ∷ [])),
    )
    ∷ (
      "deployment_readiness",
      object (
          members_of (
            ("state", text m.deployment_state)
            ∷ ("blockers", texts m.deployment_blockers)
            ∷ ("prerequisite_checks", texts m.prerequisite_checks)
            ∷ [])),
    )
    ∷ []

abbrev pub profile_entry : String → Dict Json
profile_entry profile =
    if str_eq profile "team_lan" then [] else ("product_profile", text profile) ∷ []

-- `value`, of which `digest` takes the SHA-256
unfoldable pub digest_value : DeploymentManifest → Dict Json
digest_value m = sections m ++ profile_entry m.product_profile

-- `digest`
unfoldable pub digest : Builtins → DeploymentManifest → String
unfolding digest_value
digest py m = py.json_sha256 (object (members_of (digest_value m)))

-- ===== src/Manifest/Contents.antt =====
-- manifest.py, `from_dict`: the whole manifest, section by section.
use plug_and_play_local_rag.Base.{
  ℕ, String, List, [], ◌∷◌, map, Bool, false, not, ◌&&◌, ◌||◌, Option, none, some, str_eq,
  if◌then◌else◌, is_empty, Result, ok, ◌>>=◌, ◌>>◌, raise_if, Dict, get, is_some,
}
use plug_and_play_local_rag.Json.{Json, as_array, same_set, equals_number, equals_text, text}
use plug_and_play_local_rag.Budget.{RestartPolicy}
use plug_and_play_local_rag.Manifest.Fields.{
  present, item, require_object, require_exact_keys, one_of, required_string, optional_string,
  optional_digest, read_all, string_array, bounded_integer, state_config, texts_distinct,
}
use plug_and_play_local_rag.Manifest.Services.{parse_service}
use plug_and_play_local_rag.Manifest.Listeners.{validate_listeners}
use plug_and_play_local_rag.Manifest.Dependencies.{validate_dependencies}
use plug_and_play_local_rag.Manifest.{
  Service, DeploymentManifest, ManifestError, manifest_error, Builtins, required_services,
  is_deployment_id, caddy_pinned_version, caddy_executable_sha256, caddy_archive_digest,
}

-- if not isinstance(services_value, list), and the tests of all services
unfoldable pub parse_services : Builtins → String → Json → Result ManifestError (List Service)
parse_services py profile value = do
  items ← present manifest_error (as_array value)
  services ← read_all (parse_service py profile) items
  raise_if (not (texts_distinct (map (λ s. s.name) services))) manifest_error
  raise_if (not (same_set (map (λ s. s.name) services) required_services)) manifest_error
  validate_listeners py services
  validate_dependencies services
  ok services

abbrev pub read_naturals : List Json → Result ManifestError (List ℕ)
read_naturals [] = ok []
read_naturals (value ∷ rest) = do
  n ← bounded_integer 1 300 value
  l ← read_naturals rest
  ok (n ∷ l)

-- A list that is not empty, of integers from 1 to 300
unfoldable pub parse_backoff : Json → Result ManifestError (List ℕ)
parse_backoff value = do
  items ← present manifest_error (as_array value)
  numbers ← read_naturals items
  raise_if (is_empty numbers) manifest_error
  ok numbers

-- The three values of the policy
unfoldable pub policy_values : Json → Result ManifestError (Json × Json × Json)
policy_values value = do
  policy ← require_object value
  require_exact_keys policy ("maximum_restarts" ∷ "window_seconds" ∷ "backoff_seconds" ∷ [])
  maximum_restarts ← item policy "maximum_restarts"
  window_seconds ← item policy "window_seconds"
  backoff ← item policy "backoff_seconds"
  ok (maximum_restarts, window_seconds, backoff)

unfoldable pub parse_policy : Json → Result ManifestError RestartPolicy
parse_policy value = do
  values ← policy_values value
  maximum_restarts ← bounded_integer 1 10 values.0
  window_seconds ← bounded_integer 60 3600 values.1
  backoff ← parse_backoff values.2
  ok (record {
    maximum_restarts = maximum_restarts;
    window_seconds = window_seconds;
    backoff_seconds = backoff;
  })

unfoldable pub parse_backup : Builtins → Json → Result ManifestError (String × Option String)
parse_backup py value = do
  (state, destination) ← state_config py "destination" value
  raise_if (not (str_eq state "not_configured") || is_some destination) manifest_error
  ok (state, destination)

abbrev pub is_pinned : String → Option String → Bool
is_pinned s none = false
is_pinned s (some t) = str_eq t s

-- The version and the two digests of Caddy.
abbrev pub Pins : Type 0
Pins = Option String × Option String × Option String

unfoldable pub parse_caddy : Builtins → Json → Result ManifestError Pins
parse_caddy py value = do
  caddy ← require_object value
  require_exact_keys caddy ("version" ∷ "archive_sha512" ∷ "executable_sha256" ∷ [])
  version_value ← item caddy "version"
  version ← optional_string py version_value
  archive_value ← item caddy "archive_sha512"
  archive ← optional_digest py 128 archive_value
  executable_value ← item caddy "executable_sha256"
  executable ← optional_digest py 64 executable_value
  raise_if
      (not (is_pinned caddy_pinned_version version)
        || not (is_pinned caddy_archive_digest archive)
        || not (is_pinned caddy_executable_sha256 executable))
      manifest_error
  ok (version, archive, executable)

abbrev pub common_checks : List String
common_checks =
    "elevated_installer" ∷ "dependency_evidence" ∷ "caddy_artifact_hash" ∷ "openssl_artifact_hash"
    ∷ "service_accounts_and_acls" ∷ "private_ca_and_leaf_certificates"
    ∷ "certificate_semantics_and_renewal" ∷ "firewall_rule" ∷ "ocr_outbound_firewall"
    ∷ "rag_supervisor_service" ∷ "full_graph_network_evidence" ∷ []

abbrev pub required_checks : String → List String
required_checks profile =
    if str_eq profile "team_lan_preview_unsigned"
    then "unsigned_inventory" ∷ "preview_profile_isolation" ∷ "rfc1918_ipv4" ∷ common_checks
    else "signed_release_chain" ∷ common_checks

-- The state of the deployment, what blocks it, and the checks before it.
abbrev pub DeploymentReadiness : Type 0
DeploymentReadiness = String × List String × List String

unfoldable pub parse_readiness : String → Json → Result ManifestError DeploymentReadiness
parse_readiness profile value = do
  readiness ← require_object value
  require_exact_keys readiness ("state" ∷ "blockers" ∷ "prerequisite_checks" ∷ [])
  state_value ← item readiness "state"
  state ← one_of ("installable" ∷ "installed" ∷ []) state_value
  blockers_value ← item readiness "blockers"
  blockers ← string_array blockers_value
  checks_value ← item readiness "prerequisite_checks"
  prerequisite_checks ← string_array checks_value
  raise_if (not (same_set prerequisite_checks (required_checks profile))) manifest_error
  raise_if (str_eq state "installable" && not (is_empty blockers)) manifest_error
  raise_if (str_eq state "installed" && not (is_empty blockers)) manifest_error
  ok (state, blockers, prerequisite_checks)

-- value.get("product_profile", "team_lan")
abbrev pub profile_value : Option Json → Json
profile_value none = text "team_lan"
profile_value (some v) = v

abbrev pub root_keys : List String
root_keys =
    "schema_version" ∷ "deployment_id" ∷ "canonical_host" ∷ "firewall_profile" ∷ "services"
    ∷ "restart_policy" ∷ "backup" ∷ "updates" ∷ "caddy" ∷ "deployment_readiness" ∷ []

abbrev pub allowed_keys : Option Json → List String
allowed_keys none = root_keys
allowed_keys (some v) = "product_profile" ∷ root_keys

-- The product profile and the identifier of the deployment.
unfoldable pub parse_root : Builtins → Dict Json → Result ManifestError (String × String)
parse_root py value = do
  require_exact_keys value (allowed_keys (get value "product_profile"))
  profile ←
      one_of ("team_lan" ∷ "team_lan_preview_unsigned" ∷ [])
        (profile_value (get value "product_profile"))
  schema_value ← item value "schema_version"
  raise_if (not (equals_number schema_value 2)) manifest_error
  host_value ← item value "canonical_host"
  raise_if (not (equals_text host_value "rag.home.arpa")) manifest_error
  firewall_value ← item value "firewall_profile"
  raise_if (not (equals_text firewall_value "Private")) manifest_error
  id_value ← item value "deployment_id"
  deployment_id ← required_string py id_value
  raise_if (not (is_deployment_id deployment_id)) manifest_error
  ok (profile, deployment_id)

abbrev assemble :
    String × String
    → List Service
    → RestartPolicy
    → String × Option String
    → String × Option String
    → Pins
    → DeploymentReadiness
    → DeploymentManifest
assemble root services policy backup updates caddy readiness = record {
  schema_version = 2;
  deployment_id = root.1;
  canonical_host = "rag.home.arpa";
  firewall_profile = "Private";
  services = services;
  restart_policy = policy;
  backup_state = backup.0;
  backup_destination = backup.1;
  update_state = updates.0;
  update_public_key_sha256 = updates.1;
  caddy_version = caddy.0;
  caddy_archive_sha512 = caddy.1;
  caddy_sha256 = caddy.2;
  deployment_state = readiness.0;
  deployment_blockers = readiness.1;
  prerequisite_checks = readiness.2;
  product_profile = root.0;
}

-- `from_dict`
unfoldable pub from_dict : Builtins → Dict Json → Result ManifestError DeploymentManifest
from_dict py value = do
  root ← parse_root py value
  services_value ← item value "services"
  services ← parse_services py root.0 services_value
  policy_value ← item value "restart_policy"
  policy ← parse_policy policy_value
  backup_value ← item value "backup"
  backup ← parse_backup py backup_value
  updates_value ← item value "updates"
  updates ← state_config py "public_key_sha256" updates_value
  caddy_value ← item value "caddy"
  caddy ← parse_caddy py caddy_value
  readiness_value ← item value "deployment_readiness"
  readiness ← parse_readiness root.0 readiness_value
  ok (assemble root services policy backup updates caddy readiness)

-- `load`, from the value that `json.loads` gives
unfoldable pub load : Builtins → Json → Result ManifestError DeploymentManifest
load py value = do fields ← require_object value; from_dict py fields

-- `assert_runnable`
unfoldable pub assert_runnable : DeploymentManifest → Result ManifestError Unit
assert_runnable m = raise_if (not (str_eq m.deployment_state "installed")) manifest_error

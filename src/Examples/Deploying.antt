-- ===== src/Examples/Deploying.antt =====
-- A deployment manifest, its plan, and manifests that are refused.
use plug_and_play_local_rag.Base.{
  ℕ, suc, ◌≡◌, refl, String, List, [], ◌∷◌, ◌++◌, map, Bool, true, false, Option, none, some, arith,
  str_eq, if◌then◌else◌, all, All, ok, err, Dict, get, put, remove, member,
}
use Prim.Native.String.{[] as empty, ◌∷◌ as ◌∷ₛ◌, ◌++◌ as ◌++ₛ◌}
use plug_and_play_local_rag.Services.{Service as StartedService, by_name, ordered_services}
use plug_and_play_local_rag.Services.Ordering.{InOrder, started}
use plug_and_play_local_rag.Budget.{expire, decide, record_failure}
use plug_and_play_local_rag.Planning.{is_guarded, build_install_plan, build_install_plan_guarded}
use plug_and_play_local_rag.Manifest.{
  Builtins, DeploymentManifest, Service, Url, caddy_archive_digest, caddy_executable_sha256,
  caddy_pinned_version, is_deployment_id, is_environment_name, is_service_identity, manifest_error,
  type_error,
}
use plug_and_play_local_rag.Manifest.Reading.{HexLaws}
use plug_and_play_local_rag.Manifest.ListenerContract.{IsDeployable, Within}
use plug_and_play_local_rag.Json.{Json, members_of, object, text, texts}
use plug_and_play_local_rag.Manifest.Fields.{
  bounded_integer, hex_digest, is_hex_digest, one_of, optional_digest, optional_string,
  require_exact_keys, required_string, state_config, string_array,
}
use plug_and_play_local_rag.Manifest.Services.{
  caddy_misplaced, check_caddy, check_identity, environment_keys_of, listener, match_listener,
  parse_service, readiness_of, service_head, service_place, service_surroundings, split_readiness,
}
use plug_and_play_local_rag.Manifest.Rendering.{digest_value, sections}
use plug_and_play_local_rag.Manifest.Contents.{
  from_dict, parse_backoff, parse_backup, parse_caddy, parse_policy, parse_readiness, parse_root,
  parse_services, policy_values, required_checks,
}
use plug_and_play_local_rag.Manifest.Deployable.{
  from_dict-IsDeployable, from_dict_delays, from_dict_starts,
}
use plug_and_play_local_rag.Manifest.Rereading.{from_dict-digest_value}
use plug_and_play_local_rag.Manifest.Dependencies.{
  peel, validate_all_names, validate_dependencies, validate_names,
}
use plug_and_play_local_rag.Manifest.Peeling.{started_as, verdict}
use plug_and_play_local_rag.Manifest.Starting.{validate_dependencies-ordered_services}
use plug_and_play_local_rag.Manifest.Listeners.{validate_listener, validate_listeners}

abbrev join_path : List String → String
join_path [] = ""
join_path (n ∷ []) = n
join_path (n ∷ m ∷ l) = n ++ₛ "\\" ++ₛ join_path (m ∷ l)

abbrev release : List String
release = "LocalRAG" ∷ "signed-stage" ∷ "release-1" ∷ []

abbrev release_path : String
release_path = "C:\\LocalRAG\\signed-stage\\release-1"

abbrev probe_url : String
probe_url = "http://127.0.0.1:8000/health"

abbrev probe : Url
probe = record {
  scheme = "http";
  hostname = some "127.0.0.1";
  username = none;
  password = none;
  fragment = "";
  port = some (some 8000);
}

abbrev has_no_character : String → Bool
has_no_character empty = true
has_no_character (c ∷ₛ s) = false

-- The standard library on the texts of the manifest, of which none has a capital letter that counts.
abbrev python : Builtins
python = record {
  is_blank = has_no_character;
  lower = λ s. s;
  upper = λ s. s;
  casefold = λ s. s;
  windows_path = λ s. record {
    drive = "C:";
    root = "\\";
    tail = if str_eq s release_path then release else release ++ "caddy.exe" ∷ [];
  };
  path_text = λ p. p.drive ++ₛ p.root ++ₛ join_path p.tail;
  urlsplit = λ s. if str_eq s probe_url then some probe else none;
  is_loopback = λ s. none;
  json_sha256 = λ v. "0a";
}

python_laws : HexLaws python
python_laws = record { lower_hex = λ s h. refl; hex_not_blank = not_blank }
  where
    not_blank : (n : ℕ) (s : String) → is_hex_digest (suc n) s ≡ true → has_no_character s ≡ false
    not_blank n empty h = absurd (ground (arith, h))
    not_blank n (c ∷ₛ s) h = refl

abbrev service : String → List String → Option String → Option ℕ → Option String → Service
service name dependencies host port url = record {
  name = name;
  executable = "C:\\LocalRAG\\bin\\" ++ₛ name;
  arguments = "serve" ∷ [];
  working_directory = "C:\\LocalRAG";
  identity = ".\\RagWorkSvc";
  listen_host = host;
  listen_port = port;
  dependencies = dependencies;
  environment_file = "C:\\LocalRAG\\env";
  identity_secret_file = "C:\\LocalRAG\\secret";
  environment_keys = "RAG_TOKEN" ∷ [];
  readiness_url = url;
  readiness_token_environment = some "RAG_TOKEN";
  readiness_timeout_seconds = 15;
}

abbrev caddy : Service
caddy = record (service "caddy" ("web" ∷ "api" ∷ []) (some "0.0.0.0") (some 443) none) {
  executable = "C:\\LocalRAG\\signed-stage\\release-1\\caddy.exe";
  working_directory = release_path;
  arguments = "run" ∷ "--config" ∷ "C:\\LocalRAG\\signed-stage\\release-1\\Caddyfile" ∷ [];
}

abbrev api : List String → Service
api dependencies = service "api" dependencies (some "127.0.0.1") (some 8000) (some probe_url)

abbrev manifest : List String → DeploymentManifest
manifest api_dependencies = record {
  schema_version = 2;
  deployment_id = "office-1";
  canonical_host = "rag.home.arpa";
  firewall_profile = "Private";
  services =
      caddy
      ∷ service "web" ("api" ∷ []) (some "localhost") (some 3000) none
      ∷ api api_dependencies
      ∷ service "ingestion" ("inference" ∷ "ocr" ∷ []) none none none
      ∷ service "deletion" [] none none none
      ∷ service "inference" [] (some "::1") (some 8100) none
      ∷ service "ocr" [] none none none
      ∷ [];
  restart_policy = record {
    maximum_restarts = 3;
    window_seconds = 600;
    backoff_seconds = 5 ∷ 30 ∷ [];
  };
  backup_state = "not_configured";
  backup_destination = none;
  update_state = "not_configured";
  update_public_key_sha256 = none;
  caddy_version = some caddy_pinned_version;
  caddy_archive_sha512 = some caddy_archive_digest;
  caddy_sha256 = some caddy_executable_sha256;
  deployment_state = "installed";
  deployment_blockers = [];
  prerequisite_checks = required_checks "team_lan";
  product_profile = "team_lan";
}

-- The JSON object, with its profile given.
abbrev written : List String → Dict Json
written api_dependencies =
    sections (manifest api_dependencies) ++ ("product_profile", text "team_lan") ∷ []

manifest_is_read : from_dict python (written ("inference" ∷ [])) ≡ ok (manifest ("inference" ∷ []))
unfolding from_dict parse_root parse_services parse_policy policy_values parse_backoff parse_backup
    parse_caddy parse_readiness state_config require_exact_keys one_of required_string
    optional_string hex_digest optional_digest string_array bounded_integer parse_service
    service_head service_surroundings service_place check_identity check_caddy caddy_misplaced
    environment_keys_of readiness_of split_readiness listener match_listener validate_listeners
    validate_listener validate_dependencies validate_all_names validate_names peel is_deployment_id
    is_service_identity is_environment_name get put remove
manifest_is_read = refl

cycle_is_refused : from_dict python (written ("caddy" ∷ [])) ≡ err manifest_error
unfolding from_dict parse_root parse_services parse_policy policy_values parse_backoff parse_backup
    parse_caddy parse_readiness state_config require_exact_keys one_of required_string
    optional_string hex_digest optional_digest string_array bounded_integer parse_service
    service_head service_surroundings service_place check_identity check_caddy caddy_misplaced
    environment_keys_of readiness_of split_readiness listener match_listener validate_listeners
    validate_listener validate_dependencies validate_all_names validate_names peel is_deployment_id
    is_service_identity is_environment_name get put remove
cycle_is_refused = refl

-- A list in place of the state raises a TypeError, which is no ManifestError.
unhashable_state :
    parse_readiness "team_lan" (
      object (
        members_of
          (("state", texts []) ∷ ("blockers", texts []) ∷ ("prerequisite_checks", texts []) ∷ [])))
    ≡ err type_error
unfolding parse_readiness require_exact_keys one_of get
unhashable_state = refl

from_dict-IsDeployable_example : IsDeployable python (manifest ("inference" ∷ []))
from_dict-IsDeployable_example =
    from_dict-IsDeployable python (written ("inference" ∷ [])) (manifest ("inference" ∷ []))
      manifest_is_read

from_dict_starts_example :
    (out : List StartedService) × (ordered_services
        (map started_as (manifest ("inference" ∷ [])).services)
      ≡ ok out)
    × InOrder (by_name (map started_as (manifest ("inference" ∷ [])).services) []) [] out
    × All
        (λ e. member (started out []) e.0 ≡ true)
        (by_name (map started_as (manifest ("inference" ∷ [])).services) [])
from_dict_starts_example =
    from_dict_starts python (written ("inference" ∷ [])) (manifest ("inference" ∷ []))
      manifest_is_read

validate_dependencies-ordered_services_example :
    validate_dependencies (manifest ("inference" ∷ [])).services
    ≡ verdict (ordered_services (map started_as (manifest ("inference" ∷ [])).services))
unfolding validate_all_names validate_names
validate_dependencies-ordered_services_example =
    validate_dependencies-ordered_services (manifest ("inference" ∷ [])).services refl

from_dict_delays_example :
    (d : ℕ) × ((record_failure
        (manifest ("inference" ∷ [])).restart_policy
        (100 ∷ [])
        200).0.delay_seconds
      ≡ some d)
    × Within 1 300 d
unfolding record_failure expire decide
from_dict_delays_example =
    from_dict_delays python (written ("inference" ∷ [])) (manifest ("inference" ∷ [])) (100 ∷ [])
      200 manifest_is_read refl

from_dict-digest_value_example :
    from_dict python (digest_value (manifest ("inference" ∷ []))) ≡ ok (manifest ("inference" ∷ []))
from_dict-digest_value_example =
    from_dict-digest_value python python_laws (written ("inference" ∷ []))
      (manifest ("inference" ∷ [])) manifest_is_read

build_install_plan_guarded_example :
    (map (λ s. s.sequence) (build_install_plan python (manifest ("inference" ∷ [])))
      ≡ 1 ∷ 2 ∷ 3 ∷ 4 ∷ 5 ∷ 6 ∷ 7 ∷ 8 ∷ 9 ∷ 10 ∷ [])
    × (all is_guarded (build_install_plan python (manifest ("inference" ∷ []))) ≡ true)
build_install_plan_guarded_example =
    build_install_plan_guarded python (written ("inference" ∷ [])) (manifest ("inference" ∷ []))
      manifest_is_read

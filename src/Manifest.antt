-- ===== src/Manifest.antt =====
-- apps/supervisor/manifest.py: the deployment manifest, read from a JSON value. An error is its class;
-- the messages are not modelled, nor is the file that `load` reads.
pub mod Fields
pub mod Services
pub mod Listeners
pub mod Dependencies
pub mod Contents
pub mod Rendering
pub mod Peeling
pub mod Starting
pub mod Parts
pub mod ListenerContract
pub mod Contract
pub mod Deployable
pub mod Reading
pub mod FieldReading
pub mod ServiceReading
pub mod PolicyReading
pub mod SectionReading
pub mod Rereading
use plug_and_play_local_rag.Base.{
  ℕ, String, List, [], ◌∷◌, Bool, false, not, ◌&&◌, ◌||◌, Option, none, some, leb, after_prefix,
  ends_with, is_digit, is_upper, is_lower, is_one_of, each_char, full_match,
}
use plug_and_play_local_rag.Json.{Json}
use Prim.Native.String.{count}
use Prim.Native.Char.{Char}
use plug_and_play_local_rag.Budget.{RestartPolicy}

pub record Service : Type 0 where
  pub name : String
  pub executable : String
  pub arguments : List String
  pub working_directory : String
  pub identity : String
  pub listen_host : Option String
  pub listen_port : Option ℕ
  pub dependencies : List String
  pub environment_file : String
  pub identity_secret_file : String
  pub environment_keys : List String
  pub readiness_url : Option String
  pub readiness_token_environment : Option String
  pub readiness_timeout_seconds : ℕ

pub record DeploymentManifest : Type 0 where
  pub schema_version : ℕ
  pub deployment_id : String
  pub canonical_host : String
  pub firewall_profile : String
  pub services : List Service
  pub restart_policy : RestartPolicy
  pub backup_state : String
  pub backup_destination : Option String
  pub update_state : String
  pub update_public_key_sha256 : Option String
  pub caddy_version : Option String
  pub caddy_archive_sha512 : Option String
  pub caddy_sha256 : Option String
  pub deployment_state : String
  pub deployment_blockers : List String
  pub prerequisite_checks : List String
  pub product_profile : String

-- The exceptions: `ManifestError`; the `KeyError` of a key that is not there; the `TypeError` of an
-- array or an object that is looked up in a set; the `ValueError` of a URL that cannot be parsed. The
-- fuel of the loop over the dependencies is the number of services.
pub data ManifestError : Type 0 where
  manifest_error key_error type_error value_error out_of_fuel : ManifestError

-- `PureWindowsPath`: its drive, its root, and the names after them.
pub record WindowsPath : Type 0 where
  pub drive : String
  pub root : String
  pub tail : List String

-- `urlsplit`; reading the port raises a ValueError where the field is `none`.
pub record Url : Type 0 where
  pub scheme : String
  pub hostname : Option String
  pub username : Option String
  pub password : Option String
  pub fragment : String
  pub port : Option (Option ℕ)

-- What Python's standard library computes from a text: `not s.strip()`, the letter cases,
-- `PureWindowsPath(s)` and `str` of it, `urlsplit(s)` with `none` for its ValueError,
-- `ip_address(s).is_loopback` with `none` for its ValueError, and the hexadecimal SHA-256 of
-- `json.dumps` of a value.
pub record Builtins : Type 0 where
  pub is_blank : String → Bool
  pub lower : String → String
  pub upper : String → String
  pub casefold : String → String
  pub windows_path : String → WindowsPath
  pub path_text : WindowsPath → String
  pub urlsplit : String → Option Url
  pub is_loopback : String → Option Bool
  pub json_sha256 : Json → String

abbrev pub loopback_hosts : List String
loopback_hosts = "127.0.0.1" ∷ "::1" ∷ "localhost" ∷ []

abbrev pub required_services : List String
required_services = "caddy" ∷ "web" ∷ "api" ∷ "ingestion" ∷ "deletion" ∷ "inference" ∷ "ocr" ∷ []

abbrev pub is_letter_or_digit : Char → Bool
is_letter_or_digit c = is_upper c || is_lower c || is_digit c

-- DEPLOYMENT_ID_PATTERN: ^[A-Za-z0-9][A-Za-z0-9_.-]{0,63}$
unfoldable pub is_deployment_id : String → Bool
is_deployment_id =
    full_match is_letter_or_digit (λ c. is_letter_or_digit c || is_one_of (95 ∷ 46 ∷ 45 ∷ []) c) 0
      63

abbrev pub is_service_name : Option String → Bool
is_service_name none = false
is_service_name (some s) = each_char is_letter_or_digit s && ends_with "Svc" s && leb 4 (count s)

-- SERVICE_IDENTITY_PATTERN: ^\.\\Rag[A-Za-z0-9]+Svc$
unfoldable pub is_service_identity : String → Bool
is_service_identity s = is_service_name (after_prefix ".\\Rag" s)

-- ENVIRONMENT_NAME_PATTERN: ^[A-Z][A-Z0-9_]{0,127}$
unfoldable pub is_environment_name : String → Bool
is_environment_name =
    full_match is_upper (λ c. is_upper c || is_digit c || is_one_of (95 ∷ []) c) 0 127

abbrev pub caddy_pinned_version : String
caddy_pinned_version = "2.11.3"

abbrev pub caddy_executable_sha256 : String
caddy_executable_sha256 = "67514bc0449ae9b1465cf3d59ab269cb451e8ed88d991e461b24d1337b67f536"

abbrev pub caddy_archive_digest : String
caddy_archive_digest =
    "338f5557a1554677875b79dbc4b10d008781111ad29223811e64217936fa5d58602ddd54724ef1cb1473b7ec07805cf5286d6aa1e810febde7e36daf497d791f"

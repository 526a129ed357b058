-- ===== src/Manifest/Services.antt =====
-- manifest.py, `_parse_service`: one service of the manifest.
use plug_and_play_local_rag.Base.{
  ℕ, String, List, [], ◌∷◌, ◌++◌, map, Bool, true, false, not, ◌&&◌, ◌||◌, Option, none, some, ◌==◌,
  str_eq, if◌then◌else◌, all, Result, ok, err, ◌>>=◌, ◌>>◌, raise_if, Dict, is_some, member,
  starts_with,
}
use Prim.Native.String.{◌++◌ as ◌++ₛ◌}
use plug_and_play_local_rag.Json.{Json, is_null}
use plug_and_play_local_rag.Manifest.Fields.{
  present, item, require_object, require_exact_keys, required_string, optional_string, string_array,
  bounded_integer, texts_distinct, same_bool,
}
use plug_and_play_local_rag.Manifest.{
  Service, ManifestError, manifest_error, value_error, WindowsPath, Url, Builtins, loopback_hosts,
  is_service_identity, is_environment_name,
}

-- path.name, path.parent, path.parts, path / name, and path == other, which has no regard to case
abbrev last_of : String → List String → String
last_of n [] = n
last_of n (m ∷ l) = last_of m l

abbrev pub path_name : WindowsPath → String
path_name p = last_of "" p.tail

abbrev without_last : List String → List String
without_last [] = []
without_last (n ∷ []) = []
without_last (n ∷ m ∷ l) = n ∷ without_last (m ∷ l)

abbrev pub path_parent : WindowsPath → WindowsPath
path_parent p = record p { tail = without_last p.tail }

abbrev pub path_parts : WindowsPath → List String
path_parts p =
    if str_eq p.drive "" && str_eq p.root "" then p.tail else (p.drive ++ₛ p.root) ∷ p.tail

abbrev path_below : WindowsPath → String → WindowsPath
path_below p n = record p { tail = p.tail ++ n ∷ [] }

abbrev same_path : Builtins → WindowsPath → WindowsPath → Bool
same_path py p q = str_eq (py.lower (py.path_text p)) (py.lower (py.path_text q))

abbrev pub same_texts : List String → List String → Bool
same_texts [] [] = true
same_texts [] (t ∷ m) = false
same_texts (s ∷ l) [] = false
same_texts (s ∷ l) (t ∷ m) = str_eq s t && same_texts l m

-- The release that the executable of Caddy stands in.
unfoldable pub caddy_misplaced : Builtins → String → WindowsPath → WindowsPath → List String → Bool
caddy_misplaced py product_profile executable_path work_path arguments =
    not (str_eq (py.casefold (path_name executable_path)) "caddy.exe")
    || not (same_path py (path_parent executable_path) work_path)
    || (str_eq product_profile "team_lan"
        && (not (member (map py.casefold (path_parts work_path)) "signed-stage")
            || not (starts_with "release-" (path_name work_path))))
    || (str_eq product_profile "team_lan_preview_unsigned"
        && not (same_path py work_path (py.windows_path "C:\\Program Files\\LocalRAG\\current")))
    || not (
        same_texts arguments
          ("run" ∷ "--config" ∷ py.path_text (path_below work_path "Caddyfile") ∷ []))

unfoldable pub check_identity : Builtins → String → Result ManifestError Unit
check_identity py identity = do
  raise_if (starts_with "NT SERVICE\\" (py.upper identity)) manifest_error
  raise_if (not (is_service_identity identity)) manifest_error

unfoldable pub check_caddy :
    Builtins → String → String → String → String → List String → Result ManifestError Unit
check_caddy py product_profile name executable working_directory arguments =
    raise_if
      (str_eq name "caddy"
        && caddy_misplaced py product_profile (py.windows_path executable)
            (py.windows_path working_directory) arguments)
      manifest_error

unfoldable pub environment_keys_of : Json → Result ManifestError (List String)
environment_keys_of value = do
  keys ← string_array value
  raise_if
      (not (texts_distinct keys)
        || not (all is_environment_name keys)
        || member keys "RAG_WINDOWS_ACCOUNT_PASSWORD")
      manifest_error
  ok keys

abbrev pub is_listed : Option String → List String → Bool
is_listed none l = true
is_listed (some s) l = member l s

abbrev hostname_in : Option String → List String → Bool
hostname_in none l = false
hostname_in (some h) l = member l h

abbrev pub is_loopback_url : Url → Bool
is_loopback_url u =
    (str_eq u.scheme "http" || str_eq u.scheme "https")
    && hostname_in u.hostname loopback_hosts
    && not (is_some u.username)
    && not (is_some u.password)
    && str_eq u.fragment ""

abbrev loopback_url : Option Url → Result ManifestError (Option Url)
loopback_url none = err value_error
loopback_url (some u) = if is_loopback_url u then ok (some u) else err manifest_error

-- The URL that is probed, split.
unfoldable pub split_readiness : Builtins → Option String → Result ManifestError (Option Url)
split_readiness py none = ok none
split_readiness py (some url) = loopback_url (py.urlsplit url)

-- The host and the port that the service listens on: both, or none.
unfoldable pub listener : Builtins → Json → Json → Result ManifestError (Option String × Option ℕ)
listener py host port = do
  raise_if (not (same_bool (is_null host) (is_null port))) manifest_error
  if is_null host
      then ok (none, none)
      else (do h ← required_string py host; p ← bounded_integer 1 65535 port; ok (some h, some p))

-- `parsed.port or (443 if ... else 80)`
abbrev pub effective_port : String → Option ℕ → ℕ
effective_port scheme none = if str_eq scheme "https" then 443 else 80
effective_port scheme (some n) = if n == 0 then (if str_eq scheme "https" then 443 else 80) else n

abbrev same_port : String → Option (Option ℕ) → ℕ → Result ManifestError Unit
same_port scheme none port = err value_error
same_port scheme (some p) port = raise_if (not (effective_port scheme p == port)) manifest_error

abbrev is_hostname : Option String → String → Bool
is_hostname none host = false
is_hostname (some h) host = str_eq h host

-- The probe goes to the listener; of the alternatives the later ones are not computed.
unfoldable pub match_listener : Option Url → Option String × Option ℕ → Result ManifestError Unit
match_listener none l = ok tt
match_listener (some u) (some host, some port) =
    if is_hostname u.hostname host then same_port u.scheme u.port port else err manifest_error
match_listener (some u) (none, port) = err manifest_error
match_listener (some u) (some host, none) = err manifest_error

abbrev pub required : {A : Type 0} → Option A → Result ManifestError A
required o = present manifest_error o

-- What is probed: the URL, the variable of its token, and the seconds that it may take.
abbrev pub Readiness : Type 0
Readiness = Option String × Option String × ℕ

unfoldable pub readiness_of : Builtins → List String → Json → Result ManifestError Readiness
readiness_of py environment_keys value = do
  readiness ← require_object value
  require_exact_keys readiness ("url" ∷ "token_environment" ∷ "timeout_seconds" ∷ [])
  url_value ← item readiness "url"
  url ← optional_string py url_value
  token_value ← item readiness "token_environment"
  token ← optional_string py token_value
  raise_if (not (is_listed token environment_keys)) manifest_error
  timeout_value ← item readiness "timeout_seconds"
  timeout ← bounded_integer 1 300 timeout_value
  ok (url, token, timeout)

abbrev pub service_keys : List String
service_keys =
    "name" ∷ "executable" ∷ "arguments" ∷ "working_directory" ∷ "identity" ∷ "listen_host"
    ∷ "listen_port" ∷ "dependencies" ∷ "environment_file" ∷ "identity_secret_file"
    ∷ "environment_keys" ∷ "readiness" ∷ []

-- value[key], of a field that is a nonempty text
abbrev pub text_field : Builtins → Dict Json → String → Result ManifestError String
text_field py fields key = do value ← item fields key; required_string py value

-- `_optional_string`, where None is refused after it
abbrev pub file_field : Builtins → Dict Json → String → Result ManifestError String
file_field py fields key = do
  value ← item fields key
  file ← optional_string py value
  required file

abbrev pub array_field : Dict Json → String → Result ManifestError (List String)
array_field fields key = do value ← item fields key; string_array value

-- The name, the executable, its directory, the identity and the arguments.
abbrev pub Head : Type 0
Head = String × String × String × String × List String

unfoldable pub service_head : Builtins → String → Dict Json → Result ManifestError Head
service_head py product_profile fields = do
  name ← text_field py fields "name"
  executable ← text_field py fields "executable"
  working_directory ← text_field py fields "working_directory"
  identity ← text_field py fields "identity"
  check_identity py identity
  arguments ← array_field fields "arguments"
  check_caddy py product_profile name executable working_directory arguments
  ok (name, executable, working_directory, identity, arguments)

-- The dependencies, the two files and the names of the environment.
abbrev pub Surroundings : Type 0
Surroundings = List String × String × String × List String

unfoldable pub service_surroundings : Builtins → Dict Json → Result ManifestError Surroundings
service_surroundings py fields = do
  dependencies ← array_field fields "dependencies"
  environment_file ← file_field py fields "environment_file"
  identity_secret_file ← file_field py fields "identity_secret_file"
  keys_value ← item fields "environment_keys"
  environment_keys ← environment_keys_of keys_value
  ok (dependencies, environment_file, identity_secret_file, environment_keys)

-- What is probed, and where the service listens.
abbrev pub Place : Type 0
Place = Readiness × (Option String × Option ℕ)

unfoldable pub service_place : Builtins → List String → Dict Json → Result ManifestError Place
service_place py environment_keys fields = do
  readiness_value ← item fields "readiness"
  readiness ← readiness_of py environment_keys readiness_value
  parsed ← split_readiness py readiness.0
  host_value ← item fields "listen_host"
  port_value ← item fields "listen_port"
  address ← listener py host_value port_value
  match_listener parsed address
  ok (readiness, address)

-- `_parse_service`
unfoldable pub parse_service : Builtins → String → Json → Result ManifestError Service
parse_service py product_profile value = do
  fields ← require_object value
  require_exact_keys fields service_keys
  (name, executable, working_directory, identity, arguments) ←
      service_head py product_profile fields
  (dependencies, environment_file, identity_secret_file, environment_keys) ←
      service_surroundings py fields
  ((url, token, timeout), (host, port)) ← service_place py environment_keys fields
  ok (record {
    name = name;
    executable = executable;
    arguments = arguments;
    working_directory = working_directory;
    identity = identity;
    listen_host = host;
    listen_port = port;
    dependencies = dependencies;
    environment_file = environment_file;
    identity_secret_file = identity_secret_file;
    environment_keys = environment_keys;
    readiness_url = url;
    readiness_token_environment = token;
    readiness_timeout_seconds = timeout;
  })

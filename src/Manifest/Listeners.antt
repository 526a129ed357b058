-- ===== src/Manifest/Listeners.antt =====
-- manifest.py, `_validate_listeners`: which host and port each service listens on.
use plug_and_play_local_rag.Base.{
  ℕ, String, List, [], ◌∷◌, Bool, false, not, ◌||◌, Option, none, some, ◌==◌, str_eq, if◌then◌else◌,
  Result, ok, ◌>>◌, raise_if, member,
}
use plug_and_play_local_rag.Manifest.{
  Service, ManifestError, manifest_error, Builtins, loopback_hosts,
}

abbrev pub is_text : String → Option String → Bool
is_text s none = false
is_text s (some t) = str_eq t s

abbrev pub is_port : ℕ → Option ℕ → Bool
is_port n none = false
is_port n (some m) = m == n

-- A literal address is a loopback; the ManifestError that the source raises inside its `try` is a
-- ValueError, which the `except` turns into another ManifestError.
abbrev loopback_address : Option Bool → Bool
loopback_address none = false
loopback_address (some b) = b

abbrev pub is_loopback_host : Builtins → String → Bool
is_loopback_host py host = member loopback_hosts host || loopback_address (py.is_loopback host)

abbrev pub check_host : Builtins → Option String → Option ℕ → Result ManifestError Unit
check_host py none port = ok tt
check_host py (some host) port =
    raise_if (not (is_loopback_host py host) || is_port 443 port) manifest_error

unfoldable pub validate_listener : Builtins → Service → Result ManifestError Unit
validate_listener py service =
    if str_eq service.name "caddy"
    then raise_if
        (not (is_text "0.0.0.0" service.listen_host) || not (is_port 443 service.listen_port))
        manifest_error
    else check_host py service.listen_host service.listen_port

-- `_validate_listeners`
unfoldable pub validate_listeners : Builtins → List Service → Result ManifestError Unit
validate_listeners py [] = ok tt
validate_listeners py (service ∷ services) = do
  validate_listener py service
  validate_listeners py services

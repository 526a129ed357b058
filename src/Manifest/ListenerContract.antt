-- ===== src/Manifest/ListenerContract.antt =====
-- manifest.py, `from_dict`: the contract that every manifest that is read keeps, and the listeners.
use plug_and_play_local_rag.Base.{
  ℕ, ◌≤◌, ◌≡◌, refl, sym, ap, ◌∙◌, subst, ◌≢◌, inl, inr, String, List, [], ◌∷◌, Bool, true, false,
  not, ◌||◌, Option, none, some, arith, ==_iff, Bool-cases, str_eq, str_eq_iff, length, All, ok,
  raise_if-ok, >>-eq-ok,
}
use plug_and_play_local_rag.Budget.{RestartPolicy}
use plug_and_play_local_rag.Manifest.{
  Builtins, DeploymentManifest, Service, caddy_archive_digest, caddy_executable_sha256,
  caddy_pinned_version, manifest_error, required_services,
}
use plug_and_play_local_rag.Json.{same_set}
use plug_and_play_local_rag.Manifest.Contents.{is_pinned, required_checks}
use plug_and_play_local_rag.Manifest.Fields.{texts_distinct}
use plug_and_play_local_rag.Manifest.Listeners.{
  check_host, is_loopback_host, is_port, is_text, validate_listener, validate_listeners,
}
use plug_and_play_local_rag.Manifest.Dependencies.{names}

-- Caddy listens on every address at port 443; any other service on a loopback address or nowhere, and
-- not at that port.
abbrev pub IsListener : Builtins → Service → Type 0
IsListener py s =
    (s.name ≡ "caddy" → (s.listen_host ≡ some "0.0.0.0") × (s.listen_port ≡ some 443))
    × (s.name ≢ "caddy"
        → (host : String) → s.listen_host ≡ some host
        → (is_loopback_host py host ≡ true) × (s.listen_port ≢ some 443))

abbrev pub Within : ℕ → ℕ → ℕ → Type 0
Within low high n = (low ≤ n) × (n ≤ high)

abbrev pub IsPolicy : RestartPolicy → Type 0
IsPolicy p =
    Within 1 10 p.maximum_restarts
    × Within 60 3600 p.window_seconds
    × (1 ≤ length p.backoff_seconds)
    × All (Within 1 300) p.backoff_seconds

abbrev pub IsDeployable : Builtins → DeploymentManifest → Type 0
IsDeployable py m =
    ((texts_distinct (names m.services) ≡ true)
      × (same_set (names m.services) required_services ≡ true)
      × All (IsListener py) m.services)
    × IsPolicy m.restart_policy
    × ((m.backup_state ≡ "not_configured") × (m.backup_destination ≡ none))
    × ((m.caddy_version ≡ some caddy_pinned_version)
        × (m.caddy_archive_sha512 ≡ some caddy_archive_digest)
        × (m.caddy_sha256 ≡ some caddy_executable_sha256))
    × ((m.deployment_blockers ≡ [])
        × (same_set m.prerequisite_checks (required_checks m.product_profile) ≡ true))

is_text_eq : (s : String) (o : Option String) → is_text s o ≡ true → o ≡ some s
is_text_eq s none h = cc
is_text_eq s (some t) h = ap some ((str_eq_iff t s).0 h)

is_port_eq : (n : ℕ) (o : Option ℕ) → is_port n o ≡ true → o ≡ some n
is_port_eq n none h = cc
is_port_eq n (some k) h = ap some ((==_iff k n).0 h)

pub is_pinned_eq : (s : String) (o : Option String) → is_pinned s o ≡ true → o ≡ some s
is_pinned_eq s none h = cc
is_pinned_eq s (some t) h = ap some ((str_eq_iff t s).0 h)

neither : (a b : Bool) → (not a || not b) ≡ false → (a ≡ true) × (b ≡ true)
neither a b h = ground arith

pub or_false : (a b : Bool) → (a || b) ≡ false → (a ≡ false) × (b ≡ false)
or_false a b h = ground arith

check_host_loopback :
    (py : Builtins) (o : Option String) (port : Option ℕ) (host : String)
    → check_host py o port ≡ ok tt
    → o ≡ some host
    → (is_loopback_host py host ≡ true) × (port ≢ some 443)
check_host_loopback py none port host h e = cc
check_host_loopback py (some k) port host h e =
    let (local, elsewhere) =
      or_false (not (is_loopback_host py k)) (is_port 443 port)
        (raise_if-ok (not (is_loopback_host py k) || is_port 443 port) manifest_error h) in
    let same : k ≡ host = cc in
    (
      subst (λ x. is_loopback_host py x ≡ true) same (ground arith),
      (λ at.
          let bad : is_port 443 (some 443) ≡ false = sym (ap (is_port 443) at) ∙ elsewhere in cc),
    )

validate_listener-IsListener :
    (py : Builtins) (s : Service) → validate_listener py s ≡ ok tt → IsListener py s
unfolding validate_listener
validate_listener-IsListener py s h = elim (Bool-cases (str_eq s.name "caddy")) [
  | inl caddy ↦
      let (host, port) = neither (is_text "0.0.0.0" s.listen_host) (is_port 443 s.listen_port) (
        raise_if-ok (not (is_text "0.0.0.0" s.listen_host) || not (is_port 443 s.listen_port))
          manifest_error (sym (rw caddy refl) ∙ h)) in
      (
        (λ n. (is_text_eq "0.0.0.0" s.listen_host host, is_port_eq 443 s.listen_port port)),
        (λ other. absurd (other ((str_eq_iff s.name "caddy").0 caddy))),
      )
  | inr other ↦ (
    (λ n. absurd (let bad = (str_eq_iff s.name "caddy").1 n in cc)),
    (λ n host at.
        check_host_loopback py s.listen_host s.listen_port host (sym (rw other refl) ∙ h) at),
  )
]

pub validate_listeners-IsListener :
    (py : Builtins) (services : List Service)
    → validate_listeners py services ≡ ok tt
    → All (IsListener py) services
unfolding validate_listeners
validate_listeners-IsListener py [] h = tt
validate_listeners-IsListener py (s ∷ services) h =
    let (first, rest) = >>-eq-ok (validate_listener py s) (validate_listeners py services) h in
    (validate_listener-IsListener py s first, validate_listeners-IsListener py services rest)

-- ===== src/Manifest/SectionReading.antt =====
-- manifest.py, `from_dict`: the other sections, written by `digest`, are read again.
use plug_and_play_local_rag.Base.{
  ◌≡◌, refl, ap, ◌∙◌, subst, String, [], ◌∷◌, true, false, not, ◌&&◌, ◌||◌, Option, some, str_eq,
  if◌then◌else◌, is_empty, Result, ok, >>=-eq-ok, raise_if-passes, >>-eq-ok, ok-injective, get,
  is_some, ends_with,
}
use plug_and_play_local_rag.Manifest.{
  Builtins, ManifestError, caddy_archive_digest, caddy_executable_sha256, caddy_pinned_version,
  manifest_error,
}
use plug_and_play_local_rag.Manifest.Contents.{
  DeploymentReadiness, Pins, is_pinned, parse_backup, parse_caddy, parse_readiness, required_checks,
}
use plug_and_play_local_rag.Manifest.Reading.{
  HexLaws, Rereads, hex_digest_reread, one_of_reread, optional_digest_reread, optional_reread,
  optional_string_reread, required_string_reread, string_array_reread,
}
use plug_and_play_local_rag.Json.{Json, members_of, object, optional_text, same_set, text, texts}
use plug_and_play_local_rag.Manifest.Fields.{
  hex_digest, item, one_of, optional, optional_digest, optional_string, require_exact_keys,
  require_object, required_string, same_bool, state_config, string_array,
}

abbrev pub state_json : String → String × Option String → Json
state_json key_name c =
    object (members_of (("state", text c.0) ∷ (key_name, optional_text c.1) ∷ []))

abbrev pub reading : Builtins → String → Json → Result ManifestError String
reading py key_name = if ends_with "sha256" key_name then hex_digest py 64 else required_string py

-- Of the two keys that are configured.
state_config-state_json :
    (py : Builtins) (key_name : String) (state : String) (configured : Option String)
    → one_of ("not_configured" ∷ "configured" ∷ []) (text state) ≡ ok state
    → optional (reading py key_name) (optional_text configured) ≡ ok configured
    → not (same_bool (str_eq state "configured") (is_some configured)) ≡ false
    → same_set ("state" ∷ key_name ∷ []) ("state" ∷ key_name ∷ []) ≡ true
    → get (("state", text state) ∷ (key_name, optional_text configured) ∷ []) key_name
      ≡ some (optional_text configured)
    → state_config py key_name (state_json key_name (state, configured)) ≡ ok (state, configured)
unfolding state_config require_exact_keys get
state_config-state_json py key_name state configured e1 e2 e3 e4 e5 = rw (e4, e1, e5, e2, e3) refl

pub state_config_parts :
    (py : Builtins) (key_name : String) (v : Json) (c : String × Option String)
    → state_config py key_name v ≡ ok c
    → (one_of ("not_configured" ∷ "configured" ∷ []) (text c.0) ≡ ok c.0)
      × ((w : Json) × (optional (reading py key_name) w ≡ ok c.1))
      × (not (same_bool (str_eq c.0 "configured") (is_some c.1)) ≡ false)
unfolding state_config
state_config_parts py key_name v c h =
    let (fields, e1, h1) = >>=-eq-ok (require_object v) _ h in
    let (exact, h2) = >>-eq-ok (require_exact_keys fields ("state" ∷ key_name ∷ [])) _ h1 in
    let (v1, e3, h3) = >>=-eq-ok (item fields "state") _ h2 in
    let (state, e4, h4) = >>=-eq-ok (one_of ("not_configured" ∷ "configured" ∷ []) v1) _ h3 in
    let (v2, e5, h5) = >>=-eq-ok (item fields key_name) _ h4 in
    let (configured, e6, h6) = >>=-eq-ok (optional (reading py key_name) v2) _ h5 in
    let (e7, h7) =
      raise_if-passes (not (same_bool (str_eq state "configured") (is_some configured)))
        manifest_error _ h6 in
    let made : (state, configured) ≡ c = ok-injective h7 in
    (
      one_of_reread ("not_configured" ∷ "configured" ∷ []) v1 c.0 (e4 ∙ ap (λ t. ok t.0) made),
      (v2, e6 ∙ ap (λ t. ok t.1) made),
      subst (λ t. not (same_bool (str_eq t.0 "configured") (is_some t.1)) ≡ false) made e7,
    )

pub parse_backup_reread : (py : Builtins) → Rereads (parse_backup py) (state_json "destination")
unfolding parse_backup get
parse_backup_reread py v c h =
    let (b, e1, h1) = >>=-eq-ok (state_config py "destination" v) _ h in
    let (e2, h2) =
      raise_if-passes (not (str_eq b.0 "not_configured") || is_some b.1) manifest_error _ h1 in
    let (state_ok, (w, read), agrees) = state_config_parts py "destination" v b e1 in
    let again =
      state_config-state_json py "destination" b.0 b.1 state_ok
        (optional_reread (required_string py) (required_string_reread py) w b.1 read) agrees refl
        refl in
    subst (λ x. parse_backup py (state_json "destination" x) ≡ ok x) (ok-injective h2)
      (rw (again, e2) refl)

pub updates_reread :
    (py : Builtins)
    → HexLaws py
    → Rereads (state_config py "public_key_sha256") (state_json "public_key_sha256")
unfolding get
updates_reread py laws v c h =
    let (state_ok, (w, read), agrees) = state_config_parts py "public_key_sha256" v c h in
    state_config-state_json py "public_key_sha256" c.0 c.1 state_ok
      (optional_reread (hex_digest py 64) (hex_digest_reread py laws 63) w c.1 read) agrees refl
      refl

abbrev pub caddy_json : Pins → Json
caddy_json p = object (
    members_of (
      ("version", optional_text p.0)
      ∷ ("archive_sha512", optional_text p.1)
      ∷ ("executable_sha256", optional_text p.2)
      ∷ []))

parse_caddy-caddy_json :
    (py : Builtins) (p : Pins)
    → optional_string py (optional_text p.0) ≡ ok p.0
    → optional_digest py 128 (optional_text p.1) ≡ ok p.1
    → optional_digest py 64 (optional_text p.2) ≡ ok p.2
    → (not (is_pinned caddy_pinned_version p.0)
        || not (is_pinned caddy_archive_digest p.1)
        || not (is_pinned caddy_executable_sha256 p.2))
      ≡ false
    → parse_caddy py (caddy_json p) ≡ ok p
unfolding parse_caddy require_exact_keys get
parse_caddy-caddy_json py p e1 e2 e3 e4 = rw (e1, e2, e3, e4) refl

pub parse_caddy_reread : (py : Builtins) → HexLaws py → Rereads (parse_caddy py) caddy_json
unfolding parse_caddy
parse_caddy_reread py laws v p h =
    let (caddy, e1, h1) = >>=-eq-ok (require_object v) _ h in
    let (keys, h2) =
      >>-eq-ok (require_exact_keys caddy ("version" ∷ "archive_sha512" ∷ "executable_sha256" ∷ []))
        _ h1 in
    let (v1, e3, h3) = >>=-eq-ok (item caddy "version") _ h2 in
    let (version, e4, h4) = >>=-eq-ok (optional_string py v1) _ h3 in
    let (v2, e5, h5) = >>=-eq-ok (item caddy "archive_sha512") _ h4 in
    let (archive, e6, h6) = >>=-eq-ok (optional_digest py 128 v2) _ h5 in
    let (v3, e7, h7) = >>=-eq-ok (item caddy "executable_sha256") _ h6 in
    let (executable, e8, h8) = >>=-eq-ok (optional_digest py 64 v3) _ h7 in
    let (checked, h9) =
      raise_if-passes
        (not (is_pinned caddy_pinned_version version)
          || not (is_pinned caddy_archive_digest archive)
          || not (is_pinned caddy_executable_sha256 executable))
        manifest_error _ h8 in
    subst (λ x. parse_caddy py (caddy_json x) ≡ ok x) (ok-injective h9)
      (parse_caddy-caddy_json py (version, archive, executable)
        (optional_string_reread py v1 version e4) (optional_digest_reread py laws 127 v2 archive e6)
        (optional_digest_reread py laws 63 v3 executable e8) checked)

abbrev pub deployment_json : DeploymentReadiness → Json
deployment_json r = object (
    members_of
      (("state", text r.0) ∷ ("blockers", texts r.1) ∷ ("prerequisite_checks", texts r.2) ∷ []))

parse_readiness-deployment_json :
    (profile : String) (r : DeploymentReadiness)
    → one_of ("installable" ∷ "installed" ∷ []) (text r.0) ≡ ok r.0
    → string_array (texts r.1) ≡ ok r.1
    → string_array (texts r.2) ≡ ok r.2
    → not (same_set r.2 (required_checks profile)) ≡ false
    → (str_eq r.0 "installable" && not (is_empty r.1)) ≡ false
    → (str_eq r.0 "installed" && not (is_empty r.1)) ≡ false
    → parse_readiness profile (deployment_json r) ≡ ok r
unfolding parse_readiness require_exact_keys get
parse_readiness-deployment_json profile r e1 e2 e3 e4 e5 e6 = rw (e1, e2, e3, e4, e5, e6) refl

pub parse_readiness_reread : (profile : String) → Rereads (parse_readiness profile) deployment_json
unfolding parse_readiness
parse_readiness_reread profile v r h =
    let (readiness, e1, h1) = >>=-eq-ok (require_object v) _ h in
    let (keys, h2) =
      >>-eq-ok (require_exact_keys readiness ("state" ∷ "blockers" ∷ "prerequisite_checks" ∷ [])) _
        h1 in
    let (v1, e3, h3) = >>=-eq-ok (item readiness "state") _ h2 in
    let (state, e4, h4) = >>=-eq-ok (one_of ("installable" ∷ "installed" ∷ []) v1) _ h3 in
    let (v2, e5, h5) = >>=-eq-ok (item readiness "blockers") _ h4 in
    let (blockers, e6, h6) = >>=-eq-ok (string_array v2) _ h5 in
    let (v3, e7, h7) = >>=-eq-ok (item readiness "prerequisite_checks") _ h6 in
    let (checks, e8, h8) = >>=-eq-ok (string_array v3) _ h7 in
    let (e9, h9) =
      raise_if-passes (not (same_set checks (required_checks profile))) manifest_error _ h8 in
    let (e10, h10) =
      raise_if-passes (str_eq state "installable" && not (is_empty blockers)) manifest_error _ h9 in
    let (e11, h11) =
      raise_if-passes (str_eq state "installed" && not (is_empty blockers)) manifest_error _ h10 in
    subst (λ x. parse_readiness profile (deployment_json x) ≡ ok x) (ok-injective h11)
      (parse_readiness-deployment_json profile (state, blockers, checks)
        (one_of_reread ("installable" ∷ "installed" ∷ []) v1 state e4)
        (string_array_reread v2 blockers e6) (string_array_reread v3 checks e8) e9 e10 e11)

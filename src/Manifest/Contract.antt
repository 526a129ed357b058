-- ===== src/Manifest/Contract.antt =====
-- manifest.py, `from_dict`: the contract that every manifest that is read keeps.
use plug_and_play_local_rag.Base.{
  ℕ, ◌≤◌, ◌≡◌, refl, sym, ◌∙◌, subst, inl, inr, String, List, [], ◌∷◌, Bool, true, false, not, ◌&&◌,
  ◌||◌, Option, none, some, arith, leb, Bool-cases, str_eq, str_eq_iff, length, is_empty, All, ok,
  err, >>=-eq-ok, raise_if-passes, >>-eq-ok, ok-injective, is_some,
}
use plug_and_play_local_rag.Budget.{RestartPolicy}
use plug_and_play_local_rag.Manifest.{
  Builtins, Service, caddy_archive_digest, caddy_executable_sha256, caddy_pinned_version,
  manifest_error, required_services,
}
use plug_and_play_local_rag.Json.{Json, as_array, as_natural, same_set}
use plug_and_play_local_rag.Manifest.Contents.{
  Pins, is_pinned, parse_backup, parse_caddy, parse_policy, parse_services, read_naturals,
}
use plug_and_play_local_rag.Manifest.Fields.{
  bounded_integer, in_range, item, optional_digest, optional_string, present, read_all,
  require_exact_keys, require_object, state_config, texts_distinct,
}
use plug_and_play_local_rag.Manifest.Listeners.{validate_listeners}
use plug_and_play_local_rag.Manifest.Dependencies.{names, validate_dependencies}
use plug_and_play_local_rag.Manifest.Services.{parse_service}
use plug_and_play_local_rag.Manifest.Contents.{parse_backoff, policy_values}
use plug_and_play_local_rag.Manifest.ListenerContract.{Within, IsPolicy, is_pinned_eq, or_false}

-- The services of a manifest have passed every test.
pub parse_services_valid :
    (py : Builtins) (profile : String) (value : Json) {services : List Service}
    → parse_services py profile value ≡ ok services
    → (texts_distinct (names services) ≡ true)
      × (same_set (names services) required_services ≡ true)
      × (validate_listeners py services ≡ ok tt)
      × (validate_dependencies services ≡ ok tt)
unfolding parse_services
parse_services_valid py profile value {services} h =
    let (items, e, h1) = >>=-eq-ok (present manifest_error (as_array value)) _ h in
    let (l, read, h2) = >>=-eq-ok (read_all (parse_service py profile) items) _ h1 in
    let (distinct, h3) = raise_if-passes (not (texts_distinct (names l))) manifest_error _ h2 in
    let (complete, h4) =
      raise_if-passes (not (same_set (names l) required_services)) manifest_error _ h3 in
    let (listeners, h5) = >>-eq-ok (validate_listeners py l) _ h4 in
    let (dependencies, h6) = >>-eq-ok (validate_dependencies l) _ h5 in
    subst
      (λ s.
        (texts_distinct (names s) ≡ true)
        × (same_set (names s) required_services ≡ true)
        × (validate_listeners py s ≡ ok tt)
        × (validate_dependencies s ≡ ok tt))
      (ok-injective h6) (ground arith, ground arith, listeners, dependencies)

bounded_integer-Within :
    (low high : ℕ) (value : Json) {n : ℕ}
    → bounded_integer low high value ≡ ok n
    → Within low high n
unfolding bounded_integer
bounded_integer-Within low high value {n} h = at (as_natural value) h
  where
    at : (o : Option ℕ) → in_range low high o ≡ ok n → Within low high n
    at none h = cc
    at (some k) h = elim (Bool-cases (leb low k && leb k high)) [
      | inl fits ↦
          let same : k ≡ n = ok-injective (sym (rw fits refl) ∙ h) in
          subst (Within low high) same (ground arith)
      | inr out ↦ absurd (let bad : err manifest_error ≡ ok n = sym (rw out refl) ∙ h in cc)
    ]

read_naturals-Within :
    (l : List Json) {ns : List ℕ} → read_naturals l ≡ ok ns → All (Within 1 300) ns
read_naturals-Within [] {ns} h = subst (All (Within 1 300)) (ok-injective h) tt
read_naturals-Within (v ∷ l) {ns} h =
    let (n, first, h1) = >>=-eq-ok (bounded_integer 1 300 v) _ h in
    let (rest, others, h2) = >>=-eq-ok (read_naturals l) _ h1 in
    subst (All (Within 1 300)) (ok-injective h2)
      (bounded_integer-Within 1 300 v first, read_naturals-Within l others)

parse_backoff_bounds :
    (value : Json) {l : List ℕ} → parse_backoff value ≡ ok l → (1 ≤ length l) × All (Within 1 300) l
unfolding parse_backoff
parse_backoff_bounds value h =
    let (items, e1, h1) = >>=-eq-ok (present manifest_error (as_array value)) _ h in
    let (numbers, e2, h2) = >>=-eq-ok (read_naturals items) _ h1 in
    let (full, h3) = raise_if-passes (is_empty numbers) manifest_error _ h2 in
    subst (λ l. (1 ≤ length l) × All (Within 1 300) l) (ok-injective h3)
      (one_or_more numbers full, read_naturals-Within items e2)
  where
    one_or_more : (l : List ℕ) → is_empty l ≡ false → 1 ≤ length l
    one_or_more [] e = cc
    one_or_more (n ∷ l) e = omega arith

pub parse_policy-IsPolicy :
    (value : Json) {p : RestartPolicy} → parse_policy value ≡ ok p → IsPolicy p
unfolding parse_policy
parse_policy-IsPolicy value {p} h =
    let (values, e1, h1) = >>=-eq-ok (policy_values value) _ h in
    let (maximum, e2, h2) = >>=-eq-ok (bounded_integer 1 10 values.0) _ h1 in
    let (window, e3, h3) = >>=-eq-ok (bounded_integer 60 3600 values.1) _ h2 in
    let (backoff, e4, h4) = >>=-eq-ok (parse_backoff values.2) _ h3 in
    let (some_delay, delays) = parse_backoff_bounds values.2 e4 in
    subst IsPolicy (ok-injective h4) (
      bounded_integer-Within 1 10 values.0 e2,
      bounded_integer-Within 60 3600 values.1 e3,
      some_delay,
      delays,
    )

is_some-none : (o : Option String) → is_some o ≡ false → o ≡ none
is_some-none none h = refl
is_some-none (some s) h = cc

pub parse_backup-none :
    (py : Builtins) (value : Json) {state : String} {destination : Option String}
    → parse_backup py value ≡ ok (state, destination)
    → (state ≡ "not_configured") × (destination ≡ none)
unfolding parse_backup
parse_backup-none py value {state} {destination} h =
    let (backup, e1, h1) = >>=-eq-ok (state_config py "destination" value) _ h in
    let (checked, h2) =
      raise_if-passes (not (str_eq backup.0 "not_configured") || is_some backup.1) manifest_error _
        h1 in
    let (off, nowhere) =
      or_false (not (str_eq backup.0 "not_configured")) (is_some backup.1) checked in
    subst (λ b. (b.0 ≡ "not_configured") × (b.1 ≡ none)) (ok-injective h2)
      ((str_eq_iff backup.0 "not_configured").0 (ground arith), is_some-none backup.1 nowhere)

pinned : (a b c : Bool) → (not a || not b || not c) ≡ false → (a ≡ true) × (b ≡ true) × (c ≡ true)
pinned a b c h = ground arith

pub parse_caddy_pinned :
    (py : Builtins) (value : Json) {pins : Pins}
    → parse_caddy py value ≡ ok pins
    → (pins.0 ≡ some caddy_pinned_version)
      × (pins.1 ≡ some caddy_archive_digest)
      × (pins.2 ≡ some caddy_executable_sha256)
unfolding parse_caddy
parse_caddy_pinned py value {pins} h =
    let (caddy, e1, h1) = >>=-eq-ok (require_object value) _ h in
    let (keys, h2) =
      >>-eq-ok (require_exact_keys caddy ("version" ∷ "archive_sha512" ∷ "executable_sha256" ∷ []))
        _ h1 in
    let (v1, e3, h3) = >>=-eq-ok (item caddy "version") _ h2 in
    let (version, e4, h4) = >>=-eq-ok (optional_string py v1) _ h3 in
    let (v2, e5, h5) = >>=-eq-ok (item caddy "archive_sha512") _ h4 in
    let (archive, e6, h6) = >>=-eq-ok (optional_digest py 128 v2) _ h5 in
    let (v3, e7, h7) = >>=-eq-ok (item caddy "executable_sha256") _ h6 in
    let (executable, e8, h8) = >>=-eq-ok (optional_digest py 64 v3) _ h7 in
    let (checked, h9) =
      raise_if-passes
        (not (is_pinned caddy_pinned_version version)
          || not (is_pinned caddy_archive_digest archive)
          || not (is_pinned caddy_executable_sha256 executable))
        manifest_error _ h8 in
    let (a, b, c) =
      pinned (is_pinned caddy_pinned_version version) (is_pinned caddy_archive_digest archive)
        (is_pinned caddy_executable_sha256 executable) checked in
    subst
      (λ p.
        (p.0 ≡ some caddy_pinned_version)
        × (p.1 ≡ some caddy_archive_digest)
        × (p.2 ≡ some caddy_executable_sha256))
      (ok-injective h9)
      (
        is_pinned_eq caddy_pinned_version version a,
        is_pinned_eq caddy_archive_digest archive b,
        is_pinned_eq caddy_executable_sha256 executable c,
      )

-- ===== src/Manifest/PolicyReading.antt =====
-- manifest.py, `from_dict`: the services and the restart policy, written by `digest`, are read again.
use plug_and_play_local_rag.Base.{
  ◌≡◌, refl, ap, ◌∙◌, subst, String, List, map, true, not, is_empty, Result, ok, ◌>>=◌, >>=-eq-ok,
  raise_if-passes, >>-eq-ok, ok-injective, get,
}
use plug_and_play_local_rag.Manifest.{
  Builtins, ManifestError, Service, manifest_error, required_services,
}
use plug_and_play_local_rag.Manifest.Contents.{parse_policy, parse_services, read_naturals}
use plug_and_play_local_rag.Manifest.Reading.{
  Rereads, bounded_integer_reread, read_all_reread, read_naturals_reread,
}
use plug_and_play_local_rag.Json.{
  Json, array, as_array, elements_of, integer, items_of-elements_of, same_set,
}
use plug_and_play_local_rag.Budget.{RestartPolicy}
use plug_and_play_local_rag.Manifest.Contract.{parse_services_valid}
use plug_and_play_local_rag.Manifest.Fields.{
  bounded_integer, present, read_all, require_exact_keys, texts_distinct,
}
use plug_and_play_local_rag.Manifest.Rendering.{policy_json, service_json}
use plug_and_play_local_rag.Manifest.Dependencies.{names, validate_dependencies}
use plug_and_play_local_rag.Manifest.Services.{parse_service}
use plug_and_play_local_rag.Manifest.ServiceReading.{parse_service_reread}
use plug_and_play_local_rag.Manifest.Listeners.{validate_listeners}
use plug_and_play_local_rag.Manifest.Contents.{parse_backoff, policy_values}

present_array :
    (v : Json) {A : Type 0} (rest : List Json → Result ManifestError A) {a : A}
    → (present manifest_error (as_array v) >>= rest) ≡ ok a
    → (l : List Json) × (rest l ≡ ok a)
present_array v rest h =
    let (l, e, k) = >>=-eq-ok (present manifest_error (as_array v)) rest h in (l, k)

-- The services that were read pass the tests again.
parse_services-service_json :
    (py : Builtins) (profile : String) (services : List Service)
    → read_all (parse_service py profile) (map service_json services) ≡ ok services
    → texts_distinct (names services) ≡ true
    → same_set (names services) required_services ≡ true
    → validate_listeners py services ≡ ok tt
    → validate_dependencies services ≡ ok tt
    → parse_services py profile (array (elements_of (map service_json services))) ≡ ok services
unfolding parse_services
parse_services-service_json py profile services e1 e2 e3 e4 e5 =
    rw (items_of-elements_of (map service_json services), e1, e2, e3, e4, e5) refl

pub parse_services_reread :
    (py : Builtins) (profile : String) (v : Json) (services : List Service)
    → parse_services py profile v ≡ ok services
    → parse_services py profile (array (elements_of (map service_json services))) ≡ ok services
unfolding parse_services
parse_services_reread py profile v services h =
    let (distinct, complete, listeners, dependencies) = parse_services_valid py profile v h in
    let (items, h1) = present_array v _ h in
    let (l, read, h2) = >>=-eq-ok (read_all (parse_service py profile) items) _ h1 in
    let (e3, h3) = raise_if-passes (not (texts_distinct (names l))) manifest_error _ h2 in
    let (e4, h4) =
      raise_if-passes (not (same_set (names l) required_services)) manifest_error _ h3 in
    let (e5, h5) = >>-eq-ok (validate_listeners py l) _ h4 in
    let (e6, h6) = >>-eq-ok (validate_dependencies l) _ h5 in
    parse_services-service_json py profile services
      (read_all_reread (parse_service py profile) service_json (parse_service_reread py profile)
        items (read ∙ ap ok (ok-injective h6)))
      distinct complete listeners dependencies

parse_backoff_reread : Rereads parse_backoff (λ l. array (elements_of (map integer l)))
unfolding parse_backoff
parse_backoff_reread v out h =
    let (items, h1) = present_array v _ h in
    let (numbers, e2, h2) = >>=-eq-ok (read_naturals items) _ h1 in
    let (full, h3) = raise_if-passes (is_empty numbers) manifest_error _ h2 in
    subst (λ l. parse_backoff (array (elements_of (map integer l))) ≡ ok l) (ok-injective h3)
      (rw (items_of-elements_of (map integer numbers), read_naturals_reread items e2, full) refl)

parse_policy-policy_json :
    (p : RestartPolicy)
    → bounded_integer 1 10 (integer p.maximum_restarts) ≡ ok p.maximum_restarts
    → bounded_integer 60 3600 (integer p.window_seconds) ≡ ok p.window_seconds
    → parse_backoff (array (elements_of (map integer p.backoff_seconds))) ≡ ok p.backoff_seconds
    → parse_policy (policy_json p) ≡ ok p
unfolding parse_policy policy_values require_exact_keys get
parse_policy-policy_json p e1 e2 e3 = rw (e1, e2, e3) refl

pub parse_policy_reread : Rereads parse_policy policy_json
unfolding parse_policy
parse_policy_reread v p h =
    let (values, e1, h1) = >>=-eq-ok (policy_values v) _ h in
    let (maximum, e2, h2) = >>=-eq-ok (bounded_integer 1 10 values.0) _ h1 in
    let (window, e3, h3) = >>=-eq-ok (bounded_integer 60 3600 values.1) _ h2 in
    let (backoff, e4, h4) = >>=-eq-ok (parse_backoff values.2) _ h3 in
    let again =
      parse_policy-policy_json
        (record { maximum_restarts = maximum; window_seconds = window; backoff_seconds = backoff })
        (bounded_integer_reread 1 10 values.0 maximum e2)
        (bounded_integer_reread 60 3600 values.1 window e3)
        (parse_backoff_reread values.2 backoff e4) in
    subst (λ x. parse_policy (policy_json x) ≡ ok x) (ok-injective h4) again

-- ===== src/Manifest/ServiceReading.antt =====
-- manifest.py, `_parse_service`: a service, written by `digest`, is read again.
use plug_and_play_local_rag.Base.{
  ◌≡◌, refl, ap, ◌∙◌, subst, String, List, Option, some, ok, >>=-eq-ok, >>-eq-ok, ok-injective,
  Dict, get,
}
use plug_and_play_local_rag.Manifest.{Builtins}
use plug_and_play_local_rag.Json.{Json, optional_integer, optional_text, text, texts}
use plug_and_play_local_rag.Manifest.Services.{
  array_field, check_caddy, check_identity, environment_keys_of, file_field, listener,
  match_listener, parse_service, readiness_of, service_keys, split_readiness, text_field,
}
use plug_and_play_local_rag.Manifest.Reading.{Rereads}
use plug_and_play_local_rag.Manifest.Fields.{
  item, optional_string, require_exact_keys, require_object, required_string, string_array,
}
use plug_and_play_local_rag.Manifest.Rendering.{service_json}
use plug_and_play_local_rag.Manifest.Services.{
  Place, service_head, service_place, service_surroundings,
}
use plug_and_play_local_rag.Manifest.{Service, Url}
use plug_and_play_local_rag.Manifest.Rendering.{service_dict}
use plug_and_play_local_rag.Manifest.FieldReading.{
  text_field_reread, file_field_reread, array_field_reread, environment_keys_reread, readiness_json,
  readiness_reread, listener_reread,
}

service_head-service_dict :
    (py : Builtins) (profile : String) (s : Service)
    → required_string py (text s.name) ≡ ok s.name
    → required_string py (text s.executable) ≡ ok s.executable
    → required_string py (text s.working_directory) ≡ ok s.working_directory
    → required_string py (text s.identity) ≡ ok s.identity
    → check_identity py s.identity ≡ ok tt
    → string_array (texts s.arguments) ≡ ok s.arguments
    → check_caddy py profile s.name s.executable s.working_directory s.arguments ≡ ok tt
    → service_head py profile (service_dict s)
      ≡ ok (s.name, s.executable, s.working_directory, s.identity, s.arguments)
unfolding service_head get
service_head-service_dict py profile s e1 e2 e3 e4 e5 e6 e7 = rw (e1, e2, e3, e4, e5, e6, e7) refl

service_head_reread :
    (py : Builtins) (profile : String) (fields : Dict Json) (s : Service)
    → service_head py profile fields
      ≡ ok (s.name, s.executable, s.working_directory, s.identity, s.arguments)
    → service_head py profile (service_dict s)
      ≡ ok (s.name, s.executable, s.working_directory, s.identity, s.arguments)
unfolding service_head
service_head_reread py profile fields s h =
    let (name, e3, h3) = >>=-eq-ok (text_field py fields "name") _ h in
    let (executable, e4, h4) = >>=-eq-ok (text_field py fields "executable") _ h3 in
    let (directory, e5, h5) = >>=-eq-ok (text_field py fields "working_directory") _ h4 in
    let (identity, e6, h6) = >>=-eq-ok (text_field py fields "identity") _ h5 in
    let (e7, h7) = >>-eq-ok (check_identity py identity) _ h6 in
    let (arguments, e8, h8) = >>=-eq-ok (array_field fields "arguments") _ h7 in
    let (e9, h9) = >>-eq-ok (check_caddy py profile name executable directory arguments) _ h8 in
    let made : (name, executable, directory, identity, arguments)
        ≡ (s.name, s.executable, s.working_directory, s.identity, s.arguments) =
      ok-injective h9 in
    service_head-service_dict py profile s
      (text_field_reread py fields "name" s.name (e3 ∙ ap (λ t. ok t.0) made))
      (text_field_reread py fields "executable" s.executable (e4 ∙ ap (λ t. ok t.1) made))
      (text_field_reread py fields "working_directory" s.working_directory
        (e5 ∙ ap (λ t. ok t.2) made))
      (text_field_reread py fields "identity" s.identity (e6 ∙ ap (λ t. ok t.3) made))
      (subst (λ t. check_identity py t.3 ≡ ok tt) made e7)
      (array_field_reread fields "arguments" s.arguments (e8 ∙ ap (λ t. ok t.4) made))
      (subst (λ t. check_caddy py profile t.0 t.1 t.2 t.4 ≡ ok tt) made e9)

service_surroundings-service_dict :
    (py : Builtins) (s : Service)
    → string_array (texts s.dependencies) ≡ ok s.dependencies
    → optional_string py (text s.environment_file) ≡ ok (some s.environment_file)
    → optional_string py (text s.identity_secret_file) ≡ ok (some s.identity_secret_file)
    → environment_keys_of (texts s.environment_keys) ≡ ok s.environment_keys
    → service_surroundings py (service_dict s)
      ≡ ok (s.dependencies, s.environment_file, s.identity_secret_file, s.environment_keys)
unfolding service_surroundings get
service_surroundings-service_dict py s e1 e2 e3 e4 = rw (e1, e2, e3, e4) refl

service_surroundings_reread :
    (py : Builtins) (fields : Dict Json) (s : Service)
    → service_surroundings py fields
      ≡ ok (s.dependencies, s.environment_file, s.identity_secret_file, s.environment_keys)
    → service_surroundings py (service_dict s)
      ≡ ok (s.dependencies, s.environment_file, s.identity_secret_file, s.environment_keys)
unfolding service_surroundings
service_surroundings_reread py fields s h =
    let (dependencies, e1, h1) = >>=-eq-ok (array_field fields "dependencies") _ h in
    let (file, e2, h2) = >>=-eq-ok (file_field py fields "environment_file") _ h1 in
    let (secret, e3, h3) = >>=-eq-ok (file_field py fields "identity_secret_file") _ h2 in
    let (v, e4, h4) = >>=-eq-ok (item fields "environment_keys") _ h3 in
    let (keys, e5, h5) = >>=-eq-ok (environment_keys_of v) _ h4 in
    let made : (dependencies, file, secret, keys)
        ≡ (s.dependencies, s.environment_file, s.identity_secret_file, s.environment_keys) =
      ok-injective h5 in
    service_surroundings-service_dict py s
      (array_field_reread fields "dependencies" s.dependencies (e1 ∙ ap (λ t. ok t.0) made))
      (file_field_reread py fields "environment_file" s.environment_file
        (e2 ∙ ap (λ t. ok t.1) made))
      (file_field_reread py fields "identity_secret_file" s.identity_secret_file
        (e3 ∙ ap (λ t. ok t.2) made))
      (environment_keys_reread v s.environment_keys (e5 ∙ ap (λ t. ok t.3) made))

abbrev place_of : Service → Place
place_of s = (
  (s.readiness_url, s.readiness_token_environment, s.readiness_timeout_seconds),
  (s.listen_host, s.listen_port),
)

service_place-service_dict :
    (py : Builtins) (keys : List String) (s : Service) (parsed : Option Url)
    → readiness_of py keys (readiness_json (place_of s).0) ≡ ok (place_of s).0
    → split_readiness py s.readiness_url ≡ ok parsed
    → listener py (optional_text s.listen_host) (optional_integer s.listen_port) ≡ ok (place_of s).1
    → match_listener parsed (place_of s).1 ≡ ok tt
    → service_place py keys (service_dict s) ≡ ok (place_of s)
unfolding service_place get
service_place-service_dict py keys s parsed e1 e2 e3 e4 = rw (e1, e2, e3, e4) refl

service_place_reread :
    (py : Builtins) (keys : List String) (fields : Dict Json) (s : Service)
    → service_place py keys fields ≡ ok (place_of s)
    → service_place py keys (service_dict s) ≡ ok (place_of s)
unfolding service_place
service_place_reread py keys fields s h =
    let (v1, e1, h1) = >>=-eq-ok (item fields "readiness") _ h in
    let (readiness, e2, h2) = >>=-eq-ok (readiness_of py keys v1) _ h1 in
    let (parsed, e3, h3) = >>=-eq-ok (split_readiness py readiness.0) _ h2 in
    let (v4, e4, h4) = >>=-eq-ok (item fields "listen_host") _ h3 in
    let (v5, e5, h5) = >>=-eq-ok (item fields "listen_port") _ h4 in
    let (address, e6, h6) = >>=-eq-ok (listener py v4 v5) _ h5 in
    let (e7, h7) = >>-eq-ok (match_listener parsed address) _ h6 in
    let made : (readiness, address) ≡ place_of s = ok-injective h7 in
    service_place-service_dict py keys s parsed
      (readiness_reread py keys v1 (place_of s).0 (e2 ∙ ap (λ t. ok t.0) made))
      (subst (λ t. split_readiness py t.0.0 ≡ ok parsed) made e3)
      (listener_reread py v4 v5 (place_of s).1 (e6 ∙ ap (λ t. ok t.1) made))
      (subst (λ t. match_listener parsed t.1 ≡ ok tt) made e7)

parse_service-service_json :
    (py : Builtins) (profile : String) (s : Service)
    → service_head py profile (service_dict s)
      ≡ ok (s.name, s.executable, s.working_directory, s.identity, s.arguments)
    → service_surroundings py (service_dict s)
      ≡ ok (s.dependencies, s.environment_file, s.identity_secret_file, s.environment_keys)
    → service_place py s.environment_keys (service_dict s) ≡ ok (place_of s)
    → parse_service py profile (service_json s) ≡ ok s
unfolding parse_service require_exact_keys
parse_service-service_json py profile s e1 e2 e3 = rw (e1, e2, e3) refl

pub parse_service_reread :
    (py : Builtins) (profile : String) → Rereads (parse_service py profile) service_json
unfolding parse_service
parse_service_reread py profile v s h =
    let (fields, e1, h1) = >>=-eq-ok (require_object v) _ h in
    let (exact, h2) = >>-eq-ok (require_exact_keys fields service_keys) _ h1 in
    let (head, e3, h3) = >>=-eq-ok (service_head py profile fields) _ h2 in
    let (around, e4, h4) = >>=-eq-ok (service_surroundings py fields) _ h3 in
    let (place, e5, h5) = >>=-eq-ok (service_place py around.3 fields) _ h4 in
    let made = ok-injective h5 in
    parse_service-service_json py profile s
      (service_head_reread py profile fields s (
        e3
        ∙ ap (λ t. ok (t.name, t.executable, t.working_directory, t.identity, t.arguments)) made))
      (service_surroundings_reread py fields s (
        e4
        ∙ ap
            (λ t.
              ok (t.dependencies, t.environment_file, t.identity_secret_file, t.environment_keys))
            made))
      (service_place_reread py s.environment_keys fields s
        (subst (λ t. service_place py t.environment_keys fields ≡ ok (place_of t)) made e5))

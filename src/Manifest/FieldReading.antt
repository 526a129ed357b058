-- ===== src/Manifest/FieldReading.antt =====
-- manifest.py, `_parse_service`: the fields of a service, written by `digest`, are read again.
use plug_and_play_local_rag.Base.{
  ℕ, ◌≡◌, refl, sym, ap, ◌∙◌, subst, inl, inr, String, List, [], ◌∷◌, false, not, ◌||◌, Option,
  none, some, Bool-cases, all, ok, ◌>>=◌, >>=-eq-ok, raise_if-passes, >>-eq-ok, ok-injective, Dict,
  get, member,
}
use plug_and_play_local_rag.Manifest.{Builtins, ManifestError, is_environment_name, manifest_error}
use plug_and_play_local_rag.Json.{
  Json, integer, is_null, members_of, object, optional_integer, optional_text, text, texts,
}
use plug_and_play_local_rag.Manifest.Services.{
  Readiness, array_field, environment_keys_of, file_field, is_listed, listener, readiness_of,
  text_field,
}
use plug_and_play_local_rag.Manifest.Reading.{
  Rereads, bounded_integer_reread, optional_string_reread, required_string_reread,
  string_array_reread,
}
use plug_and_play_local_rag.Manifest.Fields.{
  bounded_integer, item, optional_string, present, require_exact_keys, require_object,
  required_string, same_bool, string_array, texts_distinct,
}

pub text_field_reread :
    (py : Builtins) (fields : Dict Json) (key s : String)
    → text_field py fields key ≡ ok s
    → required_string py (text s) ≡ ok s
text_field_reread py fields key s h =
    let (v, e, h1) = >>=-eq-ok (item fields key) _ h in required_string_reread py v s h1

present-ok :
    {A : Type 0} (e : ManifestError) (o : Option A) (a : A) → present e o ≡ ok a → o ≡ some a
present-ok e none a h = cc
present-ok e (some b) a h = ap some (ok-injective h)

pub file_field_reread :
    (py : Builtins) (fields : Dict Json) (key s : String)
    → file_field py fields key ≡ ok s
    → optional_string py (text s) ≡ ok (some s)
file_field_reread py fields key s h =
    let (v, e, h1) = >>=-eq-ok (item fields key) _ h in
    let (o, read, h2) = >>=-eq-ok (optional_string py v) _ h1 in
    subst (λ x. optional_string py (optional_text x) ≡ ok x) (present-ok manifest_error o s h2)
      (optional_string_reread py v o read)

pub array_field_reread :
    (fields : Dict Json) (key : String) (l : List String)
    → array_field fields key ≡ ok l
    → string_array (texts l) ≡ ok l
array_field_reread fields key l h =
    let (v, e, h1) = >>=-eq-ok (item fields key) _ h in string_array_reread v l h1

pub environment_keys_reread : Rereads environment_keys_of texts
unfolding environment_keys_of
environment_keys_reread v out h =
    let (keys, e, h1) = >>=-eq-ok (string_array v) _ h in
    let (checked, h2) =
      raise_if-passes
        (not (texts_distinct keys)
          || not (all is_environment_name keys)
          || member keys "RAG_WINDOWS_ACCOUNT_PASSWORD")
        manifest_error _ h1 in
    subst (λ l. environment_keys_of (texts l) ≡ ok l) (ok-injective h2)
      (rw (string_array_reread v keys e, checked) refl)

abbrev pub readiness_json : Readiness → Json
readiness_json r = object (
    members_of (
      ("url", optional_text r.0)
      ∷ ("token_environment", optional_text r.1)
      ∷ ("timeout_seconds", integer r.2)
      ∷ []))

readiness_of-readiness_json :
    (py : Builtins) (keys : List String) (url token : Option String) (timeout : ℕ)
    → optional_string py (optional_text url) ≡ ok url
    → optional_string py (optional_text token) ≡ ok token
    → not (is_listed token keys) ≡ false
    → bounded_integer 1 300 (integer timeout) ≡ ok timeout
    → readiness_of py keys (readiness_json (url, token, timeout)) ≡ ok (url, token, timeout)
unfolding readiness_of require_exact_keys get
readiness_of-readiness_json py keys url token timeout e1 e2 e3 e4 = rw (e1, e2, e3, e4) refl

pub readiness_reread :
    (py : Builtins) (keys : List String) → Rereads (readiness_of py keys) readiness_json
unfolding readiness_of
readiness_reread py keys v r h =
    let (fields, e1, h1) = >>=-eq-ok (require_object v) _ h in
    let (exact, h2) =
      >>-eq-ok (require_exact_keys fields ("url" ∷ "token_environment" ∷ "timeout_seconds" ∷ [])) _
        h1 in
    let (v1, e3, h3) = >>=-eq-ok (item fields "url") _ h2 in
    let (url, e4, h4) = >>=-eq-ok (optional_string py v1) _ h3 in
    let (v2, e5, h5) = >>=-eq-ok (item fields "token_environment") _ h4 in
    let (token, e6, h6) = >>=-eq-ok (optional_string py v2) _ h5 in
    let (listed, h7) = raise_if-passes (not (is_listed token keys)) manifest_error _ h6 in
    let (v3, e8, h8) = >>=-eq-ok (item fields "timeout_seconds") _ h7 in
    let (timeout, e9, h9) = >>=-eq-ok (bounded_integer 1 300 v3) _ h8 in
    subst (λ x. readiness_of py keys (readiness_json x) ≡ ok x) (ok-injective h9)
      (readiness_of-readiness_json py keys url token timeout (optional_string_reread py v1 url e4)
        (optional_string_reread py v2 token e6) listed (bounded_integer_reread 1 300 v3 timeout e9))

pub listener_reread :
    (py : Builtins) (v w : Json) (l : Option String × Option ℕ)
    → listener py v w ≡ ok l
    → listener py (optional_text l.0) (optional_integer l.1) ≡ ok l
unfolding listener
listener_reread py v w l h =
    let (together, h1) =
      raise_if-passes (not (same_bool (is_null v) (is_null w))) manifest_error _ h in
    elim (Bool-cases (is_null v)) [
      | inl nowhere ↦
          let same : (none, none) ≡ l = ok-injective (sym (rw nowhere refl) ∙ h1) in
          subst (λ x. listener py (optional_text x.0) (optional_integer x.1) ≡ ok x) same refl
      | inr given ↦
          let (host, e, h2) =
            >>=-eq-ok (required_string py v)
              (λ s. bounded_integer 1 65535 w >>= λ p. ok (some s, some p))
              (sym (rw given refl) ∙ h1) in
          let (port, f, h3) = >>=-eq-ok (bounded_integer 1 65535 w) _ h2 in
          subst (λ x. listener py (optional_text x.0) (optional_integer x.1) ≡ ok x)
            (ok-injective h3)
            (rw (required_string_reread py v host e, bounded_integer_reread 1 65535 w port f) refl)
    ]

-- ===== src/Messages/Reading.antt =====
-- controller.py: a request is read from its encoding, and a configuration that was read is read again.
use plug_and_play_local_rag.Base.{
  ◌≡◌, refl, sym, ◌∙◌, subst, inl, inr, String, Bool, true, false, Option, none, some, arith, ltb,
  leb, Bool-cases, if◌then◌else◌, length, ok, err, >>=-eq-ok, ok-injective, Dict, get,
}
use plug_and_play_local_rag.Profiles.{RuntimeConfiguration}
use plug_and_play_local_rag.Messages.{
  ControllerAction, ControllerRequest, Wire, action_value, apply_configuration, configuration_json,
  configuration_keys, create_backup, encode, field, fields_of, is_mode, is_nonce, is_preset_id,
  is_profile_id, match_text, matched, matched_field, max_message_bytes, parse_action,
  parse_configuration, parse_mode, parse_request, parse_value, protocol_error, request_json,
  type_error, uuid, verify_backup,
}
use plug_and_play_local_rag.Json.{Json, as_text, is_unhashable, text}

parse_action-action_value : (a : ControllerAction) → parse_action (text (action_value a)) ≡ ok a
unfolding parse_action
parse_action-action_value apply_configuration = refl
parse_action-action_value create_backup = refl
parse_action-action_value verify_backup = refl

-- What the standard library does with the message of a request: `loads` reads what `dumps` wrote, and
-- `UUID` reads the text of a UUID.
pub record Reads (wire : Wire) (r : ControllerRequest) : Type 0 where
  pub loads_dumps : wire.loads (encode wire r) ≡ some (request_json r)
  pub reads_uuid : wire.parse_uuid (text r.change_id) ≡ uuid r.change_id

-- A request with a nonce of the protocol is read from its own encoding, if that is not longer than a
-- message may be, and refused if it is. (Of the standard library it is assumed that it reads the JSON
-- and the UUID that it wrote.)
pub parse_request-encode :
    (wire : Wire) (r : ControllerRequest)
    → Reads wire r
    → is_nonce r.nonce ≡ true
    → parse_request wire (encode wire r)
      ≡ (if leb (length (encode wire r)) max_message_bytes then ok r else err protocol_error)
unfolding parse_request parse_value fields_of match_text get
parse_request-encode wire r reads nonce =
    elim (Bool-cases (leb (length (encode wire r)) max_message_bytes)) [
      | inl fits ↦
          let short : ltb max_message_bytes (length (encode wire r)) ≡ false =
            ground (arith, fits) in
          rw
            (
              fits,
              short,
              reads.loads_dumps,
              parse_action-action_value r.action,
              reads.reads_uuid,
              nonce,
            )
            refl
      | inr long ↦
          let over : ltb max_message_bytes (length (encode wire r)) ≡ true = ground (arith, long) in
          rw (long, over) refl
    ]

abbrev pub IsConfiguration : RuntimeConfiguration → Type 0
IsConfiguration c =
    (is_profile_id c.generation_profile_id ≡ true)
    × (is_profile_id c.reranker_profile_id ≡ true)
    × (is_profile_id c.ocr_profile_id ≡ true)
    × (is_mode c.ocr_mode ≡ true)
    × (is_preset_id c.ocr_preset_id ≡ true)

matched-true :
    (p : String → Bool) (o : Option String) {s : String} → matched p o ≡ ok s → p s ≡ true
matched-true p none h = cc
matched-true p (some t) {s} h = elim (Bool-cases (p t)) [
  | inl fits ↦
      let same : t ≡ s = ok-injective (sym (rw fits refl) ∙ h) in subst (λ x. p x ≡ true) same fits
  | inr other ↦ absurd (let bad : err protocol_error ≡ ok s = sym (rw other refl) ∙ h in cc)
]

matched_field-true :
    (p : String → Bool) (fields : Dict Json) (key : String) {s : String}
    → matched_field (match_text p) fields key ≡ ok s
    → p s ≡ true
unfolding match_text
matched_field-true p fields key h =
    let (v, e, k) = >>=-eq-ok (field fields key) _ h in matched-true p (as_text v) k

parse_mode-true :
    (fields : Dict Json) (key : String) {s : String}
    → matched_field parse_mode fields key ≡ ok s
    → is_mode s ≡ true
unfolding parse_mode
parse_mode-true fields key {s} h =
    let (v, e, k) = >>=-eq-ok (field fields key) _ h in
    elim (Bool-cases (is_unhashable v)) [
      | inl list ↦ absurd (let bad : err type_error ≡ ok s = sym (rw list refl) ∙ k in cc)
      | inr other ↦ matched-true is_mode (as_text v) (sym (rw other refl) ∙ k)
    ]

parse_configuration-IsConfiguration :
    (v : Json) {c : RuntimeConfiguration} → parse_configuration v ≡ ok c → IsConfiguration c
unfolding parse_configuration
parse_configuration-IsConfiguration v {c} h =
    let (fields, e1, h1) = >>=-eq-ok (fields_of configuration_keys v) _ h in
    let (generation, e2, h2) =
      >>=-eq-ok (matched_field (match_text is_profile_id) fields "generation_profile_id") _ h1 in
    let (reranker, e3, h3) =
      >>=-eq-ok (matched_field (match_text is_profile_id) fields "reranker_profile_id") _ h2 in
    let (ocr, e4, h4) =
      >>=-eq-ok (matched_field (match_text is_profile_id) fields "ocr_profile_id") _ h3 in
    let (mode, e5, h5) = >>=-eq-ok (matched_field parse_mode fields "ocr_mode") _ h4 in
    let (preset, e6, h6) =
      >>=-eq-ok (matched_field (match_text is_preset_id) fields "ocr_preset_id") _ h5 in
    subst IsConfiguration (ok-injective h6) (
      matched_field-true is_profile_id fields "generation_profile_id" e2,
      matched_field-true is_profile_id fields "reranker_profile_id" e3,
      matched_field-true is_profile_id fields "ocr_profile_id" e4,
      parse_mode-true fields "ocr_mode" e5,
      matched_field-true is_preset_id fields "ocr_preset_id" e6,
    )

-- A configuration that is read has identifiers of the patterns and a known mode, and written as JSON
-- it is read as the same configuration.
pub parse_configuration-configuration_json :
    (v : Json) (c : RuntimeConfiguration)
    → parse_configuration v ≡ ok c
    → IsConfiguration c × (parse_configuration (configuration_json c) ≡ ok c)
unfolding parse_configuration fields_of match_text parse_mode get
parse_configuration-configuration_json v c h =
    let valid = parse_configuration-IsConfiguration v h in
    let (e1, e2, e3, e4, e5) = valid in (valid, rw (e1, e2, e3, e4, e5) refl)

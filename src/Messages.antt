-- ===== src/Messages.antt =====
-- apps/supervisor/controller.py: the messages and the configurations that cross the boundary of the
-- local controller. An error is its class. The JSON text and `UUID` of the standard library are a
-- parameter.
pub mod Reading
use plug_and_play_local_rag.Base.{
  ℕ, String, List, [], ◌∷◌, Bool, not, ◌||◌, Option, none, some, ltb, str_eq, if◌then◌else◌, length,
  Result, ok, err, ◌>>=◌, ◌>>◌, raise_if, Dict, get, member, is_digit, is_upper, is_lower,
  is_one_of, full_match,
}
use Prim.Native.Char.{Char}
use plug_and_play_local_rag.Json.{
  Json, text, object, as_text, as_object, is_unhashable, keys_of, same_set, members_of,
}
use plug_and_play_local_rag.Profiles.{RuntimeConfiguration}
use plug_and_play_local_rag.Json.{array}

pub data ControllerAction : Type 0 where
  apply_configuration create_backup verify_backup : ControllerAction

-- The change is named by the text of its UUID.
pub record ControllerRequest : Type 0 where
  pub action : ControllerAction
  pub change_id : String
  pub nonce : String

-- ControllerProtocolError; the TypeError of an array or an object that is looked up in a set, the
-- AttributeError of `UUID` on a number or an array, and the KeyError of a missing key.
pub data ProtocolError : Type 0 where
  protocol_error type_error attribute_error key_error : ProtocolError

-- `str(UUID(value))`: a TypeError or a ValueError is `refused`.
pub data Parsed : Type 0 where
  uuid : String → Parsed
  refused no_text : Parsed

-- `json.loads(payload.decode("utf-8"))`, with `none` for an error of either; `json.dumps` with sorted
-- keys, encoded; and `UUID`.
pub record Wire : Type 0 where
  pub loads : List ℕ → Option Json
  pub dumps : Json → List ℕ
  pub parse_uuid : Json → Parsed

abbrev pub max_message_bytes : ℕ
max_message_bytes = 2048

abbrev is_word : Char → Bool
is_word c = is_upper c || is_lower c || is_digit c || is_one_of (95 ∷ 45 ∷ []) c

-- _NONCE: ^[A-Za-z0-9_-]{43,128}$
unfoldable pub is_nonce : String → Bool
is_nonce = full_match is_word is_word 42 127

abbrev starts_id : Char → Bool
starts_id c = is_lower c || is_digit c

-- _PROFILE_ID: ^[a-z0-9][a-z0-9._-]{2,95}$
unfoldable pub is_profile_id : String → Bool
is_profile_id = full_match starts_id (λ c. starts_id c || is_one_of (46 ∷ 95 ∷ 45 ∷ []) c) 2 95

-- _PRESET_ID: ^[a-z0-9][a-z0-9_-]{1,31}$
unfoldable pub is_preset_id : String → Bool
is_preset_id = full_match starts_id (λ c. starts_id c || is_one_of (95 ∷ 45 ∷ []) c) 1 31

abbrev or_raise : {A : Type 0} → ProtocolError → Option A → Result ProtocolError A
or_raise e none = err e
or_raise e (some a) = ok a

-- if not isinstance(value, dict) or set(value) != {...}: raise ControllerProtocolError
unfoldable pub fields_of : List String → Json → Result ProtocolError (Dict Json)
fields_of keys value = do
  fields ← or_raise protocol_error (as_object value)
  raise_if (not (same_set (keys_of fields) keys)) protocol_error
  ok fields

abbrev pub field : Dict Json → String → Result ProtocolError Json
field fields key = or_raise key_error (get fields key)

abbrev pub action_value : ControllerAction → String
action_value apply_configuration = "apply_configuration"
action_value create_backup = "create_backup"
action_value verify_backup = "verify_backup"

abbrev action_of : Option String → Result ProtocolError ControllerAction
action_of none = err protocol_error
action_of (some s) =
    if str_eq s "apply_configuration"
    then ok apply_configuration
    else (if str_eq s "create_backup"
        then ok create_backup
        else (if str_eq s "verify_backup" then ok verify_backup else err protocol_error))

-- ControllerAction(value)
unfoldable pub parse_action : Json → Result ProtocolError ControllerAction
parse_action value = action_of (as_text value)

abbrev change_of : Parsed → Result ProtocolError String
change_of (uuid u) = ok u
change_of refused = err protocol_error
change_of no_text = err attribute_error

-- A text that matches a pattern.
abbrev pub matched : (String → Bool) → Option String → Result ProtocolError String
matched p none = err protocol_error
matched p (some s) = if p s then ok s else err protocol_error

unfoldable pub match_text : (String → Bool) → Json → Result ProtocolError String
match_text p value = matched p (as_text value)

abbrev request_keys : List String
request_keys = "action" ∷ "change_id" ∷ "nonce" ∷ []

unfoldable pub parse_value : Wire → Json → Result ProtocolError ControllerRequest
parse_value wire value = do
  fields ← fields_of request_keys value
  action_field ← field fields "action"
  action ← parse_action action_field
  change_field ← field fields "change_id"
  change_id ← change_of (wire.parse_uuid change_field)
  nonce_field ← field fields "nonce"
  nonce ← match_text is_nonce nonce_field
  ok (record { action = action; change_id = change_id; nonce = nonce })

-- `ControllerRequest.parse`
unfoldable pub parse_request : Wire → List ℕ → Result ProtocolError ControllerRequest
unfolding parse_value
parse_request wire payload = do
  raise_if (ltb max_message_bytes (length payload)) protocol_error
  value ← or_raise protocol_error (wire.loads payload)
  parse_value wire value

abbrev pub request_json : ControllerRequest → Json
request_json r = object (
    members_of (
      ("action", text (action_value r.action))
      ∷ ("change_id", text r.change_id)
      ∷ ("nonce", text r.nonce)
      ∷ []))

-- `ControllerRequest.encode`
unfoldable pub encode : Wire → ControllerRequest → List ℕ
encode wire r = wire.dumps (request_json r)

abbrev pub configuration_keys : List String
configuration_keys =
    "generation_profile_id" ∷ "reranker_profile_id" ∷ "ocr_mode" ∷ "ocr_profile_id"
    ∷ "ocr_preset_id" ∷ []

abbrev pub is_mode : String → Bool
is_mode s = member ("auto" ∷ "explicit" ∷ []) s

unfoldable pub parse_mode : Json → Result ProtocolError String
parse_mode value = if is_unhashable value then err type_error else matched is_mode (as_text value)

abbrev pub matched_field :
    (Json → Result ProtocolError String) → Dict Json → String → Result ProtocolError String
matched_field read fields key = do value ← field fields key; read value

-- `RuntimeConfiguration.parse`
unfoldable pub parse_configuration : Json → Result ProtocolError RuntimeConfiguration
parse_configuration value = do
  fields ← fields_of configuration_keys value
  generation ← matched_field (match_text is_profile_id) fields "generation_profile_id"
  reranker ← matched_field (match_text is_profile_id) fields "reranker_profile_id"
  ocr ← matched_field (match_text is_profile_id) fields "ocr_profile_id"
  mode ← matched_field parse_mode fields "ocr_mode"
  preset ← matched_field (match_text is_preset_id) fields "ocr_preset_id"
  ok (record {
    generation_profile_id = generation;
    reranker_profile_id = reranker;
    ocr_mode = mode;
    ocr_profile_id = ocr;
    ocr_preset_id = preset;
  })

abbrev pub configuration_json : RuntimeConfiguration → Json
configuration_json c = object (
    members_of (
      ("generation_profile_id", text c.generation_profile_id)
      ∷ ("reranker_profile_id", text c.reranker_profile_id)
      ∷ ("ocr_mode", text c.ocr_mode)
      ∷ ("ocr_profile_id", text c.ocr_profile_id)
      ∷ ("ocr_preset_id", text c.ocr_preset_id)
      ∷ []))

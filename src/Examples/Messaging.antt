-- ===== src/Examples/Messaging.antt =====
-- Messages and configurations of the controller.
use plug_and_play_local_rag.Base.{
  ◌≡◌, refl, String, [], ◌∷◌, some, leb, if◌then◌else◌, length, ok, err, get,
}
use plug_and_play_local_rag.Json.{Json, text, array, no_elements}
use plug_and_play_local_rag.Profiles.{RuntimeConfiguration}
use plug_and_play_local_rag.Messages.{
  ControllerRequest, Parsed, Wire, configuration_json, create_backup, encode, fields_of, is_nonce,
  is_preset_id, is_profile_id, match_text, max_message_bytes, no_text, parse_configuration,
  parse_mode, parse_request, protocol_error, request_json, type_error, uuid,
}
use plug_and_play_local_rag.Messages.Reading.{
  IsConfiguration, Reads, parse_configuration-configuration_json, parse_request-encode,
}

abbrev change : String
change = "6f1c2d3e-0000-4000-8000-000000000001"

abbrev request : ControllerRequest
request = record {
  action = create_backup;
  change_id = change;
  nonce = "abcdefghijklmnopqrstuvwxyzABCDEFGHIJKLMNOPQRSTU";
}

abbrev uuid_of : Json → Parsed
uuid_of (text s) = uuid s
uuid_of v = no_text

-- A wire on which the one message is three bytes.
abbrev wire : Wire
wire = record {
  loads = λ payload. some (request_json request);
  dumps = λ v. 1 ∷ 2 ∷ 3 ∷ [];
  parse_uuid = uuid_of;
}

wire-Reads : Reads wire request
unfolding encode
wire-Reads = record { loads_dumps = refl; reads_uuid = refl }

parse_request-encode_example : parse_request wire (encode wire request) ≡ (
    if leb (length (encode wire request)) max_message_bytes then ok request else err protocol_error)
unfolding is_nonce
parse_request-encode_example = parse_request-encode wire request wire-Reads refl

abbrev configuration : RuntimeConfiguration
configuration = record {
  generation_profile_id = "gen-small";
  reranker_profile_id = "rerank.v1";
  ocr_mode = "auto";
  ocr_profile_id = "ocr-cpu";
  ocr_preset_id = "fast";
}

parse_configuration-configuration_json_example :
    IsConfiguration configuration
    × (parse_configuration (configuration_json configuration) ≡ ok configuration)
unfolding parse_configuration fields_of match_text parse_mode is_profile_id is_preset_id get
parse_configuration-configuration_json_example =
    parse_configuration-configuration_json (configuration_json configuration) configuration refl

-- A mode that is an array raises a TypeError.
array_mode : parse_mode (array no_elements) ≡ err type_error
unfolding parse_mode
array_mode = refl

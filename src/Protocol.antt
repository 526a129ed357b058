-- ===== src/Protocol.antt =====
-- apps/api/app/runtime/protocol.py: the limits on the bodies and the requests of the coordinator, with
-- the requests that the handlers of coordinator.py make of them. Of a body only its length is modelled.
pub mod Limits
use plug_and_play_local_rag.Base.{
  ℕ, ◌+◌, String, List, [], ◌∷◌, Bool, true, false, not, ◌&&◌, ◌||◌, Option, none, some, ltb, leb,
  ◌==◌, str_eq, if◌then◌else◌, length, any, all, Result, err, ◌>>=◌, ◌>>◌, raise_if, ends_with,
  is_digit, is_lower, is_one_of, full_match,
}
use Prim.Native.String.{[] as empty, ◌∷◌ as ◌∷ₛ◌, count}
use Prim.Native.Char.{Char}
use plug_and_play_local_rag.Scheduler.Queue.{Priority}

abbrev pub maximum_protocol_body_bytes : ℕ
maximum_protocol_body_bytes = 262144

-- A message of the ASGI server: a part of the body, with its length and whether more follows; the end
-- of the connection; or any other.
pub data Message : Type 0 where
  body_part : ℕ → Bool → Message
  disconnect other_message : Message

-- The messages that the application is given, the response 413, or that the body is not complete.
pub data Buffered : Type 0 where
  replayed : List Message → Buffered
  too_large awaiting : Buffered

abbrev pub before : Message → Buffered → Buffered
before m (replayed l) = replayed (m ∷ l)
before m too_large = too_large
before m awaiting = awaiting

-- The loop of the middleware, with the size so far
unfoldable pub buffer : ℕ → ℕ → List Message → Buffered
buffer maximum size [] = awaiting
buffer maximum size (disconnect ∷ l) = replayed (disconnect ∷ [])
buffer maximum size (other_message ∷ l) = before other_message (buffer maximum size l)
buffer maximum size (body_part n false ∷ l) =
    if ltb maximum (size + n) then too_large else replayed (body_part n false ∷ [])
buffer maximum size (body_part n true ∷ l) =
    let rest = buffer maximum (size + n) l in
    if ltb maximum (size + n) then too_large else before (body_part n true) rest

-- The requests that the middleware lets pass as they are.
unfoldable pub is_unbuffered : String → Option String → Option String → Bool
is_unbuffered kind method path = not (str_eq kind "http") || (has_method method && has_input path)
  where
    has_method : Option String → Bool
    has_method none = false
    has_method (some m) = str_eq m "PUT"

    has_input : Option String → Bool
    has_input none = ends_with "/input" ""
    has_input (some p) = ends_with "/input" p

pub data HeaderError : Type 0 where
  length_required content_too_large unsupported_media_type : HeaderError

abbrev has_length : Option ℕ → Result HeaderError Unit
has_length none = err length_required
has_length (some n) = raise_if (ltb maximum_protocol_body_bytes n) content_too_large

abbrev has_type : (String → String) → Option String → Result HeaderError Unit
has_type media_type none = err unsupported_media_type
has_type media_type (some t) =
    raise_if (not (str_eq (media_type t) "application/json")) unsupported_media_type

-- `require_bounded_json`; `media_type` is what stands before a semicolon, stripped and in lower case.
unfoldable pub require_bounded_json :
    (String → String) → Option ℕ → Option String → Result HeaderError Unit
require_bounded_json media_type content_length content_type = do
  has_length content_length
  has_type media_type content_type

abbrev is_name_char : Char → Bool
is_name_char c = is_lower c || is_digit c

abbrev ends_in : (Char → Bool) → Bool → String → Bool
ends_in p last empty = last
ends_in p last (c ∷ₛ s) = ends_in p (p c) s

-- REQUEST_ID_PATTERN: ^[a-z0-9](?:[a-z0-9-]{0,62}[a-z0-9])?$
unfoldable pub is_request_id : String → Bool
is_request_id s =
    full_match is_name_char (λ c. is_name_char c || is_one_of (45 ∷ []) c) 0 63 s
    && ends_in is_name_char false s

pub data RequestStage : Type 0 where
  generation rerank embedding : RequestStage

pub record CoordinatorRequest : Type 0 where
  pub request_id : String
  pub stage : RequestStage
  pub priority : Priority
  pub inputs : List String
  pub think : Bool

pub record EmbedRequest : Type 0 where
  pub request_id : String
  pub priority : Priority
  pub texts : List String

pub record RerankRequest : Type 0 where
  pub request_id : String
  pub priority : Priority
  pub query : String
  pub passages : List String

pub record GenerateRequest : Type 0 where
  pub request_id : String
  pub priority : Priority
  pub prompt : String
  pub think : Bool

pub record OcrRequest : Type 0 where
  pub request_id : String
  pub job_id : String
  pub pages : List ℕ

abbrev pub is_input : String → Bool
is_input s = leb 1 (count s) && leb (count s) 32768

abbrev pub is_batch : {A : Type 0} → List A → Bool
is_batch l = leb 1 (length l) && leb (length l) 32

abbrev pub fits_stage : RequestStage → List String → Bool
fits_stage generation l = length l == 1
fits_stage rerank l = leb 2 (length l)
fits_stage embedding l = true

-- What the model validates, with `validate_inputs`.
unfoldable pub is_coordinator_request : CoordinatorRequest → Bool
is_coordinator_request r =
    is_request_id r.request_id
    && is_batch r.inputs
    && all is_input r.inputs
    && fits_stage r.stage r.inputs

-- EmbedRequest, with `validate_texts`
unfoldable pub is_embed_request : EmbedRequest → Bool
is_embed_request r = is_request_id r.request_id && is_batch r.texts && all is_input r.texts

-- RerankRequest, with `validate_passages`
unfoldable pub is_rerank_request : RerankRequest → Bool
is_rerank_request r =
    is_request_id r.request_id && is_input r.query && is_batch r.passages && all is_input r.passages

unfoldable pub is_generate_request : GenerateRequest → Bool
is_generate_request r = is_request_id r.request_id && is_input r.prompt

abbrev is_listed : List ℕ → ℕ → Bool
is_listed [] n = false
is_listed (m ∷ l) n = (m == n) || is_listed l n

abbrev are_distinct : List ℕ → Bool
are_distinct [] = true
are_distinct (n ∷ l) = not (is_listed l n) && are_distinct l

-- OcrRequest, with `validate_pages`
unfoldable pub is_ocr_request : OcrRequest → Bool
is_ocr_request r =
    is_request_id r.request_id
    && is_request_id r.job_id
    && is_batch r.pages
    && all (λ n. leb 1 n && leb n 100000) r.pages
    && are_distinct r.pages

-- What the handlers `embed`, `rerank` and `generate` submit
unfoldable pub embed_request : EmbedRequest → CoordinatorRequest
embed_request r = record {
  request_id = r.request_id;
  stage = embedding;
  priority = r.priority;
  inputs = r.texts;
  think = true;
}

unfoldable pub rerank_request : RerankRequest → CoordinatorRequest
rerank_request r = record {
  request_id = r.request_id;
  stage = rerank;
  priority = r.priority;
  inputs = r.query ∷ r.passages;
  think = true;
}

unfoldable pub generate_request : GenerateRequest → CoordinatorRequest
generate_request r = record {
  request_id = r.request_id;
  stage = generation;
  priority = r.priority;
  inputs = r.prompt ∷ [];
  think = r.think;
}

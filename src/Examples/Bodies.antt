-- ===== src/Examples/Bodies.antt =====
-- Bodies and requests of the coordinator's protocol.
use plug_and_play_local_rag.Base.{◌≡◌, refl, List, [], ◌∷◌, true, false, leb, length}
use plug_and_play_local_rag.Protocol.{
  EmbedRequest, GenerateRequest, Message, RerankRequest, body_part, buffer, disconnect,
  embed_request, generate_request, is_coordinator_request, is_embed_request, is_generate_request,
  is_request_id, is_rerank_request, other_message, replayed, rerank_request, too_large,
}
use plug_and_play_local_rag.Protocol.Limits.{IsBounded, buffer-IsBounded, submitted_requests}
use plug_and_play_local_rag.Scheduler.Queue.{interactive}

abbrev received : List Message
received = body_part 3 true ∷ other_message ∷ body_part 2 false ∷ disconnect ∷ []

received_whole :
    buffer 5 0 received ≡ replayed (body_part 3 true ∷ other_message ∷ body_part 2 false ∷ [])
unfolding buffer
received_whole = refl

received_too_much : buffer 4 0 received ≡ too_large
unfolding buffer
received_too_much = refl

buffer-IsBounded_example : IsBounded 5 0 received (buffer 5 0 received)
buffer-IsBounded_example = buffer-IsBounded 5 received

abbrev ranked : RerankRequest
ranked = record {
  request_id = "job-1";
  priority = interactive;
  query = "q";
  passages = "a" ∷ "b" ∷ [];
}

abbrev embedded : EmbedRequest
embedded = record { request_id = "job-2"; priority = interactive; texts = "a" ∷ [] }

abbrev generated : GenerateRequest
generated = record { request_id = "job-3"; priority = interactive; prompt = "p"; think = false }

trailing_dash : is_request_id "job-" ≡ false
unfolding is_request_id
trailing_dash = refl

submitted_requests_example :
    (is_coordinator_request (rerank_request ranked) ≡ leb (length ranked.passages) 31)
    × (is_coordinator_request (embed_request embedded) ≡ true)
    × (is_coordinator_request (generate_request generated) ≡ true)
unfolding is_rerank_request is_embed_request is_generate_request is_request_id
submitted_requests_example = submitted_requests ranked embedded generated refl refl refl

-- ===== src/Protocol/Limits.antt =====
-- protocol.py: what the limits guarantee of bodies and of submitted requests.
use plug_and_play_local_rag.Base.{
  ℕ, ◌+◌, ◌≤◌, ◌<◌, ◌≡◌, refl, ap, subst, inl, inr, List, [], ◌∷◌, true, false, arith, ltb, leb,
  ltb→lt, Bool-cases, length, take,
}
use plug_and_play_local_rag.Protocol.{
  Buffered, EmbedRequest, GenerateRequest, Message, RerankRequest, awaiting, before, body_part,
  buffer, disconnect, embed_request, generate_request, is_coordinator_request, is_embed_request,
  is_generate_request, is_rerank_request, other_message, replayed, rerank_request, too_large,
}

abbrev pub body_bytes : List Message → ℕ
body_bytes [] = 0
body_bytes (body_part n more ∷ l) = n + body_bytes l
body_bytes (disconnect ∷ l) = body_bytes l
body_bytes (other_message ∷ l) = body_bytes l

-- The messages are the first of those received, and their body is within the limit.
abbrev pub IsBounded : ℕ → ℕ → List Message → Buffered → Type 0
IsBounded maximum size received (replayed l) =
    (size + body_bytes l ≤ maximum) × (take (length l) received ≡ l)
IsBounded maximum size received too_large = maximum < size + body_bytes received
IsBounded maximum size received awaiting = size + body_bytes received ≤ maximum

before-IsBounded :
    (m : Message) (n maximum size : ℕ) (l : List Message) (o : Buffered)
    → ((rest : List Message) → body_bytes (m ∷ rest) ≡ n + body_bytes rest)
    → IsBounded maximum (size + n) l o
    → IsBounded maximum size (m ∷ l) (before m o)
before-IsBounded m n maximum size l (replayed rest) e (b, t) =
    (omega (arith, e rest, b), ap (λ x. m ∷ x) t)
before-IsBounded m n maximum size l too_large e b = omega (arith, e l, b)
before-IsBounded m n maximum size l awaiting e b = omega (arith, e l, b)

buffer-IsBounded_from :
    (maximum size : ℕ) (l : List Message)
    → size ≤ maximum
    → IsBounded maximum size l (buffer maximum size l)
unfolding buffer
buffer-IsBounded_from maximum size [] h = omega (arith, h)
buffer-IsBounded_from maximum size (disconnect ∷ l) h = (omega (arith, h), refl)
buffer-IsBounded_from maximum size (other_message ∷ l) h =
    before-IsBounded other_message 0 maximum size l (buffer maximum size l) (λ rest. omega arith)
      (subst (λ n. IsBounded maximum n l (buffer maximum size l)) (omega arith)
        (buffer-IsBounded_from maximum size l h))
buffer-IsBounded_from maximum size (body_part n false ∷ l) h =
    elim (Bool-cases (ltb maximum (size + n))) [
      | inl over ↦ rw over (omega (arith, ltb→lt maximum (size + n) over))
      | inr fits ↦ rw fits (ground (arith, fits), refl)
    ]
buffer-IsBounded_from maximum size (body_part n true ∷ l) h =
    elim (Bool-cases (ltb maximum (size + n))) [
      | inl over ↦ rw over (omega (arith, ltb→lt maximum (size + n) over))
      | inr fits ↦ rw fits (
          before-IsBounded (body_part n true) n maximum size l (buffer maximum (size + n) l)
            (λ rest. omega arith)
            (buffer-IsBounded_from maximum (size + n) l (ground (arith, fits))))
    ]

-- The application is given the first messages as they were received, with a body within the limit; the
-- middleware answers 413 only if the body that was received is over the limit, and waits for more only
-- while it is within.
pub buffer-IsBounded :
    (maximum : ℕ) (received : List Message)
    → IsBounded maximum 0 received (buffer maximum 0 received)
buffer-IsBounded maximum received = buffer-IsBounded_from maximum 0 received (omega arith)

-- A rerank request that is valid makes a valid request of the coordinator exactly when it has at most 31
-- passages, since the query is an input too; the requests to embed and to generate always do.
pub submitted_requests :
    (r : RerankRequest) (e : EmbedRequest) (g : GenerateRequest)
    → is_rerank_request r ≡ true
    → is_embed_request e ≡ true
    → is_generate_request g ≡ true
    → (is_coordinator_request (rerank_request r) ≡ leb (length r.passages) 31)
      × (is_coordinator_request (embed_request e) ≡ true)
      × (is_coordinator_request (generate_request g) ≡ true)
unfolding is_rerank_request is_embed_request is_generate_request is_coordinator_request
    rerank_request embed_request generate_request
submitted_requests r e g hr he hg = (ground (arith, hr), ground (arith, he), ground (arith, hg))

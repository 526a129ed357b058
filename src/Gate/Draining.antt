-- ===== src/Gate/Draining.antt =====
-- maintenance_gate.py: what a finished drain guarantees.
use plug_and_play_local_rag.Base.{
  ℕ, suc, ◌+◌, ◌-◌, ◌≤◌, ◌==◌, false, ◌≡◌, refl, ◌↔◌, List, [], ◌∷◌, true, arith, if◌then◌else◌,
  All,
}
use plug_and_play_local_rag.Gate.{enter_mutation, leave_mutation, begin_drain, Scope, is_gated}
use plug_and_play_local_rag.Gate.Requests.{
  Server, new_server, Event, arrives, ends, drains, resumes, handled, unavailable, arrive, handle,
  serve, IsCounted, handle-IsCounted, serve-IsCounted, without, within,
}

IsCounted-new_server : IsCounted new_server
IsCounted-new_server = ground arith

-- From a fresh server, after any events, the event that `drain` waits for is set exactly when no
-- gated request is inside the application.
pub idle-passed :
    (es : List Event)
    → ((serve new_server es).gate.idle ≡ true) ↔ ((serve new_server es).passed ≡ [])
idle-passed es =
    idle_means (serve new_server es) (serve-IsCounted new_server es IsCounted-new_server)
  where
    idle_means : (s : Server) → IsCounted s → (s.gate.idle ≡ true) ↔ (s.passed ≡ [])
    idle_means s h = ground arith

-- The event does not reopen the gate.
abbrev pub StaysClosed : Event → Type 0
StaysClosed resumes = ⊥
StaysClosed e = Unit {0}

-- A closed gate with no request inside.
abbrev pub IsQuiet : Server → Type 0
IsQuiet s = (s.gate.draining ≡ true) × (s.passed ≡ [])

handle-IsQuiet : (s : Server) (e : Event) → StaysClosed e → IsQuiet s → IsQuiet (handle s e)
unfolding handle enter_mutation begin_drain
handle-IsQuiet s (arrives n scope) c h = ground arith
handle-IsQuiet s (ends n) c h = ground arith
handle-IsQuiet s drains c h = ground arith
handle-IsQuiet s resumes c h = absurd c

serve-IsQuiet :
    (s : Server) (es : List Event) → All StaysClosed es → IsQuiet s → IsQuiet (serve s es)
unfolding serve
serve-IsQuiet s [] c h = h
serve-IsQuiet s (e ∷ es) c h = serve-IsQuiet (handle s e) es c.1 (handle-IsQuiet s e c.0 h)

-- When a server's drain has returned (the gate is draining and the event is set), no gated request is
-- inside the application and none comes in before a resume; a gated request that arrives is answered
-- 503, and any other request is handled.
pub drained_stays_quiet :
    (s : Server) (es : List Event)
    → IsCounted s
    → s.gate.draining ≡ true
    → s.gate.idle ≡ true
    → All StaysClosed es
    → ((serve s es).passed ≡ [])
      × ((n : ℕ) (scope : Scope)
          → (arrive n scope (serve s es)).1 ≡ (if is_gated scope then unavailable else handled))
unfolding arrive enter_mutation
drained_stays_quiet s es h d i c =
    let quiet = serve-IsQuiet s es c (d, ground arith) in
    (quiet.1, λ n scope. refuses n scope (serve s es) quiet.0)
  where
    refuses :
        (n : ℕ) (scope : Scope) (t : Server)
        → t.gate.draining ≡ true
        → (arrive n scope t).1 ≡ (if is_gated scope then unavailable else handled)
    refuses n scope t closed = ground arith

-- How often a request is among these, and how often it ends.
abbrev pub count : ℕ → List ℕ → ℕ
count n [] = 0
count n (m ∷ l) = if n == m then suc (count n l) else count n l

abbrev pub ended : ℕ → Event → ℕ
ended n (ends m) = if n == m then 1 else 0
ended n e = 0

abbrev pub all_ended : ℕ → List Event → ℕ
all_ended n [] = 0
all_ended n (e ∷ es) = ended n e + all_ended n es

count-without :
    (n m : ℕ) (l : List ℕ) → count n (without m l) ≡ count n l - (if n == m then 1 else 0)
unfolding without
count-without n m [] = ground arith
count-without n m (k ∷ l) = ground (arith, count-without n m l)

count-outside : (n m : ℕ) (l : List ℕ) → within m l ≡ false → n ≡ m → count n l ≡ 0
count-outside n m [] h e = refl
count-outside n m (k ∷ l) h e = ground (arith, count-outside n m l)

-- While the gate drains, the requests inside become fewer by those that end.
handle-count :
    (n : ℕ) (s : Server) (e : Event)
    → StaysClosed e
    → s.gate.draining ≡ true
    → (count n (handle s e).passed ≡ count n s.passed - ended n e)
      × ((handle s e).gate.draining ≡ true)
unfolding handle enter_mutation leave_mutation begin_drain
handle-count n s (arrives m scope) c d = (ground (arith, d), ground (arith, d))
handle-count n s (ends m) c d =
    (ground (arith, count-without n m s.passed, count-outside n m s.passed), ground (arith, d))
handle-count n s drains c d = (ground arith, ground arith)
handle-count n s resumes c d = absurd c

serve-count :
    (n : ℕ) (s : Server) (es : List Event)
    → All StaysClosed es
    → s.gate.draining ≡ true
    → (count n (serve s es).passed ≡ count n s.passed - all_ended n es)
      × ((serve s es).gate.draining ≡ true)
unfolding serve
serve-count n s [] c d = (omega arith, d)
serve-count n s (e ∷ es) c d =
    let (fewer, closed) = handle-count n s e c.0 d in
    let (rest, still) = serve-count n (handle s e) es c.1 closed in
    (omega (arith, fewer, rest), still)

none_left : (l : List ℕ) → ((n : ℕ) → count n l ≡ 0) → l ≡ []
none_left [] h = refl
none_left (n ∷ l) h = absurd (let here = h n in ground (arith, here))

-- A drain returns, whatever else happens meanwhile: after any events without a resume in which every
-- gated request that was inside has ended, the event is set and the gate is still draining. New
-- requests do not delay it.
pub drain_completes :
    (s : Server) (es : List Event)
    → IsCounted s
    → All StaysClosed es
    → ((n : ℕ) → count n s.passed ≤ all_ended n es)
    → ((serve (handle s drains) es).gate.idle ≡ true)
      × ((serve (handle s drains) es).gate.draining ≡ true)
unfolding handle begin_drain
drain_completes s es h c ended_all =
    let after = serve (handle s drains) es in
    let v = serve-IsCounted (handle s drains) es (handle-IsCounted s drains h) in
    let empty : after.passed ≡ [] = none_left after.passed (λ n.
      let left = (serve-count n (handle s drains) es c closes).0 in
      let inside : count n (handle s drains).passed ≡ count n s.passed = ground arith in
      omega (arith, left, inside, ended_all n)) in
    (ground (arith, v.counted, v.idle_iff, empty), (serve-count 0 (handle s drains) es c closes).1)
  where
    closes : (handle s drains).gate.draining ≡ true
    closes = ground arith

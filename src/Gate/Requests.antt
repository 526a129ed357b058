-- ===== src/Gate/Requests.antt =====
-- maintenance_gate.py: the middleware's requests, interleaved with drains and resumes. A request in
-- flight is named by a number; `passed` holds those that entered the gate and have not left it.
use plug_and_play_local_rag.Base.{
  ℕ, suc, ◌≡◌, List, [], ◌∷◌, Bool, true, false, ◌||◌, arith, ◌==◌, if◌then◌else◌, length,
}
use plug_and_play_local_rag.Gate.{
  MaintenanceGate, new_gate, enter_mutation, leave_mutation, begin_drain, resume, Scope, is_gated,
}

pub data Outcome : Type 0 where
  handled unavailable : Outcome

-- The gate, the gated requests inside the application, and those that are inside ungated.
pub record Server : Type 0 where
  pub gate : MaintenanceGate
  pub passed : List ℕ
  pub ungated : List ℕ

abbrev pub new_server : Server
new_server = record { gate = new_gate; passed = []; ungated = [] }

pub data Event : Type 0 where
  arrives : ℕ → Scope → Event
  ends : ℕ → Event
  drains resumes : Event

abbrev pub within : ℕ → List ℕ → Bool
within n [] = false
within n (m ∷ l) = n == m || within n l

-- The first request of that number leaves the list.
unfoldable pub without : ℕ → List ℕ → List ℕ
without n [] = []
without n (m ∷ l) = let rest = without n l in if n == m then l else m ∷ rest

abbrev pub admit : ℕ → Server → Bool × MaintenanceGate → Server × Outcome
admit n s (true, g) = (record s { gate = g; passed = n ∷ s.passed }, handled)
admit n s (false, g) = (record s { gate = g }, unavailable)

-- The middleware up to the call of the application: a gated request enters the gate or is answered
-- with status 503.
unfoldable pub arrive : ℕ → Scope → Server → Server × Outcome
arrive n scope s =
    if is_gated scope
    then admit n s (enter_mutation s.gate)
    else (record s { ungated = n ∷ s.ungated }, handled)

-- The `finally` block, when the application returns or raises.
unfoldable pub leave : ℕ → Server → Server
leave n s =
    if within n s.passed
    then record s { gate = leave_mutation s.gate; passed = without n s.passed }
    else record s { ungated = without n s.ungated }

unfoldable pub handle : Server → Event → Server
unfolding arrive leave
handle s (arrives n scope) = (arrive n scope s).0
handle s (ends n) = leave n s
handle s drains = record s { gate = begin_drain s.gate }
handle s resumes = record s { gate = resume s.gate }

unfoldable pub serve : Server → List Event → Server
serve s [] = s
serve s (e ∷ es) = serve (handle s e) es

-- The counter is the number of gated requests inside, and the event is set exactly when it is 0.
pub record IsCounted (s : Server) : Type 0 where
  pub counted : s.gate.active_mutations ≡ length s.passed
  pub idle_iff : s.gate.idle ≡ (s.gate.active_mutations == 0)

length-without : (n : ℕ) (l : List ℕ) → within n l ≡ true → suc (length (without n l)) ≡ length l
unfolding without
length-without n [] h = cc
length-without n (m ∷ l) h = ground (arith, length-without n l)

pub handle-IsCounted : (s : Server) (e : Event) → IsCounted s → IsCounted (handle s e)
unfolding handle enter_mutation leave_mutation begin_drain resume
handle-IsCounted s (arrives n scope) h = ground arith
handle-IsCounted s (ends n) h = ground (arith, length-without n s.passed)
handle-IsCounted s drains h = ground arith
handle-IsCounted s resumes h = ground arith

pub serve-IsCounted : (s : Server) (es : List Event) → IsCounted s → IsCounted (serve s es)
unfolding serve
serve-IsCounted s [] h = h
serve-IsCounted s (e ∷ es) h = serve-IsCounted (handle s e) es (handle-IsCounted s e h)

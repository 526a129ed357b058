-- ===== src/Leases/Fencing.antt =====
-- leases.py: fencing tokens grow, and a fenced lease never becomes valid again.
use plug_and_play_local_rag.Base.{
  ℕ, ◌+◌, ◌≤◌, ◌<◌, ◌≡◌, ◌≢◌, String, List, [], ◌∷◌, Option, none, some, get, get-put, get-remove,
  str_eq_iff, str_eq_refl, arith, ok, err,
}
use plug_and_play_local_rag.Leases.{
  Lease, LeaseRegistry, stale_lease, Call, claims, heartbeats, releases, fence, claim, validate,
  step, run, grant, renew, next_lease, renewed,
}

-- The current lease of a resource is within the tokens given out for it.
abbrev pub Within : Option Lease → ℕ → Type 0
Within none n = Unit {0}
Within (some c) n = c.fencing_token ≤ n

abbrev pub IsFenced : LeaseRegistry → Type 0
IsFenced s = (r : String) → Within (get s.leases r) (fence s r)

grant-IsFenced :
    (s : LeaseRegistry) (l : Lease)
    → fence s l.resource_id ≤ l.fencing_token
    → IsFenced s
    → IsFenced (grant s l)
unfolding grant
grant-IsFenced s l e h r = ground (
  arith,
  h r,
  str_eq_iff l.resource_id r,
  get-put s.leases l.resource_id r l,
  get-put s.next_fence l.resource_id r l.fencing_token,
)

renew-IsFenced :
    (s : LeaseRegistry) (l : Lease)
    → l.fencing_token ≤ fence s l.resource_id
    → IsFenced s
    → IsFenced (renew s l)
unfolding renew
renew-IsFenced s l e h r =
    ground (arith, h r, str_eq_iff l.resource_id r, get-put s.leases l.resource_id r l)

pub step-IsFenced : (s : LeaseRegistry) (c : Call) → IsFenced s → IsFenced (step s c)
unfolding step
step-IsFenced s (claims q owner ttl now) h r =
    ground (arith, h r, grant-IsFenced s (next_lease s q owner ttl now) (omega arith) h r)
step-IsFenced s (heartbeats l ttl now later) h r = ground (
  arith,
  h r,
  h l.resource_id,
  λ (p : l.fencing_token ≤ fence s l.resource_id). renew-IsFenced s (renewed l (later + ttl)) p h r,
)
step-IsFenced s (releases l now) h r = ground (arith, h r, get-remove s.leases l.resource_id r)

run-IsFenced : (s : LeaseRegistry) (cs : List Call) → IsFenced s → IsFenced (run s cs)
unfolding run
run-IsFenced s [] h = h
run-IsFenced s (c ∷ cs) h = run-IsFenced (step s c) cs (step-IsFenced s c h)

-- No call lowers the fencing counter of a resource.
fence-step : (s : LeaseRegistry) (c : Call) (r : String) → fence s r ≤ fence (step s c) r
unfolding step grant renew
fence-step s (claims q owner ttl now) r =
    ground (arith, str_eq_iff q r, get-put s.next_fence q r (fence s q + 1))
fence-step s (heartbeats l ttl now later) r = ground arith
fence-step s (releases l now) r = ground arith

fence-run : (s : LeaseRegistry) (cs : List Call) (r : String) → fence s r ≤ fence (run s cs) r
unfolding run
fence-run s [] r = omega arith
fence-run s (c ∷ cs) r = omega (arith, fence-step s c r, fence-run (step s c) cs r)

-- A granted lease carries the new value of its resource's counter.
claim-fence :
    (s : LeaseRegistry) (r owner : String) (ttl now : ℕ) {l : Lease} {t : LeaseRegistry}
    → claim s r owner ttl now ≡ ok (l, t)
    → (l.fencing_token ≡ fence s r + 1) × (fence t r ≡ fence s r + 1)
unfolding claim grant
claim-fence s r owner ttl now h =
    ground (arith, str_eq_refl r, get-put s.next_fence r r (fence s r + 1))

-- Of two leases that are claimed on one resource, with any calls between, the later has the larger
-- fencing token.
pub claim-token_grows :
    (s : LeaseRegistry) (r first second : String) (ttl ttl' now now' : ℕ) (cs : List Call)
    {l m : Lease} {t u : LeaseRegistry}
    → claim s r first ttl now ≡ ok (l, t)
    → claim (run t cs) r second ttl' now' ≡ ok (m, u)
    → l.fencing_token < m.fencing_token
claim-token_grows s r first second ttl ttl' now now' cs {t = t} p q = omega (
  arith,
  claim-fence s r first ttl now p,
  claim-fence (run t cs) r second ttl' now' q,
  fence-run t cs r,
)

-- The token `n` of the resource has been given out and is not the current lease's.
abbrev pub OtherToken : Option Lease → ℕ → Type 0
OtherToken none n = Unit {0}
OtherToken (some c) n = c.fencing_token ≢ n

pub record IsLost (s : LeaseRegistry) (r : String) (n : ℕ) : Type 0 where
  pub given : n ≤ fence s r
  pub other : OtherToken (get s.leases r) n

step-IsLost :
    (s : LeaseRegistry) (c : Call) (r : String) (n : ℕ) → IsLost s r n → IsLost (step s c) r n
unfolding step grant renew
step-IsLost s (claims q owner ttl now) r n h = ground (
  arith,
  str_eq_iff q r,
  get-put s.next_fence q r (fence s q + 1),
  get-put s.leases q r (next_lease s q owner ttl now),
)
step-IsLost s (heartbeats l ttl now later) r n h =
    ground (
      arith,
      str_eq_iff l.resource_id r,
      get-put s.leases l.resource_id r (renewed l (later + ttl)),
    )
step-IsLost s (releases l now) r n h = ground (arith, get-remove s.leases l.resource_id r)

run-IsLost :
    (s : LeaseRegistry) (cs : List Call) (r : String) (n : ℕ) → IsLost s r n → IsLost (run s cs) r n
unfolding run
run-IsLost s [] r n h = h
run-IsLost s (c ∷ cs) r n h = run-IsLost (step s c) cs r n (step-IsLost s c r n h)

IsLost-validate :
    (s : LeaseRegistry) (l : Lease) (now : ℕ)
    → IsLost s l.resource_id l.fencing_token
    → validate s l now ≡ err stale_lease
unfolding validate
IsLost-validate s l now h = ground arith

claim-IsLost :
    (s : LeaseRegistry) (r owner : String) (ttl now n : ℕ) {m : Lease} {t : LeaseRegistry}
    → n ≤ fence s r
    → claim s r owner ttl now ≡ ok (m, t)
    → IsLost t r n
unfolding claim grant
claim-IsLost s r owner ttl now n e h = ground (
  arith,
  str_eq_refl r,
  get-put s.next_fence r r (fence s r + 1),
  get-put s.leases r r (next_lease s r owner ttl now),
)

-- Once a resource is claimed again, a lease on it with a token that had been given out before is stale
-- for good: at any time, after any further calls.
pub claim_fences_earlier :
    (s : LeaseRegistry) (owner : String) (ttl now : ℕ) (old : Lease) {m : Lease} {t : LeaseRegistry}
    → old.fencing_token ≤ fence s old.resource_id
    → claim s old.resource_id owner ttl now ≡ ok (m, t)
    → (cs : List Call) (later : ℕ) → validate (run t cs) old later ≡ err stale_lease
claim_fences_earlier s owner ttl now old {t = t} e h cs later =
    IsLost-validate (run t cs) old later (
      run-IsLost t cs old.resource_id old.fencing_token
        (claim-IsLost s old.resource_id owner ttl now old.fencing_token e h))

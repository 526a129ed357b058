-- ===== src/Leases/Renewal.antt =====
-- leases.py: who holds a resource, and what a claim, a renewal and a release change.
use plug_and_play_local_rag.Base.{
  ℕ, ◌+◌, ◌<◌, ◌≡◌, inl, inr, String, Option-cases, none, some, false, get, get-put, get-remove,
  str_eq, str_eq_iff, str_eq_refl, ltb, if◌then◌else◌, arith, ok, err, Result,
}
use plug_and_play_local_rag.Leases.{
  Lease, LeaseRegistry, LeaseError, stale_lease, fence, claim, validate, is_active, lease_conflict,
  heartbeat, release, grant, renew, next_lease, renewed,
}

-- Two leases on one resource that are valid at one time have one owner and one token.
pub validate_exclusive :
    (s : LeaseRegistry) (l m : Lease) (now : ℕ)
    → l.resource_id ≡ m.resource_id
    → validate s l now ≡ ok tt
    → validate s m now ≡ ok tt
    → (l.owner_id ≡ m.owner_id) × (l.fencing_token ≡ m.fencing_token)
unfolding validate
validate_exclusive s l m now e p q = elim (Option-cases (get s.leases m.resource_id)) [
  | inl c ↦ ground arith
  | inr (x, c) ↦ ground (arith, str_eq_iff x.owner_id l.owner_id, str_eq_iff x.owner_id m.owner_id)
]

-- The lease that a claim gives out.
abbrev pub granted : Result LeaseError (Lease × LeaseRegistry) → Result LeaseError Lease
granted (ok (lease, t)) = ok lease
granted (err e) = err e

-- After a claim of a resource, the next claim of it, by whomever, is refused as a conflict until the
-- lease has run out; from then on it gives out a lease with the next fencing token.
pub claim-claim :
    (s : LeaseRegistry) (r first second : String) (ttl time now later : ℕ) {l : Lease}
    {t : LeaseRegistry}
    → claim s r first ttl now ≡ ok (l, t)
    → str_eq second "" ≡ false
    → 0 < time
    → granted (claim t r second time later) ≡ (
        if ltb later (now + ttl)
        then err lease_conflict
        else ok (record {
          resource_id = r;
          owner_id = second;
          fencing_token = l.fencing_token + 1;
          expires_at = later + time;
        }))
unfolding claim grant
claim-claim s r first second ttl time now later h named positive = ground (
  arith,
  str_eq_refl r,
  get-put s.leases r r (next_lease s r first ttl now),
  get-put s.next_fence r r (fence s r + 1),
)

-- A claimed lease is valid exactly until its end, as long as nothing else is called.
pub claim-validate :
    (s : LeaseRegistry) (r owner : String) (ttl now : ℕ) {l : Lease} {t : LeaseRegistry}
    → claim s r owner ttl now ≡ ok (l, t)
    → (later : ℕ) → validate t l later ≡ (if ltb later (now + ttl) then ok tt else err stale_lease)
unfolding claim grant validate
claim-validate s r owner ttl now h later =
    ground
      (arith, str_eq_refl r, str_eq_refl owner, get-put s.leases r r (next_lease s r owner ttl now))

-- A renewal that succeeds was of a valid lease; the renewed lease has its owner and token, is valid
-- exactly until its new end, and the leases of other resources stay.
pub heartbeat-validate :
    (s : LeaseRegistry) (l : Lease) (ttl now later : ℕ) {m : Lease} {t : LeaseRegistry}
    → heartbeat s l ttl now later ≡ ok (m, t)
    → (validate s l now ≡ ok tt)
      × (m.owner_id ≡ l.owner_id)
      × (m.fencing_token ≡ l.fencing_token)
      × ((at : ℕ) → validate t m at ≡ (if ltb at (later + ttl) then ok tt else err stale_lease))
      × ((r : String)
          → get t.leases r ≡ (if str_eq l.resource_id r then some m else get s.leases r))
unfolding heartbeat renew
heartbeat-validate s l ttl now later h = (
  ground arith,
  ground arith,
  ground arith,
  λ at. ground (
    arith,
    str_eq_refl l.resource_id,
    str_eq_refl l.owner_id,
    get-put s.leases l.resource_id l.resource_id (renewed l (later + ttl)),
  ),
  λ r. ground (
    arith,
    str_eq_iff l.resource_id r,
    get-put s.leases l.resource_id r (renewed l (later + ttl)),
  ),
)

-- A release that succeeds was of a valid lease; then its resource has no lease, so that it can be
-- claimed at any time, the leases of the other resources stay, and so does its fencing counter.
pub release-claim :
    (s : LeaseRegistry) (l : Lease) (now : ℕ) {t : LeaseRegistry}
    → release s l now ≡ ok t
    → (validate s l now ≡ ok tt)
      × ((r : String) → get t.leases r ≡ (if str_eq l.resource_id r then none else get s.leases r))
      × ((at : ℕ) → is_active (get t.leases l.resource_id) at ≡ false)
      × (fence t l.resource_id ≡ fence s l.resource_id)
unfolding release
release-claim s l now h = (
  ground arith,
  λ r. ground (arith, get-remove s.leases l.resource_id r),
  λ at. ground (arith, str_eq_refl l.resource_id, get-remove s.leases l.resource_id l.resource_id),
  ground arith,
)

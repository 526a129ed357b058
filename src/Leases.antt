-- ===== src/Leases.antt =====
-- apps/api/app/runtime/leases.py: leases on named resources with fencing tokens. The clock is an
-- argument of each call, in ticks from its start; `heartbeat` reads it twice.
pub mod Fencing
pub mod Renewal
use plug_and_play_local_rag.Base.{
  ℕ, ◌+◌, String, Bool, ◌||◌, not, List, [], ◌∷◌, false, true, Option, none, some, Dict, get, put,
  remove, str_eq, leb, ltb, ◌==◌, if◌then◌else◌, Result, ok, err, ◌>>=◌, ◌>>◌, raise_if,
}

pub record Lease : Type 0 where
  pub resource_id : String
  pub owner_id : String
  pub fencing_token : ℕ
  pub expires_at : ℕ

pub record LeaseRegistry : Type 0 where
  pub leases : Dict Lease
  pub next_fence : Dict ℕ

pub data LeaseError : Type 0 where
  ids_required ttl_not_positive lease_conflict stale_lease : LeaseError

abbrev pub empty_registry : LeaseRegistry
empty_registry = record { leases = []; next_fence = [] }

-- self._next_fence.get(resource_id, 0)
abbrev pub or_zero : Option ℕ → ℕ
or_zero none = 0
or_zero (some n) = n

abbrev pub fence : LeaseRegistry → String → ℕ
fence s r = or_zero (get s.next_fence r)

-- current is not None and current.expires_at > now
abbrev pub is_active : Option Lease → ℕ → Bool
is_active none now = false
is_active (some current) now = ltb now current.expires_at

-- The lease that `claim` gives out, with the next fencing token of the resource.
abbrev pub next_lease : LeaseRegistry → String → String → ℕ → ℕ → Lease
next_lease s resource_id owner_id ttl now = record {
  resource_id = resource_id;
  owner_id = owner_id;
  fencing_token = fence s resource_id + 1;
  expires_at = now + ttl;
}

-- The two writes of `claim`.
unfoldable pub grant : LeaseRegistry → Lease → LeaseRegistry
grant s lease = record {
  leases = put s.leases lease.resource_id lease;
  next_fence = put s.next_fence lease.resource_id lease.fencing_token;
}

unfoldable pub claim :
    LeaseRegistry → String → String → ℕ → ℕ → Result LeaseError (Lease × LeaseRegistry)
claim s resource_id owner_id ttl now = do
  raise_if (str_eq resource_id "" || str_eq owner_id "") ids_required
  raise_if (ttl == 0) ttl_not_positive
  raise_if (is_active (get s.leases resource_id) now) lease_conflict
  let lease : Lease = next_lease s resource_id owner_id ttl now
  ok (lease, grant s lease)

abbrev pub is_stale : Option Lease → Lease → ℕ → Bool
is_stale none lease now = true
is_stale (some current) lease now =
    not (str_eq current.owner_id lease.owner_id)
    || not (current.fencing_token == lease.fencing_token)
    || leb current.expires_at now

unfoldable pub validate : LeaseRegistry → Lease → ℕ → Result LeaseError Unit
validate s lease now = raise_if (is_stale (get s.leases lease.resource_id) lease now) stale_lease

-- The lease with a later end, and its write.
abbrev pub renewed : Lease → ℕ → Lease
renewed lease until = record lease { expires_at = until }

unfoldable pub renew : LeaseRegistry → Lease → LeaseRegistry
renew s lease = record s { leases = put s.leases lease.resource_id lease }

unfoldable pub heartbeat :
    LeaseRegistry → Lease → ℕ → ℕ → ℕ → Result LeaseError (Lease × LeaseRegistry)
unfolding validate
heartbeat s lease ttl now later = do
  raise_if (ttl == 0) ttl_not_positive
  validate s lease now
  ok (renewed lease (later + ttl), renew s (renewed lease (later + ttl)))

unfoldable pub release : LeaseRegistry → Lease → ℕ → Result LeaseError LeaseRegistry
unfolding validate
release s lease now = do
  validate s lease now
  ok (record s { leases = remove s.leases lease.resource_id })

-- A call of the registry, with the readings of the clock that it makes.
pub data Call : Type 0 where
  claims : String → String → ℕ → ℕ → Call
  heartbeats : Lease → ℕ → ℕ → ℕ → Call
  releases : Lease → ℕ → Call

abbrev pub after_lease : LeaseRegistry → Result LeaseError (Lease × LeaseRegistry) → LeaseRegistry
after_lease s (ok (lease, t)) = t
after_lease s (err e) = s

abbrev pub after : LeaseRegistry → Result LeaseError LeaseRegistry → LeaseRegistry
after s (ok t) = t
after s (err e) = s

-- A call that raises leaves the registry as it was.
unfoldable pub step : LeaseRegistry → Call → LeaseRegistry
unfolding claim heartbeat release
step s (claims r owner ttl now) = after_lease s (claim s r owner ttl now)
step s (heartbeats l ttl now later) = after_lease s (heartbeat s l ttl now later)
step s (releases l now) = after s (release s l now)

unfoldable pub run : LeaseRegistry → List Call → LeaseRegistry
run s [] = s
run s (c ∷ cs) = run (step s c) cs

-- ===== src/Examples/Leasing.antt =====
-- Runs of the lease registry of apps/api/app/runtime/leases.py.
use plug_and_play_local_rag.Base.{
  ℕ, ◌+◌, String, some, ltb, str_eq, ◌≡◌, refl, [], ◌∷◌, arith, if◌then◌else◌, ok, err, get, put,
}
use plug_and_play_local_rag.Leases.{
  Lease, LeaseRegistry, heartbeats, stale_lease, lease_conflict, claim, validate, grant, run,
  heartbeat, renew,
}
use plug_and_play_local_rag.Leases.Fencing.{claim_fences_earlier}
use plug_and_play_local_rag.Leases.Renewal.{
  validate_exclusive, claim-claim, granted, heartbeat-validate,
}

abbrev alice : Lease
alice = record { resource_id = "doc"; owner_id = "alice"; fencing_token = 1; expires_at = 10 }

abbrev bob : Lease
bob = record { resource_id = "doc"; owner_id = "bob"; fencing_token = 2; expires_at = 30 }

abbrev alice_later : Lease
alice_later = record { resource_id = "doc"; owner_id = "alice"; fencing_token = 1; expires_at = 15 }

abbrev unused : LeaseRegistry
unused = record { leases = []; next_fence = [] }

abbrev with_alice : LeaseRegistry
with_alice = record { leases = ("doc", alice) ∷ []; next_fence = ("doc", 1) ∷ [] }

abbrev with_bob : LeaseRegistry
with_bob = record { leases = ("doc", bob) ∷ []; next_fence = ("doc", 2) ∷ [] }

abbrev renewed_alice : LeaseRegistry
renewed_alice = record { leases = ("doc", alice_later) ∷ []; next_fence = ("doc", 1) ∷ [] }

abbrev without_alice : LeaseRegistry
without_alice = record { leases = []; next_fence = ("doc", 1) ∷ [] }

claim_fences_earlier_example :
    validate (run with_bob (heartbeats alice 5 21 21 ∷ [])) alice 22 ≡ err stale_lease
unfolding claim grant get put
claim_fences_earlier_example =
    claim_fences_earlier with_alice "bob" 10 20 alice {m = bob} {t = with_bob} (omega arith) refl
      (heartbeats alice 5 21 21 ∷ []) 22

validate_exclusive_example :
    (alice.owner_id ≡ alice_later.owner_id) × (alice.fencing_token ≡ alice_later.fencing_token)
unfolding validate get
validate_exclusive_example = validate_exclusive with_alice alice alice_later 5 refl refl refl

-- Bob claims when the lease of Alice has just run out.
claim-claim_example : granted (claim with_alice "doc" "bob" 20 10) ≡ (
    if ltb 10 (0 + 10)
    then err lease_conflict
    else ok (record {
      resource_id = "doc";
      owner_id = "bob";
      fencing_token = alice.fencing_token + 1;
      expires_at = 10 + 20;
    }))
unfolding claim grant get put
claim-claim_example =
    claim-claim unused "doc" "alice" "bob" 10 20 0 10 {l = alice} {t = with_alice} refl refl
      (omega arith)

heartbeat-validate_example :
    (validate with_alice alice 5 ≡ ok tt)
    × (alice_later.owner_id ≡ alice.owner_id)
    × (alice_later.fencing_token ≡ alice.fencing_token)
    × ((at : ℕ)
        → validate renewed_alice alice_later at ≡ (if ltb at 15 then ok tt else err stale_lease))
    × ((r : String)
        → get renewed_alice.leases r
          ≡ (if str_eq "doc" r then some alice_later else get with_alice.leases r))
unfolding heartbeat validate renew get put
heartbeat-validate_example =
    heartbeat-validate with_alice alice 10 5 5 {m = alice_later} {t = renewed_alice} refl

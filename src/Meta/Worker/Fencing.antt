-- ===== src/Meta/Worker/Fencing.antt =====
-- Generations of leases and their owners (internal/meta/memory/repository.go).
use namros.Base.{
  ℕ, suc, ◌+◌, ◌^◌, ◌-◌, ◌≤◌, ◌<◌, String, ◌≡◌, ◌≢◌, refl, ◌⊎◌, inl, inr, List, [], ◌∷◌, arith,
  length, string_equality, eq_iff, sym,
}
use namros.Base.Maps.{Map, get, put}
use namros.Meta.Model.Operations.{WorkerLease}
use namros.Meta.Worker.{
  LeaseCall, acquire, release, apply_call, apply_calls, lease_at, worker_lease_id,
}
use namros.Meta.Worker.Table.{
  lease_at-put, lease_at-some, build_worker_lease_fields, acquire_worker_lease-cases,
  release_worker_lease-Released,
}

-- `after` has the owner of `before` and no older generation, or a newer generation; it is at most
-- `n` generations newer.
abbrev Follows : ℕ → WorkerLease → WorkerLease → Type 0
Follows n before after =
    (after.generation ≤ before.generation + n)
    × (((after.owner_id ≡ before.owner_id) × (before.generation ≤ after.generation))
        ⊎ (before.generation < after.generation))

Follows-trans :
    (n k : ℕ) (a b c : WorkerLease) → Follows n a b → Follows k b c → Follows (n + k) a c
Follows-trans n k a b c p q = ground arith

Follows-put :
    (id j : String) (leases : Map String WorkerLease) (lease : WorkerLease)
    → Follows 1 (lease_at id leases) lease
    → Follows 1 (lease_at j leases) (lease_at j (put id lease leases))
Follows-put id j leases lease h = ground (arith, lease_at-put id j lease leases, eq_iff id j)

apply_call-Follows :
    (call : LeaseCall) (id : String) (leases : Map String WorkerLease)
    → ((j : String) → (lease_at j leases).generation < 2 ^ 64 - 1)
    → Follows 1 (lease_at id leases) (lease_at id (apply_call call leases))
unfolding apply_call
apply_call-Follows (acquire req now) id leases g =
    elim (acquire_worker_lease-cases req now leases) [
      | inl (e, _, same) ↦ rw (same, apply_call) (omega arith, inl (refl, omega arith))
      | inr (lease, built, stored) ↦
          rw (stored, apply_call)
            (Follows-put (worker_lease_id req.worker_kind req.shard_id) id leases lease (
              ground (
                arith,
                build_worker_lease_fields
                    (lease_at (worker_lease_id req.worker_kind req.shard_id) leases) req now lease
                    built (g (worker_lease_id req.worker_kind req.shard_id)),
              )))
    ]
apply_call-Follows (release req now) id leases g =
    elim (release_worker_lease-Released req now leases) [
      | inl same ↦ rw (same, apply_call) (omega arith, inl (refl, omega arith))
      | inr (lease, found, _, stored) ↦
          rw (stored, apply_call)
            (Follows-put (worker_lease_id req.worker_kind req.shard_id) id leases _
              (rw (lease_at-some _ leases lease found) (omega arith, inl (refl, omega arith))))
    ]

suc-eq-one-add : (n : ℕ) → suc n ≡ 1 + n
suc-eq-one-add n = omega arith

abbrev Below : ℕ → Map String WorkerLease → Type 0
Below g leases = (j : String) → (lease_at j leases).generation ≤ g

apply_call-Below :
    (call : LeaseCall) (g : ℕ) (leases : Map String WorkerLease)
    → g < 2 ^ 64 - 1
    → Below g leases
    → Below (g + 1) (apply_call call leases)
apply_call-Below call g leases small h j =
    omega (arith, (apply_call-Follows call j leases (λ i. omega (arith, h i))).0, h j)

apply_calls-Follows :
    (calls : List LeaseCall) (id : String) (g : ℕ) (leases : Map String WorkerLease)
    → g + length calls < 2 ^ 64 - 1
    → Below g leases
    → Follows (length calls) (lease_at id leases) (lease_at id (apply_calls calls leases))
unfolding apply_calls
apply_calls-Follows [] id g leases small h = (omega arith, inl (refl, omega arith))
apply_calls-Follows (call ∷ calls) id g leases small h = rw (suc-eq-one-add (length calls)) (
    Follows-trans 1 (length calls) (lease_at id leases) (lease_at id (apply_call call leases))
      (lease_at id (apply_calls calls (apply_call call leases)))
      (apply_call-Follows call id leases (λ j. omega (arith, h j)))
      (apply_calls-Follows calls id (g + 1) (apply_call call leases) (omega arith)
        (apply_call-Below call g leases (omega arith) h)))

Below-nil : Below 0 []
unfolding lease_at get
Below-nil j = omega arith

-- Over any calls from an empty table, fewer than 2 ^ 64 - 1 of them: when a lease is seen with one
-- owner and later with another (or with none seen before), its generation has grown in between.
pub generation_fences_owners :
    (first later : List LeaseCall) (id : String)
    → length first + length later < 2 ^ 64 - 1
    → (lease_at id (apply_calls first [])).owner_id
      ≢ (lease_at id (apply_calls later (apply_calls first []))).owner_id
    → (lease_at id (apply_calls first [])).generation
      < (lease_at id (apply_calls later (apply_calls first []))).generation
generation_fences_owners first later id small differ = ground (
  arith,
  apply_calls-Follows later id (length first) (apply_calls first []) small (λ j.
      omega (arith, (apply_calls-Follows first j 0 [] (omega arith) Below-nil).0, Below-nil j)),
  λ (p : (lease_at id (apply_calls later (apply_calls first []))).owner_id
        ≡ (lease_at id (apply_calls first [])).owner_id).
      differ (sym p),
)

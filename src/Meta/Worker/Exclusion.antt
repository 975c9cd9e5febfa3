-- ===== src/Meta/Worker/Exclusion.antt =====
-- Leases that have not run out, and other owners (internal/meta/memory/repository.go).
use namros.Base.{
  ◌<◌, String, ◌≡◌, ◌≢◌, sym, ◌∙◌, ◌⊎◌, ◌↔◌, ◌≤◌, inl, inr, true, false, some, List, [], ◌∷◌, arith,
  string_equality, eq_iff, is_empty, beq_of_ne,
}
use namros.Base.Maps.{Map, get, put, get-put_ne}
use namros.Base.Int64.{is_positive}
use namros.Base.Text.{trim_space}
use namros.Base.Exec.{Err, ok, err}
use namros.Meta.Model.Segment.{Time}
use namros.Meta.Model.Operations.{WorkerLease}
use namros.Meta.Worker.{
  AcquireWorkerLeaseRequest, LeaseCall, acquire, release, apply_call, apply_calls, lease_at,
  worker_lease_id, build_worker_lease, acquire_worker_lease,
}
use namros.Meta.Worker.Table.{
  lease_at-some, acquire_worker_lease-cases, release_worker_lease-Released,
}

-- Who calls, about which lease, and when.
abbrev pub caller : LeaseCall → String
caller (acquire req now) = trim_space req.owner_id
caller (release req now) = trim_space req.owner_id

abbrev pub subject : LeaseCall → String
subject (acquire req now) = worker_lease_id req.worker_kind req.shard_id
subject (release req now) = worker_lease_id req.worker_kind req.shard_id

abbrev pub moment : LeaseCall → Time
moment (acquire req now) = now
moment (release req now) = now

-- Before the lease runs out, a call about another lease or from another owner.
abbrev pub IsForeign : String → WorkerLease → LeaseCall → Type 0
IsForeign id lease call =
    (moment call < lease.expires_at) × ((id ≢ subject call) ⊎ (lease.owner_id ≢ caller call))

abbrev pub AreForeign : String → WorkerLease → List LeaseCall → Type 0
AreForeign id lease [] = Unit
AreForeign id lease (call ∷ calls) = IsForeign id lease call × AreForeign id lease calls

-- Whoever else asks for a lease that has not run out gets an error.
build_worker_lease_held :
    (existing : WorkerLease) (req : AcquireWorkerLeaseRequest) (now : Time) (lease : WorkerLease)
    → is_empty existing.lease_id ≡ false
    → existing.owner_id ≢ trim_space req.owner_id
    → now < existing.expires_at
    → build_worker_lease existing req now ≢ ok lease
unfolding build_worker_lease
build_worker_lease_held existing req now lease filed other open_ h =
    ground (arith, beq_of_ne existing.owner_id (trim_space req.owner_id) other)

get_after_put_elsewhere :
    (id k : String) (v lease : WorkerLease) (leases : Map String WorkerLease)
    → get id leases ≡ some lease
    → id ≢ k
    → get id (put k v leases) ≡ some lease
get_after_put_elsewhere id k v lease leases held other =
    get-put_ne k id v leases (λ p. other (sym p)) ∙ held

acquire_elsewhere :
    (id k : String) (req : AcquireWorkerLeaseRequest) (now : Time) (lease new : WorkerLease)
    (leases : Map String WorkerLease)
    → get id leases ≡ some lease
    → is_empty lease.lease_id ≡ false
    → now < lease.expires_at
    → (id ≢ k) ⊎ (lease.owner_id ≢ trim_space req.owner_id)
    → build_worker_lease (lease_at k leases) req now ≡ ok new
    → id ≢ k
acquire_elsewhere id k req now lease new leases held filed early (inl other) built p = other p
acquire_elsewhere id k req now lease new leases held filed early (inr other) built p =
    build_worker_lease_held lease req now new filed other early
      (cc (p, built, lease_at-some id leases lease held))

release_elsewhere :
    (id k owner_id : String) (lease old : WorkerLease) (leases : Map String WorkerLease)
    → get id leases ≡ some lease
    → get k leases ≡ some old
    → old.owner_id ≡ owner_id
    → (id ≢ k) ⊎ (lease.owner_id ≢ owner_id)
    → id ≢ k
release_elsewhere id k owner_id lease old leases held found owned (inl other) p = other p
release_elsewhere id k owner_id lease old leases held found owned (inr other) p = other (
    cc
      (p, held, found, owned, lease_at-some id leases lease held, lease_at-some k leases old found))

apply_call_foreign :
    (call : LeaseCall) (id : String) (lease : WorkerLease) (leases : Map String WorkerLease)
    → get id leases ≡ some lease
    → is_empty lease.lease_id ≡ false
    → IsForeign id lease call
    → get id (apply_call call leases) ≡ some lease
unfolding apply_call
apply_call_foreign (acquire req now) id lease leases held filed (early, foreign) =
    elim (acquire_worker_lease-cases req now leases) [
      | inl (e, _, same) ↦ rw (same, apply_call) held
      | inr (new, built, stored) ↦
          rw (stored, apply_call)
            (get_after_put_elsewhere id (worker_lease_id req.worker_kind req.shard_id) new lease
              leases held
              (acquire_elsewhere id _ req now lease new leases held filed early foreign built))
    ]
apply_call_foreign (release req now) id lease leases held filed (early, foreign) =
    elim (release_worker_lease-Released req now leases) [
      | inl same ↦ rw (same, apply_call) held
      | inr (old, found, owned, stored) ↦
          rw (stored, apply_call)
            (get_after_put_elsewhere id (worker_lease_id req.worker_kind req.shard_id) _ lease
              leases held
              (release_elsewhere id _ (trim_space req.owner_id) lease old leases held found owned
                foreign))
    ]

-- While a filed lease has not run out, no calls about other leases or from other owners, however
-- many and in whatever order, change its entry.
pub lease_excludes_others :
    (calls : List LeaseCall) (id : String) (lease : WorkerLease) (leases : Map String WorkerLease)
    → get id leases ≡ some lease
    → is_empty lease.lease_id ≡ false
    → AreForeign id lease calls
    → get id (apply_calls calls leases) ≡ some lease
unfolding apply_calls
lease_excludes_others [] id lease leases held filed foreign = held
lease_excludes_others (call ∷ calls) id lease leases held filed foreign =
    lease_excludes_others calls id lease (apply_call call leases)
      (apply_call_foreign call id lease leases held filed foreign.0) filed foreign.1

-- The lease at the identifier is free for the owner: none is filed, it is the owner's, or it has
-- run out.
abbrev pub IsFree : WorkerLease → String → Time → Type 0
IsFree existing owner_id now =
    (is_empty existing.lease_id ≡ true)
    ⊎ ((existing.owner_id ≡ owner_id) ⊎ (existing.expires_at ≤ now))

module _ (req : AcquireWorkerLeaseRequest) (now : Time)
    (kind_given : is_empty (trim_space req.worker_kind) ≡ false)
    (shard_given : is_empty (trim_space req.shard_id) ≡ false)
    (owner_given : is_empty (trim_space req.owner_id) ≡ false)
    (ttl_given : is_positive req.ttl ≡ true) where
  build_worker_lease_free :
      (existing : WorkerLease) (e : Err)
      → IsFree existing (trim_space req.owner_id) now
      → build_worker_lease existing req now ≢ err e
  unfolding build_worker_lease
  build_worker_lease_free existing e free h =
      ground (arith, eq_iff existing.owner_id (trim_space req.owner_id))

  build_worker_lease-IsFree :
      (existing lease : WorkerLease)
      → build_worker_lease existing req now ≡ ok lease
      → IsFree existing (trim_space req.owner_id) now
  unfolding build_worker_lease
  build_worker_lease-IsFree existing lease h =
      ground (arith, eq_iff existing.owner_id (trim_space req.owner_id))

  -- A request with its three names filled in and a positive term is granted, and its lease filed
  -- under its identifier, exactly when the lease filed there is free for the owner.
  pub acquire_worker_lease_granted :
      (leases : Map String WorkerLease)
      → let id = worker_lease_id req.worker_kind req.shard_id in
        ((lease : WorkerLease) × (acquire_worker_lease req now leases
            ≡ (ok lease, put id lease leases)))
        ↔ IsFree (lease_at id leases) (trim_space req.owner_id) now
  acquire_worker_lease_granted leases = elim (acquire_worker_lease-cases req now leases) [
    | inl (e, built, same) ↦
        (λ granted. cc (granted.1, same), λ free. absurd (build_worker_lease_free _ e free built))
    | inr (lease, built, stored) ↦
        (λ _. build_worker_lease-IsFree _ lease built, λ _. (lease, stored))
  ]

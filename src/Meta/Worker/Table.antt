-- ===== src/Meta/Worker/Table.antt =====
-- One call seen from the lease table: which entry it writes, and what it writes there.
use namros.Base.{
  ◌+◌, ◌^◌, ◌-◌, ◌<◌, String, ◌≡◌, refl, ◌⊎◌, ◌||◌, inl, inr, Option, none, some, arith,
  string_equality, eq_iff, ◌==◌, eq_of_beq, Bool-cases, is_empty, if◌then◌else◌,
}
use namros.Base.Maps.{Map, get, put, get-put}
use namros.Base.Text.{trim_space, trim_space-trim_space}
use namros.Base.Exec.{◌>>=◌, ◌>>◌, Err, Result, ok, err}
use namros.Meta.Model.Segment.{Time}
use namros.Meta.Model.Operations.{WorkerLease}
use namros.Meta.Worker.{
  AcquireWorkerLeaseRequest, ReleaseWorkerLeaseRequest, worker_lease_id, build_worker_lease,
  lease_at, acquire_worker_lease, release_worker_lease, release_found,
}

pub worker_lease_id-trim_space :
    (kind shard : String)
    → worker_lease_id (trim_space kind) (trim_space shard) ≡ worker_lease_id kind shard
unfolding worker_lease_id
worker_lease_id-trim_space kind shard = rw (trim_space-trim_space kind, trim_space-trim_space shard)

pub lease_at-put :
    (k j : String) (lease : WorkerLease) (leases : Map String WorkerLease)
    → lease_at j (put k lease leases) ≡ (if k == j then lease else lease_at j leases)
unfolding lease_at
lease_at-put k j lease leases = ground (arith, get-put k j lease leases)

pub lease_at-some :
    (id : String) (leases : Map String WorkerLease) (lease : WorkerLease)
    → get id leases ≡ some lease
    → lease_at id leases ≡ lease
unfolding lease_at
lease_at-some id leases lease h = rw (h, lease_at)

pub lease_id-build_worker_lease :
    (existing : WorkerLease) (req : AcquireWorkerLeaseRequest) (now : Time) (lease : WorkerLease)
    → build_worker_lease existing req now ≡ ok lease
    → lease.lease_id ≡ worker_lease_id req.worker_kind req.shard_id
unfolding build_worker_lease
lease_id-build_worker_lease existing req now lease h =
    ground (arith, worker_lease_id-trim_space req.worker_kind req.shard_id)

-- What a successful call of `BuildWorkerLease` decides about owner, generation and expiry.
pub build_worker_lease_fields :
    (existing : WorkerLease) (req : AcquireWorkerLeaseRequest) (now : Time) (lease : WorkerLease)
    → build_worker_lease existing req now ≡ ok lease
    → existing.generation < 2 ^ 64 - 1
    → (lease.owner_id ≡ trim_space req.owner_id)
      × (lease.expires_at ≡ now + req.ttl)
      × (now < lease.expires_at)
      × (((lease.owner_id ≡ existing.owner_id)
            × (lease.generation ≡ existing.generation)
            × (lease.acquired_at ≡ existing.acquired_at))
          ⊎ ((lease.generation ≡ existing.generation + 1) × (lease.acquired_at ≡ now)))
unfolding build_worker_lease
build_worker_lease_fields existing req now lease h g =
    ground (arith, eq_iff existing.owner_id (trim_space req.owner_id))

-- `AcquireWorkerLease` leaves the table alone and returns an error, or files the lease it returns.
pub acquire_worker_lease-cases :
    (req : AcquireWorkerLeaseRequest) (now : Time) (leases : Map String WorkerLease)
    → let id = worker_lease_id req.worker_kind req.shard_id in
      let built = build_worker_lease (lease_at id leases) req now in
      ((e : Err) × (built ≡ err e) × (acquire_worker_lease req now leases ≡ (err e, leases)))
      ⊎ ((lease : WorkerLease) × (built ≡ ok lease)
          × (acquire_worker_lease req now leases ≡ (ok lease, put id lease leases)))
unfolding acquire_worker_lease ◌>>=◌ ◌>>◌
acquire_worker_lease-cases req now leases =
    go (build_worker_lease (lease_at (worker_lease_id req.worker_kind req.shard_id) leases) req now)
      refl
  where
    go :
        (r : Result WorkerLease)
        → build_worker_lease
            (lease_at (worker_lease_id req.worker_kind req.shard_id) leases)
            req
            now
          ≡ r
        → let id = worker_lease_id req.worker_kind req.shard_id in
          let built = build_worker_lease (lease_at id leases) req now in
          ((e : Err) × (built ≡ err e) × (acquire_worker_lease req now leases ≡ (err e, leases)))
          ⊎ ((lease : WorkerLease) × (built ≡ ok lease)
              × (acquire_worker_lease req now leases ≡ (ok lease, put id lease leases)))
    go (err e) h = inl (e, h, rw (h, acquire_worker_lease))
    go (ok lease) h = inr (
      lease,
      h,
      rw (h, acquire_worker_lease) (rw (lease_id-build_worker_lease _ req now lease h)),
    )

-- The entry at `id` is left alone, or its owner ends it at `now`.
abbrev pub Released :
    String → String → Time → Map String WorkerLease → Map String WorkerLease → Type 0
Released id owner_id now leases after =
    (after ≡ leases)
    ⊎ ((lease : WorkerLease) × (get id leases ≡ some lease)
        × (lease.owner_id ≡ owner_id)
        × (after ≡ put id (record lease { updated_at = now; expires_at = now }) leases))

release_found-Released :
    (id owner_id : String) (now : Time) (found : Option WorkerLease)
    (leases : Map String WorkerLease)
    → get id leases ≡ found
    → Released id owner_id now leases (release_found id owner_id now found leases).1
release_found-Released id owner_id now none leases h = inl refl
release_found-Released id owner_id now (some lease) leases h =
    elim (Bool-cases (lease.owner_id == owner_id)) [
      | inl p ↦ inr (lease, h, eq_of_beq lease.owner_id owner_id p, rw p)
      | inr p ↦ inl (rw p)
    ]

-- `ReleaseWorkerLease` leaves the table alone, or ends the lease of the owner who asks.
pub release_worker_lease-Released :
    (req : ReleaseWorkerLeaseRequest) (now : Time) (leases : Map String WorkerLease)
    → Released
        (worker_lease_id req.worker_kind req.shard_id)
        (trim_space req.owner_id)
        now
        leases
        (release_worker_lease req now leases).1
unfolding release_worker_lease
release_worker_lease-Released req now leases =
    elim (Bool-cases (
      is_empty (trim_space req.worker_kind)
      || (is_empty (trim_space req.shard_id) || is_empty (trim_space req.owner_id)))) [
        | inl p ↦ rw p (inl refl)
        | inr p ↦
            rw (p, worker_lease_id-trim_space)
              (release_found-Released _ (trim_space req.owner_id) now
                (get (worker_lease_id req.worker_kind req.shard_id) leases) leases refl)
      ]

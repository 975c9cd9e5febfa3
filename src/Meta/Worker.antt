-- ===== src/Meta/Worker.antt =====
-- Worker leases: `BuildWorkerLease` and `WorkerLeaseID` of internal/meta/worker.go, and
-- `AcquireWorkerLease` and `ReleaseWorkerLease` of internal/meta/memory/repository.go. The state is
-- the repository's map `workerLeases`; `now` is the reading of its clock.
mod Table
pub mod Fencing
pub mod Exclusion
mod Scenarios
use Prim.Native.String.{◌++◌}
use namros.Base.{
  ℕ, ◌+◌, String, Bool, not, ◌&&◌, ◌||◌, Option, none, some, List, [], ◌∷◌, nat_beq, ltb, is_empty,
  string_equality, ◌==◌, if◌then◌else◌,
}
use namros.Base.Maps.{Map, get, put}
use namros.Base.Int64.{add64, is_positive}
use namros.Base.Text.{trim_space}
use namros.Base.Exec.{
  Result, ok, err, Exec, pure, lift, gets, modify, ◌>>=◌, ◌>>◌, invalid_argument, cas_conflict,
  not_found,
}
use namros.Meta.Model.Segment.{Time}
use namros.Meta.Model.Operations.{WorkerLease}

pub record AcquireWorkerLeaseRequest : Type 0 where
  pub worker_kind : String
  pub shard_id : String
  pub owner_id : String
  pub ttl : ℕ
  pub cursor : String

pub record ReleaseWorkerLeaseRequest : Type 0 where
  pub worker_kind : String
  pub shard_id : String
  pub owner_id : String

-- `WorkerLease{}`, what a missing key of the map reads as.
abbrev pub no_lease : WorkerLease
no_lease = record {
  lease_id = "";
  worker_kind = "";
  shard_id = "";
  owner_id = "";
  generation = 0;
  cursor = "";
  acquired_at = 0;
  updated_at = 0;
  expires_at = 0;
}

-- `WorkerLeaseID`
unfoldable pub worker_lease_id : String → String → String
worker_lease_id worker_kind shard_id = trim_space worker_kind ++ ("/" ++ trim_space shard_id)

-- The lease is another owner's and has not run out.
abbrev pub is_held_by_other : WorkerLease → String → Time → Bool
is_held_by_other existing owner_id now =
    not (is_empty existing.lease_id)
    && (not (existing.owner_id == owner_id) && ltb now existing.expires_at)

abbrev pub changes_owner : WorkerLease → String → Bool
changes_owner existing owner_id = is_empty existing.lease_id || not (existing.owner_id == owner_id)

-- `generation++`, and 1 where that wraps to 0.
abbrev pub next_generation : ℕ → ℕ
next_generation generation = if nat_beq (add64 generation 1) 0 then 1 else add64 generation 1

-- `BuildWorkerLease`. The expiry is `now.Add(req.TTL)`.
unfoldable pub build_worker_lease :
    WorkerLease → AcquireWorkerLeaseRequest → Time → Result WorkerLease
build_worker_lease existing req now =
    let worker_kind = trim_space req.worker_kind in
    let shard_id = trim_space req.shard_id in
    let owner_id = trim_space req.owner_id in
    if is_empty worker_kind || (is_empty shard_id || is_empty owner_id)
    then err invalid_argument
    else if not (is_positive req.ttl)
    then err invalid_argument
    else if is_held_by_other existing owner_id now
    then err cas_conflict
    else ok (record {
      lease_id = worker_lease_id worker_kind shard_id;
      worker_kind = worker_kind;
      shard_id = shard_id;
      owner_id = owner_id;
      generation =
          if changes_owner existing owner_id
          then next_generation existing.generation
          else existing.generation;
      cursor = trim_space req.cursor;
      acquired_at = if changes_owner existing owner_id then now else existing.acquired_at;
      updated_at = now;
      expires_at = now + req.ttl;
    })

-- `r.workerLeases[id]`, the zero lease where there is none.
unfoldable pub lease_at : String → Map String WorkerLease → WorkerLease
lease_at id leases = elim (get id leases) [ none ↦ no_lease | some lease ↦ lease ]

-- `AcquireWorkerLease`
unfoldable pub acquire_worker_lease :
    AcquireWorkerLeaseRequest → Time → Exec (Map String WorkerLease) WorkerLease
acquire_worker_lease req now = do
  existing ← gets (lease_at (worker_lease_id req.worker_kind req.shard_id))
  lease ← lift (build_worker_lease existing req now)
  modify (put lease.lease_id lease)
  pure lease

-- what `ReleaseWorkerLease` does with the entry that it finds
abbrev release_found :
    String → String → Time → Option WorkerLease → Exec (Map String WorkerLease) (Unit {0})
release_found lease_id owner_id now none leases = (err not_found, leases)
release_found lease_id owner_id now (some existing) leases =
    if existing.owner_id == owner_id
    then (ok tt, put lease_id (record existing { updated_at = now; expires_at = now }) leases)
    else (err cas_conflict, leases)

-- `ReleaseWorkerLease`
unfoldable pub release_worker_lease :
    ReleaseWorkerLeaseRequest → Time → Exec (Map String WorkerLease) (Unit {0})
release_worker_lease req now leases =
    let worker_kind = trim_space req.worker_kind in
    let shard_id = trim_space req.shard_id in
    let owner_id = trim_space req.owner_id in
    let lease_id = worker_lease_id worker_kind shard_id in
    if is_empty worker_kind || (is_empty shard_id || is_empty owner_id)
    then (err invalid_argument, leases)
    else release_found lease_id owner_id now (get lease_id leases) leases

-- A request to the lease table at a reading of the clock.
pub data LeaseCall : Type 0 where
  acquire : AcquireWorkerLeaseRequest → Time → LeaseCall
  release : ReleaseWorkerLeaseRequest → Time → LeaseCall

-- The state that a call leaves, whatever it returns.
unfoldable pub apply_call : LeaseCall → Map String WorkerLease → Map String WorkerLease
unfolding acquire_worker_lease release_worker_lease
apply_call (acquire req now) leases = (acquire_worker_lease req now leases).1
apply_call (release req now) leases = (release_worker_lease req now leases).1

-- The critical sections of the repository's mutex, one after another.
unfoldable pub apply_calls : List LeaseCall → Map String WorkerLease → Map String WorkerLease
apply_calls [] leases = leases
apply_calls (call ∷ calls) leases = apply_calls calls (apply_call call leases)

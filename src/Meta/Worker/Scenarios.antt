-- ===== src/Meta/Worker/Scenarios.antt =====
-- Concrete runs of the lease table.
use namros.Base.{◌<◌, ◌≡◌, ◌↔◌, refl, inr, some, List, [], ◌∷◌, arith, string_equality, eq_iff}
use namros.Base.Maps.{Map, get, put}
use namros.Base.Text.{trim_space}
use namros.Base.Exec.{ok}
use namros.Base.{String}
use namros.Meta.Model.Operations.{WorkerLease}
use namros.Meta.Worker.{
  AcquireWorkerLeaseRequest, LeaseCall, acquire, release, apply_call, apply_calls, lease_at,
  worker_lease_id, acquire_worker_lease, build_worker_lease,
}
use namros.Meta.Worker.Fencing.{generation_fences_owners}
use namros.Meta.Worker.Exclusion.{lease_excludes_others, acquire_worker_lease_granted, IsFree}

abbrev asks : String → AcquireWorkerLeaseRequest
asks owner_id = record {
  worker_kind = " gc ";
  shard_id = "0";
  owner_id = owner_id;
  ttl = 30;
  cursor = "";
}

abbrev first : List LeaseCall
first = acquire (asks "a") 10 ∷ []

abbrev later : List LeaseCall
later = acquire (asks "b") 20 ∷ acquire (asks "b") 41 ∷ []

generation_fences_owners_example :
    (lease_at "gc/0" (apply_calls first [])).generation
    < (lease_at "gc/0" (apply_calls later (apply_calls first []))).generation
unfolding apply_calls apply_call lease_at build_worker_lease worker_lease_id trim_space get put
    namros.Base.Exec.◌>>=◌ namros.Base.Exec.◌>>◌
generation_fences_owners_example =
    generation_fences_owners first later "gc/0" (omega arith) (λ p. cc ((eq_iff "a" "b").1 p))

abbrev a_lease : WorkerLease
a_lease = record {
  lease_id = "gc/0";
  worker_kind = "gc";
  shard_id = "0";
  owner_id = "a";
  generation = 1;
  cursor = "";
  acquired_at = 10;
  updated_at = 10;
  expires_at = 40;
}

abbrev held_by_a : Map String WorkerLease
held_by_a = ("gc/0", a_lease) ∷ []

abbrev others : List LeaseCall
others =
    acquire (asks "b") 20
    ∷ release (record { worker_kind = "gc"; shard_id = "0"; owner_id = "b" }) 39
    ∷ []

lease_excludes_others_example : get "gc/0" (apply_calls others held_by_a) ≡ some a_lease
unfolding get trim_space
lease_excludes_others_example = lease_excludes_others others "gc/0" a_lease held_by_a refl refl (
  (omega arith, inr (λ p. cc ((eq_iff "a" "b").1 p))),
  ((omega arith, inr (λ p. cc ((eq_iff "a" "b").1 p))), tt),
)

acquire_worker_lease_granted_example :
    ((lease : WorkerLease) × (acquire_worker_lease (asks "b") 40 held_by_a
        ≡ (ok lease, put (worker_lease_id " gc " "0") lease held_by_a)))
    ↔ IsFree (lease_at (worker_lease_id " gc " "0") held_by_a) (trim_space "b") 40
unfolding trim_space
acquire_worker_lease_granted_example =
    acquire_worker_lease_granted (asks "b") 40 refl refl refl refl held_by_a

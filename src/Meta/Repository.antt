-- ===== src/Meta/Repository.antt =====
-- The state of the in-memory metadata repository (internal/meta/memory/repository.go, `Repository`):
-- the maps that bucket, object, multipart and quota operations read or change. Every method runs
-- under one mutex, so it is one function from state to result and state. What the repository gets
-- from elsewhere is the record `Env`.
use namros.Base.{
  ℕ, zero, suc, String, ◌≡◌, refl, ◌↔◌, ◌⊎◌, inl, inr, Bool-cases, Option-cases, Bool, true, false,
  ◌&&◌, Option, none, some, List, arith, Equality, nat_equality, string_equality, nat_beq,
  nat_beq_iff, eq_iff, ◌==◌, ◌+◌, if◌then◌else◌,
}
use namros.Base.Maps.{Map, get}
use namros.Base.Exec.{Err, Result, ok, err, Exec, Leaves, ◌>>=◌, unavailable}
use namros.Meta.Model.Segment.{Time}
use namros.Meta.Model.Lock.{KmsKeyRecord, ProtectedRef}
use namros.Meta.Model.Object.{Bucket, BucketQuota, ObjectHead, ObjectVersion, AuditEvent}
use namros.Meta.Model.Multipart.{MultipartUpload, MultipartPart, MultipartCompletionRecord}
use namros.Meta.Model.Operations.{Tenant, TenantQuota, TenantUsage}

pub record ObjectKey : Type 0 where
  pub bucket_id : String
  pub key : String

pub record VersionKey : Type 0 where
  pub bucket_id : String
  pub key : String
  pub version_id : String

pub record UploadKey : Type 0 where
  pub bucket_id : String
  pub key : String
  pub upload_id : String

pub record PartKey : Type 0 where
  pub upload : UploadKey
  pub part_number : ℕ

-- Go compares structs field by field.
abbrev pub object_key_beq : ObjectKey → ObjectKey → Bool
object_key_beq a b = a.bucket_id == b.bucket_id && a.key == b.key

pub object_key_beq_iff : (a b : ObjectKey) → (object_key_beq a b ≡ true) ↔ (a ≡ b)
object_key_beq_iff a b = ground (arith, eq_iff a.bucket_id b.bucket_id, eq_iff a.key b.key)

instance abbrev pub object_key_eq : Equality ObjectKey
object_key_eq = record { same = object_key_beq; same_iff = object_key_beq_iff }

abbrev pub version_key_beq : VersionKey → VersionKey → Bool
version_key_beq a b = a.bucket_id == b.bucket_id && (a.key == b.key && a.version_id == b.version_id)

pub version_key_beq_iff : (a b : VersionKey) → (version_key_beq a b ≡ true) ↔ (a ≡ b)
version_key_beq_iff a b =
    ground
      (arith, eq_iff a.bucket_id b.bucket_id, eq_iff a.key b.key, eq_iff a.version_id b.version_id)

instance abbrev pub version_key_eq : Equality VersionKey
version_key_eq = record { same = version_key_beq; same_iff = version_key_beq_iff }

abbrev pub upload_key_beq : UploadKey → UploadKey → Bool
upload_key_beq a b = a.bucket_id == b.bucket_id && (a.key == b.key && a.upload_id == b.upload_id)

pub upload_key_beq_iff : (a b : UploadKey) → (upload_key_beq a b ≡ true) ↔ (a ≡ b)
upload_key_beq_iff a b =
    ground
      (arith, eq_iff a.bucket_id b.bucket_id, eq_iff a.key b.key, eq_iff a.upload_id b.upload_id)

instance abbrev pub upload_key_eq : Equality UploadKey
upload_key_eq = record { same = upload_key_beq; same_iff = upload_key_beq_iff }

abbrev pub part_key_beq : PartKey → PartKey → Bool
part_key_beq a b = upload_key_beq a.upload b.upload && nat_beq a.part_number b.part_number

pub part_key_beq_iff : (a b : PartKey) → (part_key_beq a b ≡ true) ↔ (a ≡ b)
part_key_beq_iff a b =
    ground (arith, upload_key_beq_iff a.upload b.upload, nat_beq_iff a.part_number b.part_number)

instance abbrev pub part_key_eq : Equality PartKey
part_key_eq = record { same = part_key_beq; same_iff = part_key_beq_iff }

pub record Repository : Type 0 where
  pub clock_reads : ℕ
  pub id_draws : ℕ
  pub tenants : Map String Tenant
  pub tenant_quotas : Map String TenantQuota
  pub tenant_usages : Map String TenantUsage
  pub kms_keys : Map String KmsKeyRecord
  pub buckets_by_id : Map String Bucket
  pub bucket_name_to_id : Map String String
  pub bucket_quotas : Map String BucketQuota
  pub heads : Map ObjectKey ObjectHead
  pub versions : Map VersionKey ObjectVersion
  pub uploads : Map UploadKey MultipartUpload
  pub completions : Map UploadKey MultipartCompletionRecord
  pub parts : Map PartKey MultipartPart
  pub next_audit_id : ℕ
  pub audit_head_hash : String
  pub audit_events : List AuditEvent
  pub protected_refs : Map String ProtectedRef

-- What the repository is given: the readings of its clock, the identifiers that its generator draws
-- (`none` is an error), the digests, and `ValidateObjectVersionScale`, which measures JSON.
pub record Env : Type 0 where
  pub now : ℕ → Time
  pub time_now : Time
  pub new_id : ℕ → Option String
  pub audit_event_id : ℕ → String
  pub audit_event_hash : AuditEvent → String
  pub protected_ref_id : String → String → String → String → String
  pub validate_object_version_scale : ObjectVersion → Result (Unit {0})

module _ (env : Env) where
  -- `r.now()`
  unfoldable pub read_clock : Exec Repository Time
  read_clock r = (ok (env.now r.clock_reads), record r { clock_reads = r.clock_reads + 1 })

  -- the retry loop of `nextObjectVersionIDLocked` and `nextMultipartUploadIDLocked`, over the
  -- attempts left: `taken` is the test for a collision
  unfoldable pub draw_id : (taken : Repository → String → Bool) → ℕ → Exec Repository String
  draw_id taken zero r = (err unavailable, r)
  draw_id taken (suc attempts) r = elim (env.new_id r.id_draws) [
    | none ↦ (err unavailable, record r { id_draws = r.id_draws + 1 })
    | some id ↦
        let again = draw_id taken attempts (record r { id_draws = r.id_draws + 1 }) in
        if taken r id then again else (ok id, record r { id_draws = r.id_draws + 1 })
  ]

-- `idCollisionRetryLimit`
abbrev pub id_collision_retry_limit : ℕ
id_collision_retry_limit = 8

abbrev pub has {ℓ κ} : {K : Type ℓ} {V : Type κ} ⦃e : Equality K⦄ → K → Map K V → Bool
has k m = elim (get k m) [ none ↦ false | some v ↦ true ]

-- The clock is read before the rest of a block.
pub read_clock_then :
    {B : Type 0} {Q : Repository → Type 0} (env : Env) (f : Time → Exec Repository B)
    {r : Repository}
    → Leaves Q (f (env.now r.clock_reads)) (record r { clock_reads = r.clock_reads + 1 })
    → Leaves Q (read_clock env >>= f) r
unfolding read_clock ◌>>=◌
read_clock_then env f go = record { holds = go.holds }

-- A draw fails, or gives an identifier of the generator that was not taken; only the count of draws changes.
draw_id-cases :
    (env : Env) (taken : Repository → String → Bool) (attempts : ℕ) (r : Repository)
    → ((e : Err) × (d : ℕ) × (draw_id env taken attempts r ≡ (err e, record r { id_draws = d })))
      ⊎ ((id : String) × (d d' : ℕ) × (draw_id env taken attempts r
            ≡ (ok id, record r { id_draws = d }))
          × (taken (record r { id_draws = d' }) id ≡ false)
          × (env.new_id d' ≡ some id))
unfolding draw_id
draw_id-cases env taken zero r = inl (unavailable, r.id_draws, refl)
draw_id-cases env taken (suc attempts) r = elim (Option-cases (env.new_id r.id_draws)) [
  | inl failed ↦ inl (unavailable, r.id_draws + 1, rw (failed, draw_id))
  | inr (id, drawn) ↦ elim (Bool-cases (taken r id)) [
    | inl collides ↦
        rw (drawn, draw_id)
          (rw collides (draw_id-cases env taken attempts (record r { id_draws = r.id_draws + 1 })))
    | inr fresh ↦
        inr (id, r.id_draws + 1, r.id_draws, rw (drawn, draw_id) (rw fresh refl), fresh, drawn)
  ]
]

pub draw_id_then :
    {B : Type 0} {Q : Repository → Type 0} (env : Env) (taken : Repository → String → Bool)
    (attempts : ℕ) (f : String → Exec Repository B) (r : Repository)
    → ((d : ℕ) → Q (record r { id_draws = d }))
    → ((id : String) (d d' : ℕ)
        → taken (record r { id_draws = d' }) id ≡ false
        → env.new_id d' ≡ some id
        → Leaves Q (f id) (record r { id_draws = d }))
    → Leaves Q (draw_id env taken attempts >>= f) r
unfolding ◌>>=◌
draw_id_then env taken attempts f r stop go = elim (draw_id-cases env taken attempts r) [
  | inl (e, d, failed) ↦ record { holds = rw (failed, ◌>>=◌) (stop d) }
  | inr (id, d, d', found, fresh, drawn) ↦ record {
    holds = rw (found, ◌>>=◌) (go id d d' fresh drawn).holds;
  }
]

-- ===== src/Meta/Buckets.antt =====
-- Buckets: `CreateBucket`, `PutBucketVersioning`, `PutBucketObjectLock`, `DeleteBucket` and the lookups
-- (internal/meta/memory/repository.go). The documents of a bucket that are left out of `Bucket` are
-- empty in a new bucket and not touched here.
pub mod Names
pub mod Calls
mod Scenarios
use namros.Base.{
  ℕ, String, Bool, true, false, not, ◌&&◌, ◌||◌, Option, none, some, List, [], ◌∷◌, ◌++◌, is_empty,
  string_equality, ◌==◌, if◌then◌else◌,
}
use namros.Base.Maps.{Map, get, put, delete}
use namros.Base.Int64.{is_positive}
use namros.Base.Exec.{
  Result, ok, err, Exec, pure, lift, gets, modify, guard, ◌>>=◌, ◌>>◌, invalid_argument, not_found,
  already_exists, bucket_not_empty,
}
use namros.Meta.Model.Segment.{Time}
use namros.Meta.Model.Lock.{ObjectLockMode, BucketObjectLockConfiguration}
use namros.Meta.Model.Object.{
  Bucket, BucketVersioningState, ObjectVersion, ObjectHead, AuditContext,
}
use namros.Meta.ObjectLock.{validate_bucket_object_lock_configuration, is_unset}
use namros.Meta.Multipart.{found}
use namros.Meta.Repository.{
  Repository, Env, ObjectKey, VersionKey, has, read_clock, draw_id, id_collision_retry_limit,
}
use namros.Meta.Objects.{append_audit_event, is_committed, is_versioning_enabled}
use namros.Meta.Objects.Lock.{mode_text, transition_audit_event}

pub record CreateBucketRequest : Type 0 where
  pub tenant_id : String
  pub name : String
  pub region : String
  pub object_lock_enabled : Bool

pub record PutBucketVersioningRequest : Type 0 where
  pub bucket_id : String
  pub state : BucketVersioningState

pub record BucketObjectLockRequest : Type 0 where
  pub bucket_id : String
  pub configuration : BucketObjectLockConfiguration
  pub audit : AuditContext

abbrev pub lock_of : Bool → BucketObjectLockConfiguration
lock_of enabled = record {
  enabled = enabled;
  default_retention = record { mode = ObjectLockMode.unset; days = 0; years = 0 };
}

-- the bucket that `CreateBucket` stores
unfoldable pub new_bucket : CreateBucketRequest → String → Time → Bucket
new_bucket req bucket_id now = record {
  bucket_id = bucket_id;
  tenant_id = req.tenant_id;
  name = req.name;
  region = req.region;
  versioning_state =
      if req.object_lock_enabled
      then BucketVersioningState.enabled
      else BucketVersioningState.unversioned;
  object_lock = lock_of req.object_lock_enabled;
  created_at = now;
}

-- `r.bucketsByID[bucket.BucketID] = bucket`
abbrev pub store_bucket : Bucket → Repository → Repository
store_bucket bucket r = record r { buckets_by_id = put bucket.bucket_id bucket r.buckets_by_id }

-- `CreateBucket`
unfoldable pub create_bucket : Env → CreateBucketRequest → Exec Repository Bucket
create_bucket env req = do
  guard (not (is_empty req.tenant_id || (is_empty req.name || is_empty req.region)))
      invalid_argument
  taken ← gets (λ r. has req.name r.bucket_name_to_id)
  guard (not taken) already_exists
  bucket_id ← draw_id env (λ r id. has id r.buckets_by_id) id_collision_retry_limit
  now ← read_clock env
  let bucket = new_bucket req bucket_id now
  modify (store_bucket bucket)
  modify (λ r. record r { bucket_name_to_id = put req.name bucket_id r.bucket_name_to_id })
  pure bucket

abbrev is_settable : BucketVersioningState → Bool
is_settable BucketVersioningState.enabled = true
is_settable BucketVersioningState.suspended = true
is_settable _ = false

-- `PutBucketVersioning`
unfoldable pub put_bucket_versioning : PutBucketVersioningRequest → Exec Repository Bucket
put_bucket_versioning req = do
  guard (not (is_empty req.bucket_id)) invalid_argument
  guard (is_settable req.state) invalid_argument
  there ← gets (λ r. get req.bucket_id r.buckets_by_id)
  bucket ← lift (found there)
  guard (not (bucket.object_lock.enabled && not (is_versioning_enabled req.state))) invalid_argument
  let changed : Bucket = record bucket { versioning_state = req.state }
  modify (store_bucket changed)
  pure changed

-- `bucketObjectLockAuditDetails`; `format_int` stands for `strconv.Itoa`
unfoldable pub bucket_object_lock_audit_details :
    (ℕ → String) → BucketObjectLockConfiguration → Map String String
unfolding mode_text
bucket_object_lock_audit_details format_int c =
    let retention = c.default_retention in
    let mode = ("default_retention_mode", mode_text retention.mode) ∷ [] in
    let days = ("default_retention_days", format_int retention.days) ∷ [] in
    let years = ("default_retention_years", format_int retention.years) ∷ [] in
    ("enabled", if c.enabled then "true" else "false")
    ∷ ((if is_unset retention.mode then [] else mode)
        ++ ((if is_positive retention.days then days else [])
            ++ (if is_positive retention.years then years else [])))

-- `PutBucketObjectLock`
unfoldable pub put_bucket_object_lock :
    Env → (ℕ → String) → BucketObjectLockRequest → Exec Repository Bucket
put_bucket_object_lock env format_int req = do
  guard (not (is_empty req.bucket_id)) invalid_argument
  lift (validate_bucket_object_lock_configuration req.configuration)
  there ← gets (λ r. get req.bucket_id r.buckets_by_id)
  bucket ← lift (found there)
  let changed : Bucket = record bucket {
    object_lock = req.configuration;
    versioning_state = BucketVersioningState.enabled;
  }
  modify (store_bucket changed)
  modify (
      append_audit_event env (
        transition_audit_event req.audit "put_bucket_object_lock" bucket.bucket_id "" ""
          (bucket_object_lock_audit_details format_int req.configuration)))
  pure changed

-- the loops of `DeleteBucket`
unfoldable pub has_head : String → Map ObjectKey ObjectHead → Bool
has_head bucket_id [] = false
has_head bucket_id ((k, head) ∷ heads) = k.bucket_id == bucket_id || has_head bucket_id heads

unfoldable pub has_committed_version : String → Map VersionKey ObjectVersion → Bool
has_committed_version bucket_id [] = false
has_committed_version bucket_id ((vk, v) ∷ versions) =
    (vk.bucket_id == bucket_id && is_committed v.state) || has_committed_version bucket_id versions

abbrev pub drop_bucket : String → String → Repository → Repository
drop_bucket bucket_id name r = record r {
  buckets_by_id = delete bucket_id r.buckets_by_id;
  bucket_name_to_id = delete name r.bucket_name_to_id;
  bucket_quotas = delete bucket_id r.bucket_quotas;
}

-- `DeleteBucket`
unfoldable pub delete_bucket : String → Exec Repository (Unit {0})
unfolding has_head has_committed_version
delete_bucket bucket_id = do
  there ← gets (λ r. get bucket_id r.buckets_by_id)
  bucket ← lift (found there)
  any_head ← gets (λ r. has_head bucket_id r.heads)
  guard (not any_head) bucket_not_empty
  any_version ← gets (λ r. has_committed_version bucket_id r.versions)
  guard (not any_version) bucket_not_empty
  modify (drop_bucket bucket_id bucket.name)

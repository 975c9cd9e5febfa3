-- ===== src/Meta/Objects/Put.antt =====
-- Writing objects: `BeginPutObject`, `CommitObjectVersion`, `PutObjectVersion`, and the reads
-- `GetObjectHead` and `GetObjectVersion` (internal/meta/memory/repository.go).
use namros.Base.{
  String, Bool, false, not, ◌&&◌, ◌||◌, Option, none, some, List, is_empty, string_equality, ◌==◌,
  if◌then◌else◌,
}
use namros.Base.Maps.{get}
use namros.Base.Exec.{
  Result, Exec, pure, lift, gets, modify, guard, ◌>>=◌, ◌>>◌, invalid_argument, not_found,
  cas_conflict,
}
use namros.Meta.Model.Segment.{Time, SegmentRef}
use namros.Meta.Model.Object.{
  Bucket, BucketVersioningState, ObjectVersion, ObjectVersionState, ObjectHead,
}
use namros.Meta.ObjectLock.{validate_object_lock_state, normalize_segment_refs}
use namros.Meta.Multipart.{found}
use namros.Meta.Repository.{
  Repository, Env, ObjectKey, object_key_eq, version_key_eq, has, read_clock, draw_id,
  id_collision_retry_limit,
}
use namros.Meta.Objects.{
  BeginPutObjectRequest, CommitObjectVersionRequest, PendingObjectVersion, PutObjectVersionResult,
  object_key, version_key, head_at, first_segment_ref, head_from_version, revised, set_head,
  store_version, is_committed, is_versioning_enabled, deleted_record, delete_version_record,
  delete_protected_refs_for_version, sync_protected_refs, validate_object_manifest_scale,
}

-- the version that `BeginPutObject` and `PutObjectVersion` build
unfoldable pub new_version :
    BeginPutObjectRequest
    → List SegmentRef
    → String
    → ObjectVersionState
    → Time
    → Time
    → ObjectVersion
unfolding first_segment_ref
new_version req segment_refs version_id state created_at committed_at = record {
  bucket_id = req.bucket_id;
  key = req.key;
  version_id = version_id;
  version_sort_key = version_id;
  size_bytes = req.size_bytes;
  etag = req.etag;
  content_type = req.content_type;
  storage_class = req.storage_class;
  server_side_encryption = req.server_side_encryption;
  segment_ref = first_segment_ref segment_refs;
  segment_refs = segment_refs;
  user_metadata = req.user_metadata;
  tags = req.tags;
  object_lock_retention = req.object_lock_retention;
  object_lock_legal_hold = req.object_lock_legal_hold;
  state = state;
  created_at = created_at;
  committed_at = committed_at;
  delete_marker = false;
}

-- `nextObjectVersionIDLocked`
abbrev pub next_version_id : Env → ObjectKey → Exec Repository String
next_version_id env k =
    draw_id env (λ r id. has (version_key k id) r.versions) id_collision_retry_limit

-- `BeginPutObject`
unfoldable pub begin_put_object : Env → BeginPutObjectRequest → Exec Repository PendingObjectVersion
begin_put_object env req = do
  guard (not (is_empty req.bucket_id || is_empty req.key)) invalid_argument
  lift (validate_object_lock_state req.object_lock_retention req.object_lock_legal_hold)
  let k = object_key req.bucket_id req.key
  let segment_refs = normalize_segment_refs req.segment_ref req.segment_refs
  lift (validate_object_manifest_scale segment_refs)
  known ← gets (λ r. has req.bucket_id r.buckets_by_id)
  guard known not_found
  current_head ← gets (head_at k)
  now ← read_clock env
  version_id ← next_version_id env k
  let version = new_version req segment_refs version_id ObjectVersionState.pending now 0
  lift (env.validate_object_version_scale version)
  modify (store_version (version_key k version_id) version)
  pure (record {
    version = version;
    base_head_version_id = current_head.version_id;
    base_head = current_head;
    base_head_found = not (is_empty current_head.version_id);
  })

-- `bucket := r.bucketsByID[id]`, read for its versioning state only
abbrev pub versioning_of : Option Bucket → BucketVersioningState
versioning_of none = BucketVersioningState.unversioned
versioning_of (some bucket) = bucket.versioning_state

abbrev pub replaces : BucketVersioningState → ObjectHead → String → Bool
replaces versioning current_head version_id =
    not (is_versioning_enabled versioning)
    && (not (is_empty current_head.version_id) && not (current_head.version_id == version_id))

-- Where the bucket keeps no versions, the version of the current head goes, with its references.
unfoldable pub drop_replaced :
    ObjectKey → BucketVersioningState → ObjectHead → String → Repository → Repository
unfolding delete_version_record deleted_record delete_protected_refs_for_version
drop_replaced k versioning current_head version_id r =
    let old = deleted_record k current_head.version_id r in
    let without = delete_version_record k current_head.version_id r in
    if replaces versioning current_head version_id
    then delete_protected_refs_for_version old without
    else r

-- the changes of `CommitObjectVersion` to a version that is pending, and the head it returns
abbrev pub publish : Env → ObjectKey → ObjectVersion → Time → Exec Repository ObjectHead
publish env k version now = do
  head ← gets (revised k (head_from_version version now))
  modify (set_head k (head_from_version version now))
  modify (sync_protected_refs env version now)
  pure head

abbrev pub commit_found :
    Env
    → ObjectKey
    → BucketVersioningState
    → ObjectHead
    → String
    → ObjectVersion
    → Exec Repository ObjectHead
commit_found env k versioning current_head version_id version =
    if is_committed version.state then pure current_head else do
      now ← read_clock env
      let committed : ObjectVersion = record version {
        state = ObjectVersionState.committed;
        committed_at = now;
      }
      modify (store_version (version_key k version_id) committed)
      modify (drop_replaced k versioning current_head committed.version_id)
      publish env k committed now

-- `CommitObjectVersion`
unfoldable pub commit_object_version : Env → CommitObjectVersionRequest → Exec Repository ObjectHead
commit_object_version env req = do
  guard (not (is_empty req.bucket_id || (is_empty req.key || is_empty req.version_id)))
      invalid_argument
  let k = object_key req.bucket_id req.key
  versioning ← gets (λ r. versioning_of (get req.bucket_id r.buckets_by_id))
  current_head ← gets (head_at k)
  guard (current_head.version_id == req.expected_head_version_id) cas_conflict
  there ← gets (λ r. get (version_key k req.version_id) r.versions)
  version ← lift (found there)
  commit_found env k versioning current_head req.version_id version

-- `PutObjectVersion`
unfoldable pub put_object_version :
    Env → BeginPutObjectRequest → Exec Repository PutObjectVersionResult
put_object_version env req = do
  guard (not (is_empty req.bucket_id || is_empty req.key)) invalid_argument
  lift (validate_object_lock_state req.object_lock_retention req.object_lock_legal_hold)
  let k = object_key req.bucket_id req.key
  let segment_refs = normalize_segment_refs req.segment_ref req.segment_refs
  lift (validate_object_manifest_scale segment_refs)
  there ← gets (λ r. get req.bucket_id r.buckets_by_id)
  bucket ← lift (found there)
  current_head ← gets (head_at k)
  now ← read_clock env
  version_id ← next_version_id env k
  let version = new_version req segment_refs version_id ObjectVersionState.committed now now
  lift (env.validate_object_version_scale version)
  modify (drop_replaced k bucket.versioning_state current_head version_id)
  modify (store_version (version_key k version_id) version)
  head ← publish env k version now
  pure (record {
    head = head;
    replaced_head = current_head;
    replaced_head_found = not (is_empty current_head.version_id);
  })

-- `GetObjectHead`
unfoldable pub get_object_head : ObjectKey → Repository → Result ObjectHead
get_object_head k r = found (get k r.heads)

-- `GetObjectVersion`
unfoldable pub get_object_version : ObjectKey → String → Repository → Result ObjectVersion
get_object_version k version_id r = found (get (version_key k version_id) r.versions)

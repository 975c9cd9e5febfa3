-- ===== src/Meta/Objects.antt =====
-- Objects of the in-memory repository (internal/meta/memory/repository.go): what the operations on
-- object heads and versions share. The children follow the operations.
pub mod Put
pub mod Delete
pub mod Tags
pub mod Lock
pub mod Heads
pub mod Ready
pub mod Writes
mod Promotion
pub mod Deletes
pub mod Changes
pub mod Holds
pub mod Calls
pub mod Admission
pub mod Retained
mod Buckets
pub mod Worm
pub mod WormChanges
pub mod WormCalls
mod Scenarios
mod Types
pub use Types.*
use namros.Base.{
  ℕ, ◌+◌, String, Bool, true, false, not, ◌&&◌, ◌||◌, Option, none, some, List, [], ◌∷◌, ◌++◌,
  nat_beq, is_empty, string_equality, ◌==◌, ltb, length, if◌then◌else◌,
}
use namros.Base.Maps.{Map, get, put, delete}
use namros.Base.Int64.{add64}
use namros.Base.Text.{trim_space, text_ltb}
use namros.Base.Exec.{Result, ok, err, invalid_argument, not_found, kms_key_unavailable}
use namros.Meta.Model.Segment.{Time, SegmentRef, StorageClassSnapshot}
use namros.Meta.Model.Lock.{
  ObjectLockRetention, LegalHold, ServerSideEncryption, ServerSideEncryptionAlgorithm, KmsKeyRecord,
  ProtectedRef, kms_key_allows_delete,
}
use namros.Meta.Model.Object.{
  Bucket, BucketVersioningState, ObjectVersion, ObjectVersionState, ObjectHead, AuditContext,
  AuditEvent,
}
use namros.Meta.Model.Zero.{no_version, no_head, no_segment}
use namros.Meta.ObjectLock.{
  object_version_protected_by_object_lock, protected_ref_from_version, normalize_segment_refs,
}
use namros.Meta.Multipart.{max_multipart_parts}
use namros.Meta.Repository.{
  Repository, Env, ObjectKey, VersionKey, object_key_eq, version_key_eq, has,
}

abbrev pub object_key : String → String → ObjectKey
object_key bucket_id key = record { bucket_id = bucket_id; key = key }

abbrev pub version_key : ObjectKey → String → VersionKey
version_key k version_id = record { bucket_id = k.bucket_id; key = k.key; version_id = version_id }

abbrev pub head_or_zero : Option ObjectHead → ObjectHead
head_or_zero none = no_head
head_or_zero (some head) = head

-- `r.heads[key]`, the zero head where there is none
unfoldable pub head_at : ObjectKey → Repository → ObjectHead
head_at k r = head_or_zero (get k r.heads)

-- `firstSegmentRef`
unfoldable pub first_segment_ref : List SegmentRef → SegmentRef
first_segment_ref [] = no_segment
first_segment_ref (ref ∷ refs) = ref

-- `headFromVersion`; the revision is set by `setHeadLocked`
unfoldable pub head_from_version : ObjectVersion → Time → ObjectHead
head_from_version v last_modified = record {
  bucket_id = v.bucket_id;
  key = v.key;
  version_id = v.version_id;
  revision = 0;
  size_bytes = v.size_bytes;
  etag = v.etag;
  content_type = v.content_type;
  storage_class = v.storage_class;
  server_side_encryption = v.server_side_encryption;
  segment_ref = v.segment_ref;
  segment_refs = v.segment_refs;
  user_metadata = v.user_metadata;
  tags = v.tags;
  object_lock_retention = v.object_lock_retention;
  object_lock_legal_hold = v.object_lock_legal_hold;
  last_modified = last_modified;
  delete_marker = v.delete_marker;
}

-- `nextObjectHeadRevision`, a `uint64`
unfoldable pub next_object_head_revision : Option ObjectHead → ℕ
next_object_head_revision none = 1
next_object_head_revision (some previous) =
    if nat_beq previous.revision 0 then 1 else add64 previous.revision 1

-- the head that `setHeadLocked` stores and returns
abbrev pub revised : ObjectKey → ObjectHead → Repository → ObjectHead
revised k head r = record head { revision = next_object_head_revision (get k r.heads) }

-- `setHeadLocked`
unfoldable pub set_head : ObjectKey → ObjectHead → Repository → Repository
unfolding next_object_head_revision
set_head k head r = record r { heads = put k (revised k head r) r.heads }

-- `delete(r.heads, key)`
abbrev pub delete_head : ObjectKey → Repository → Repository
delete_head k r = record r { heads = delete k r.heads }

-- `r.versions[vkey] = version`
abbrev pub store_version : VersionKey → ObjectVersion → Repository → Repository
store_version vk v r = record r { versions = put vk v r.versions }

abbrev pub is_committed : ObjectVersionState → Bool
is_committed ObjectVersionState.committed = true
is_committed _ = false

abbrev pub is_versioning_enabled : BucketVersioningState → Bool
is_versioning_enabled BucketVersioningState.enabled = true
is_versioning_enabled _ = false

-- `deleteVersionRecordLocked`: the state, and the record it returns
abbrev pub version_or_zero : Option ObjectVersion → ObjectVersion
version_or_zero none = no_version
version_or_zero (some v) = v

unfoldable pub deleted_record : ObjectKey → String → Repository → ObjectVersion
deleted_record k version_id r =
    if is_empty version_id
    then no_version
    else version_or_zero (get (version_key k version_id) r.versions)

unfoldable pub delete_version_record : ObjectKey → String → Repository → Repository
delete_version_record k version_id r = record r {
  versions =
      if is_empty version_id then r.versions else delete (version_key k version_id) r.versions;
}

-- `deleteProtectedRefsForVersionLocked`
unfoldable pub drop_refs :
    String → String → String → Map String ProtectedRef → Map String ProtectedRef
drop_refs bucket_id key version_id [] = []
drop_refs bucket_id key version_id ((id, ref) ∷ refs) =
    let rest = drop_refs bucket_id key version_id refs in
    if ref.bucket_id == bucket_id && (ref.key == key && ref.version_id == version_id)
    then rest
    else (id, ref) ∷ rest

unfoldable pub delete_protected_refs_for_version : ObjectVersion → Repository → Repository
unfolding drop_refs
delete_protected_refs_for_version v r = record r {
  protected_refs = drop_refs v.bucket_id v.key v.version_id r.protected_refs;
}

-- the loop of `syncProtectedRefsForVersionLocked`
unfoldable pub add_refs :
    Env → ObjectVersion → Time → List SegmentRef → Map String ProtectedRef → Map String ProtectedRef
add_refs env v now [] refs = refs
add_refs env v now (segment ∷ segments) refs =
    let ref = protected_ref_from_version env.protected_ref_id v segment now in
    let added = add_refs env v now segments (put ref.ref_id ref refs) in
    let skipped = add_refs env v now segments refs in
    if is_empty segment.segment_id then skipped else added

-- `syncProtectedRefsForVersionLocked`
unfoldable pub sync_protected_refs : Env → ObjectVersion → Time → Repository → Repository
unfolding drop_refs add_refs
sync_protected_refs env v now r =
    let dropped = drop_refs v.bucket_id v.key v.version_id r.protected_refs in
    record r {
      protected_refs =
          if object_version_protected_by_object_lock v now false
          then add_refs env v now (normalize_segment_refs v.segment_ref v.segment_refs) dropped
          else dropped;
    }

-- `appendAuditEventLocked`
unfoldable pub append_audit_event : Env → AuditEvent → Repository → Repository
append_audit_event env event r =
    let next = r.next_audit_id + 1 in
    let unhashed = record event {
      event_id = env.audit_event_id next;
      created_at = env.now r.clock_reads;
      previous_hash = r.audit_head_hash;
    } in
    let hash = env.audit_event_hash unhashed in
    record r {
      clock_reads = r.clock_reads + 1;
      next_audit_id = next;
      audit_head_hash = hash;
      audit_events = r.audit_events ++ (record unhashed { event_hash = hash } ∷ []);
    }

-- `ValidateObjectManifestScale`, where `MaxObjectManifestSegmentRefs` is `MaxMultipartParts`
unfoldable pub validate_object_manifest_scale : List SegmentRef → Result (Unit {0})
validate_object_manifest_scale refs =
    if ltb max_multipart_parts (length refs) then err invalid_argument else ok tt

-- the tail of `checkDeleteKMSAdmissionLocked`
abbrev key_admits : Option KmsKeyRecord → Result (Unit {0})
key_admits none = ok tt
key_admits (some key) = if kms_key_allows_delete key.state then ok tt else err kms_key_unavailable

abbrev is_kms : ServerSideEncryptionAlgorithm → Bool
is_kms ServerSideEncryptionAlgorithm.aws_kms = true
is_kms _ = false

-- `checkDeleteKMSAdmissionLocked`
unfoldable pub check_delete_kms_admission : ServerSideEncryption → Repository → Result (Unit {0})
unfolding kms_key_allows_delete
check_delete_kms_admission encryption r =
    let key_id = trim_space encryption.key_id in
    if not (is_kms encryption.algorithm)
    then ok tt
    else if is_empty key_id
    then ok tt
    else key_admits (get key_id r.kms_keys)

-- the comparison of `latestCommittedVersionLocked`, over the versions left
unfoldable pub latest_from :
    ObjectKey → ObjectVersion → Map VersionKey ObjectVersion → ObjectVersion
latest_from k latest [] = latest
latest_from k latest ((vk, v) ∷ versions) =
    let skip = latest_from k latest versions in
    let take = latest_from k v versions in
    if not (vk.bucket_id == k.bucket_id) || (not (vk.key == k.key) || not (is_committed v.state))
    then skip
    else if is_empty latest.version_id || text_ltb latest.version_sort_key v.version_sort_key
    then take
    else skip

-- `latestCommittedVersionLocked`
unfoldable pub latest_committed_version : ObjectKey → Repository → Option ObjectVersion
unfolding latest_from
latest_committed_version k r =
    let latest = latest_from k no_version r.versions in
    if is_empty latest.version_id then none else some latest

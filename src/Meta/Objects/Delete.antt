-- ===== src/Meta/Objects/Delete.antt =====
-- Deleting objects: `DeleteObject` and the functions it calls under the lock
-- (internal/meta/memory/repository.go).
use namros.Base.{
  String, Bool, true, false, not, ◌||◌, Option, none, some, [], ◌∷◌, is_empty, string_equality,
  ◌==◌, if◌then◌else◌,
}
use namros.Base.Maps.{Map, get, delete}
use namros.Base.Text.{trim_space}
use namros.Base.Exec.{
  Result, ok, Exec, pure, lift, gets, modify, guard, ◌>>=◌, ◌>>◌, invalid_argument, object_locked,
}
use namros.Meta.Model.Segment.{Time}
use namros.Meta.Model.Object.{
  BucketVersioningState, ObjectVersion, ObjectVersionState, ObjectHead, AuditContext, AuditEvent,
}
use namros.Meta.Model.Zero.{no_version}
use namros.Meta.ObjectLock.{
  object_lock_protected, object_version_protected_by_object_lock, valid_governance_bypass_audit,
}
use namros.Meta.Multipart.{found}
use namros.Meta.Repository.{Repository, Env, ObjectKey, object_key_eq, version_key_eq, read_clock}
use namros.Meta.Objects.{
  DeleteObjectRequest, DeleteResult, object_key, version_key, head_from_version, set_head,
  delete_head, store_version, deleted_record, delete_version_record,
  delete_protected_refs_for_version, append_audit_event, check_delete_kms_admission,
  latest_committed_version, is_versioning_enabled,
}
use namros.Meta.Objects.Put.{next_version_id}

-- the event of `governanceBypassAuditEvent`, before `appendAuditEventLocked` numbers and hashes it
unfoldable pub governance_bypass_audit_event :
    String → String → AuditContext → String → String → Map String String → AuditEvent
governance_bypass_audit_event bucket_id key bypass_audit action version_id details = record {
  event_id = "";
  action = action;
  bucket_id = bucket_id;
  key = key;
  version_id = version_id;
  request_id = bypass_audit.request_id;
  reason = trim_space bypass_audit.reason;
  principal = bypass_audit.principal;
  details = details;
  previous_hash = "";
  event_hash = "";
  created_at = 0;
}

-- `AuditActionGovernanceBypassDeleteObject`
abbrev pub bypass_delete_action : String
bypass_delete_action = "governance_bypass_delete_object"

abbrev pub bypass_event : DeleteObjectRequest → String → String → AuditEvent
bypass_event req target version_id =
    governance_bypass_audit_event req.bucket_id req.key req.bypass_audit bypass_delete_action
      version_id (("target", target) ∷ [])

-- the object-lock check of both deletions: `protected` and `beyond_bypass` are its two tests
unfoldable pub admit_delete :
    Env → DeleteObjectRequest → String → String → Bool → Bool → Exec Repository (Unit {0})
unfolding governance_bypass_audit_event
admit_delete env req target version_id protected beyond_bypass =
    if not protected then pure tt else do
      guard
          (not (
            beyond_bypass
            || (not req.bypass_governance_retention
                || not (valid_governance_bypass_audit req.bypass_audit))))
          object_locked
      modify (append_audit_event env (bypass_event req target version_id))

-- What a deleted version leaves of the head: `promoted` is the latest committed version.
abbrev pub promote : ObjectKey → Option ObjectVersion → Repository → Repository
promote k none r = delete_head k r
promote k (some promoted) r = set_head k (head_from_version promoted promoted.committed_at) r

abbrev pub promote_if : ObjectKey → String → Option ObjectHead → Repository → Repository
promote_if k version_id none r = r
promote_if k version_id (some head) r =
    let promoted = promote k (latest_committed_version k r) r in
    if head.version_id == version_id then promoted else r

-- the end of `deleteObjectVersionLocked`
unfoldable pub promote_after : ObjectKey → String → Repository → Repository
unfolding set_head head_from_version latest_committed_version
promote_after k version_id r = promote_if k version_id (get k r.heads) r

-- `deleteObjectVersionLocked`
unfoldable pub delete_object_version : Env → DeleteObjectRequest → Exec Repository DeleteResult
delete_object_version env req = do
  let k = object_key req.bucket_id req.key
  there ← gets (λ r. get (version_key k req.version_id) r.versions)
  deleted ← lift (found there)
  admitted ← gets (check_delete_kms_admission deleted.server_side_encryption)
  lift admitted
  now ← read_clock env
  admit_delete env req "object_version" deleted.version_id
      (object_version_protected_by_object_lock deleted now false)
      (object_version_protected_by_object_lock deleted now true)
  modify (λ r. record r { versions = delete (version_key k req.version_id) r.versions })
  modify (delete_protected_refs_for_version deleted)
  modify (promote_after k req.version_id)
  pure (record {
    deleted = true;
    deleted_version_id = deleted.version_id;
    delete_marker = deleted.delete_marker;
    deleted_version = deleted;
  })

-- the version that `createDeleteMarkerLocked` stores
unfoldable pub delete_marker_version : ObjectKey → String → Time → ObjectVersion
delete_marker_version k version_id now = record no_version {
  bucket_id = k.bucket_id;
  key = k.key;
  version_id = version_id;
  version_sort_key = version_id;
  state = ObjectVersionState.committed;
  created_at = now;
  committed_at = now;
  delete_marker = true;
}

-- `createDeleteMarkerLocked`
unfoldable pub create_delete_marker : Env → ObjectKey → Exec Repository DeleteResult
create_delete_marker env k = do
  now ← read_clock env
  version_id ← next_version_id env k
  let version = delete_marker_version k version_id now
  modify (store_version (version_key k version_id) version)
  modify (set_head k (head_from_version version now))
  pure (record {
    deleted = true;
    deleted_version_id = version_id;
    delete_marker = true;
    deleted_version = version;
  })

abbrev pub head_admits : Option ObjectHead → Repository → Result (Unit {0})
head_admits none r = ok tt
head_admits (some head) r = check_delete_kms_admission head.server_side_encryption r

-- `DeleteObject` in a bucket that keeps versions, without a version id
abbrev pub delete_versioned : Env → ObjectKey → Exec Repository DeleteResult
delete_versioned env k = do
  admitted ← gets (λ r. head_admits (get k r.heads) r)
  lift admitted
  create_delete_marker env k

-- `DeleteObject` where the head is all there is
abbrev pub delete_head_found :
    Env → DeleteObjectRequest → ObjectKey → Option ObjectHead → Exec Repository DeleteResult
delete_head_found env req k none = pure (record {
  deleted = false;
  deleted_version_id = "";
  delete_marker = false;
  deleted_version = no_version;
})
delete_head_found env req k (some head) = do
  admitted ← gets (check_delete_kms_admission head.server_side_encryption)
  lift admitted
  now ← read_clock env
  admit_delete env req "object_head" head.version_id
      (object_lock_protected head.delete_marker head.object_lock_retention
        head.object_lock_legal_hold now false)
      (object_lock_protected head.delete_marker head.object_lock_retention
        head.object_lock_legal_hold now true)
  modify (delete_head k)
  deleted ← gets (deleted_record k head.version_id)
  modify (delete_version_record k head.version_id)
  modify (delete_protected_refs_for_version deleted)
  pure (record {
    deleted = true;
    deleted_version_id = head.version_id;
    delete_marker = false;
    deleted_version = deleted;
  })

abbrev pub delete_unversioned : Env → DeleteObjectRequest → ObjectKey → Exec Repository DeleteResult
delete_unversioned env req k = do
  there ← gets (λ r. get k r.heads)
  delete_head_found env req k there

abbrev pub delete_in :
    Env → DeleteObjectRequest → BucketVersioningState → Exec Repository DeleteResult
delete_in env req versioning =
    if not (is_empty req.version_id)
    then delete_object_version env req
    else if is_versioning_enabled versioning
    then delete_versioned env (object_key req.bucket_id req.key)
    else delete_unversioned env req (object_key req.bucket_id req.key)

-- `DeleteObject`
unfoldable pub delete_object : Env → DeleteObjectRequest → Exec Repository DeleteResult
delete_object env req = do
  guard (not (is_empty req.bucket_id || is_empty req.key)) invalid_argument
  there ← gets (λ r. get req.bucket_id r.buckets_by_id)
  bucket ← lift (found there)
  delete_in env req bucket.versioning_state

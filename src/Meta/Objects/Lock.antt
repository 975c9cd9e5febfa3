-- ===== src/Meta/Objects/Lock.antt =====
-- Retention and legal hold of objects: `PutObjectRetention`, `PutObjectLegalHold` and what they call
-- under the lock (internal/meta/memory/repository.go). The details of an audit event print dates; `format_time`
-- stands for `time.Time.Format`.
use namros.Base.{
  String, Bool, true, false, not, ◌||◌, Option, none, some, [], ◌∷◌, ltb, is_empty, string_equality,
  ◌==◌, if◌then◌else◌,
}
use namros.Base.Maps.{Map, get}
use namros.Base.Text.{trim_space}
use namros.Base.Exec.{
  Result, ok, err, Exec, pure, lift, gets, modify, guard, ◌>>=◌, ◌>>◌, invalid_argument, not_found,
  object_locked,
}
use namros.Meta.Model.Segment.{Time}
use namros.Meta.Model.Lock.{ObjectLockMode, LegalHold, ObjectLockRetention}
use namros.Meta.Model.Object.{ObjectVersion, ObjectHead, AuditContext, AuditEvent}
use namros.Meta.ObjectLock.{
  validate_object_lock_state, retention_update_blocked, valid_governance_bypass_audit, is_zero,
}
use namros.Meta.Repository.{
  Repository, Env, ObjectKey, VersionKey, object_key_eq, version_key_eq, read_clock,
}
use namros.Meta.Objects.{
  object_key, version_key, set_head, store_version, is_committed, sync_protected_refs,
  append_audit_event,
}
use namros.Meta.Objects.Delete.{governance_bypass_audit_event}

pub record ObjectRetentionRequest : Type 0 where
  pub bucket_id : String
  pub key : String
  pub version_id : String
  pub retention : ObjectLockRetention
  pub bypass_governance_retention : Bool
  pub bypass_audit : AuditContext
  pub audit : AuditContext

pub record ObjectLegalHoldRequest : Type 0 where
  pub bucket_id : String
  pub key : String
  pub version_id : String
  pub legal_hold : LegalHold
  pub audit : AuditContext

-- the end of `objectLockTargetLocked`
abbrev pub lockable : Option ObjectVersion → Result ObjectVersion
lockable none = err not_found
lockable (some v) = if not (is_committed v.state) || v.delete_marker then err not_found else ok v

-- `versionID` of `objectLockTargetLocked`, after the head is read
abbrev pub head_version : Option ObjectHead → Result String
head_version none = err not_found
head_version (some head) = if head.delete_marker then err not_found else ok head.version_id

unfoldable pub target_version_id : ObjectKey → String → Repository → Result String
target_version_id k version_id r =
    if is_empty version_id then head_version (get k r.heads) else ok version_id

-- `objectLockTargetLocked`: the version id of the key that it returns, and the version
unfoldable pub object_lock_target : ObjectKey → String → Exec Repository (String × ObjectVersion)
object_lock_target k version_id = do
  there ← gets (target_version_id k version_id)
  id ← lift there
  found_version ← gets (λ r. get (version_key k id) r.versions)
  version ← lift (lockable found_version)
  pure (id, version)

-- `updateHeadObjectLockLocked`
abbrev pub lock_head : ObjectKey → ObjectVersion → Option ObjectHead → Repository → Repository
unfolding set_head
lock_head k v none r = r
lock_head k v (some head) r =
    if head.version_id == v.version_id
    then set_head k
        (record head {
          object_lock_retention = v.object_lock_retention;
          object_lock_legal_hold = v.object_lock_legal_hold;
        })
        r
    else r

unfoldable pub update_head_object_lock : ObjectVersion → Repository → Repository
update_head_object_lock v r =
    lock_head (object_key v.bucket_id v.key) v (get (object_key v.bucket_id v.key) r.heads) r

-- the event of `transitionAuditEvent`
unfoldable pub transition_audit_event :
    AuditContext → String → String → String → String → Map String String → AuditEvent
transition_audit_event audit action bucket_id key version_id details = record {
  event_id = "";
  action = action;
  bucket_id = bucket_id;
  key = key;
  version_id = version_id;
  request_id = audit.request_id;
  reason = if is_empty (trim_space audit.reason) then action else trim_space audit.reason;
  principal = audit.principal;
  details = details;
  previous_hash = "";
  event_hash = "";
  created_at = 0;
}

-- `string(mode)`
unfoldable pub mode_text : ObjectLockMode → String
mode_text ObjectLockMode.unset = ""
mode_text ObjectLockMode.governance = "GOVERNANCE"
mode_text ObjectLockMode.compliance = "COMPLIANCE"
mode_text (ObjectLockMode.other s) = s

unfoldable pub legal_hold_text : LegalHold → String
legal_hold_text LegalHold.unset = ""
legal_hold_text LegalHold.on = "ON"
legal_hold_text LegalHold.off = "OFF"
legal_hold_text (LegalHold.other s) = s

-- `formatAuditTime`
unfoldable pub format_audit_time : (Time → String) → Time → String
format_audit_time format_time t = if is_zero t then "" else format_time t

abbrev pub is_hold_status : LegalHold → Bool
is_hold_status LegalHold.on = true
is_hold_status LegalHold.off = true
is_hold_status _ = false

-- `AuditActionGovernanceBypassPutObjectRetention`
abbrev bypass_retention_action : String
bypass_retention_action = "governance_bypass_put_object_retention"

-- the audit event of `PutObjectRetention` for a governance bypass
abbrev pub retention_bypass_event :
    (Time → String) → ObjectRetentionRequest → ObjectVersion → AuditEvent
retention_bypass_event format_time req v =
    governance_bypass_audit_event req.bucket_id req.key req.bypass_audit bypass_retention_action
      v.version_id
      (("current_mode", mode_text v.object_lock_retention.mode)
        ∷ ("current_retain_until", format_time v.object_lock_retention.retain_until_date)
        ∷ ("next_mode", mode_text req.retention.mode)
        ∷ ("next_retain_until", format_time req.retention.retain_until_date)
        ∷ [])

abbrev pub retention_event : (Time → String) → ObjectRetentionRequest → ObjectVersion → AuditEvent
retention_event format_time req v =
    transition_audit_event req.audit "put_object_retention" req.bucket_id req.key v.version_id (
      ("previous_mode", mode_text v.object_lock_retention.mode)
      ∷ (
        "previous_retain_until",
        format_audit_time format_time v.object_lock_retention.retain_until_date,
      )
      ∷ ("next_mode", mode_text req.retention.mode)
      ∷ ("next_retain_until", format_audit_time format_time req.retention.retain_until_date)
      ∷ [])

-- the check of `PutObjectRetention`: `blocked` and `beyond_bypass` are its two tests
unfoldable pub admit_retention :
    Env
    → (Time → String)
    → ObjectRetentionRequest
    → ObjectVersion
    → Bool
    → Bool
    → Exec Repository (Unit {0})
unfolding governance_bypass_audit_event mode_text
admit_retention env format_time req v blocked beyond_bypass = if not blocked then pure tt else do
  guard
      (not (
        beyond_bypass
        || (not req.bypass_governance_retention
            || not (valid_governance_bypass_audit req.bypass_audit))))
      object_locked
  modify (append_audit_event env (retention_bypass_event format_time req v))

-- the writes of `PutObjectRetention` and `PutObjectLegalHold`: the version, its head, its references
unfoldable pub store_lock : Env → VersionKey → ObjectVersion → Time → Repository → Repository
unfolding update_head_object_lock sync_protected_refs
store_lock env vk v now r =
    sync_protected_refs env v now (update_head_object_lock v (store_version vk v r))

-- `PutObjectRetention`
unfoldable pub put_object_retention :
    Env → (Time → String) → ObjectRetentionRequest → Exec Repository (Unit {0})
put_object_retention env format_time req = do
  guard (not (is_empty req.bucket_id || is_empty req.key)) invalid_argument
  lift (validate_object_lock_state req.retention LegalHold.unset)
  checked_at ← read_clock env
  guard (ltb checked_at req.retention.retain_until_date) invalid_argument
  let k = object_key req.bucket_id req.key
  (id, v) ← object_lock_target k req.version_id
  now ← read_clock env
  admit_retention env format_time req v
      (retention_update_blocked v.object_lock_retention req.retention now false)
      (retention_update_blocked v.object_lock_retention req.retention now true)
  modify
      (store_lock env (version_key k id) (record v { object_lock_retention = req.retention }) now)
  modify (append_audit_event env (retention_event format_time req v))

-- `PutObjectLegalHold`
unfoldable pub put_object_legal_hold : Env → ObjectLegalHoldRequest → Exec Repository (Unit {0})
put_object_legal_hold env req = do
  guard (not (is_empty req.bucket_id || is_empty req.key)) invalid_argument
  guard (is_hold_status req.legal_hold) invalid_argument
  let k = object_key req.bucket_id req.key
  (id, v) ← object_lock_target k req.version_id
  now ← read_clock env
  modify
      (store_lock env (version_key k id) (record v { object_lock_legal_hold = req.legal_hold }) now)
  modify (
      append_audit_event env (
        transition_audit_event req.audit "put_object_legal_hold" req.bucket_id req.key v.version_id
          (("previous_legal_hold", legal_hold_text v.object_lock_legal_hold)
            ∷ ("next_legal_hold", legal_hold_text req.legal_hold)
            ∷ [])))

-- `GetObjectRetention`
unfoldable pub get_object_retention : ObjectKey → String → Exec Repository ObjectLockRetention
unfolding object_lock_target
get_object_retention k version_id = do
  guard (not (is_empty k.bucket_id || is_empty k.key)) invalid_argument
  (id, v) ← object_lock_target k version_id
  pure v.object_lock_retention

-- `GetObjectLegalHold`
unfoldable pub get_object_legal_hold : ObjectKey → String → Exec Repository LegalHold
unfolding object_lock_target
get_object_legal_hold k version_id = do
  guard (not (is_empty k.bucket_id || is_empty k.key)) invalid_argument
  (id, v) ← object_lock_target k version_id
  pure v.object_lock_legal_hold

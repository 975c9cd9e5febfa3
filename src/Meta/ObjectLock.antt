-- ===== src/Meta/ObjectLock.antt =====
-- Object lock: retention, legal hold and the protected references that garbage collection reads
-- (internal/meta/memory/repository.go, the functions after `syncProtectedRefsForVersionLocked`).
pub mod Protection
pub mod Refs
mod Scenarios
use namros.Base.{
  String, Bool, true, false, not, ◌&&◌, ◌||◌, List, [], ◌∷◌, nat_beq, ltb, is_empty, if◌then◌else◌,
}
use namros.Base.Int64.{is_positive}
use namros.Base.Text.{trim_space}
use namros.Base.Exec.{Result, ok, err, invalid_argument}
use namros.Meta.Model.Segment.{Time, SegmentRef}
use namros.Meta.Model.Lock.{
  ObjectLockMode, LegalHold, ObjectLockRetention, ProtectedRef, BucketObjectLockConfiguration,
}
use namros.Meta.Model.Object.{ObjectVersion, AuditContext}

abbrev pub is_unset : ObjectLockMode → Bool
is_unset ObjectLockMode.unset = true
is_unset _ = false

-- `isValidObjectLockMode`
abbrev pub is_valid_object_lock_mode : ObjectLockMode → Bool
is_valid_object_lock_mode ObjectLockMode.governance = true
is_valid_object_lock_mode ObjectLockMode.compliance = true
is_valid_object_lock_mode _ = false

abbrev pub is_on : LegalHold → Bool
is_on LegalHold.on = true
is_on _ = false

-- The three legal-hold values that `validateObjectLockState` accepts.
abbrev pub is_valid_legal_hold : LegalHold → Bool
is_valid_legal_hold (LegalHold.other s) = false
is_valid_legal_hold _ = true

-- `time.Time.IsZero`
abbrev pub is_zero : Time → Bool
is_zero t = nat_beq t 0

-- `validateBucketObjectLockConfiguration`
unfoldable pub validate_bucket_object_lock_configuration :
    BucketObjectLockConfiguration → Result (Unit {0})
validate_bucket_object_lock_configuration c =
    let retention = c.default_retention in
    if not c.enabled
    then err invalid_argument
    else if is_unset retention.mode && is_zero retention.days && is_zero retention.years
    then ok tt
    else if not (is_valid_object_lock_mode retention.mode)
    then err invalid_argument
    else if not (is_positive retention.days) && not (is_positive retention.years)
    then err invalid_argument
    else if is_positive retention.days && is_positive retention.years
    then err invalid_argument
    else ok tt

-- `validateObjectLockState`
unfoldable pub validate_object_lock_state : ObjectLockRetention → LegalHold → Result (Unit {0})
validate_object_lock_state retention legal_hold =
    if (if is_unset retention.mode
      then not (is_zero retention.retain_until_date)
      else not (is_valid_object_lock_mode retention.mode) || is_zero retention.retain_until_date)
    then err invalid_argument
    else if is_valid_legal_hold legal_hold
    then ok tt
    else err invalid_argument

-- the `switch` on the mode that ends `objectLockProtected`
abbrev mode_protects : ObjectLockMode → Bool → Bool
mode_protects ObjectLockMode.compliance bypass_governance = true
mode_protects ObjectLockMode.governance bypass_governance = not bypass_governance
mode_protects _ bypass_governance = true

-- `objectLockProtected`
unfoldable pub object_lock_protected : Bool → ObjectLockRetention → LegalHold → Time → Bool → Bool
object_lock_protected delete_marker retention legal_hold now bypass_governance =
    if delete_marker
    then false
    else if is_on legal_hold
    then true
    else if is_unset retention.mode
    then false
    else if is_zero retention.retain_until_date
    then true
    else if not (ltb now retention.retain_until_date)
    then false
    else mode_protects retention.mode bypass_governance

-- `objectVersionProtectedByObjectLock`
unfoldable pub object_version_protected_by_object_lock : ObjectVersion → Time → Bool → Bool
unfolding object_lock_protected
object_version_protected_by_object_lock v now bypass_governance =
    object_lock_protected v.delete_marker v.object_lock_retention v.object_lock_legal_hold now
      bypass_governance

abbrev is_compliance : ObjectLockMode → Bool
is_compliance ObjectLockMode.compliance = true
is_compliance _ = false

-- the `switch` on the current mode that ends `retentionUpdateBlocked`
abbrev mode_blocks : ObjectLockMode → ObjectLockRetention → ObjectLockRetention → Bool → Bool
mode_blocks ObjectLockMode.compliance current next bypass_governance =
    not (is_compliance next.mode) || ltb next.retain_until_date current.retain_until_date
mode_blocks ObjectLockMode.governance current next bypass_governance = not bypass_governance
mode_blocks _ current next bypass_governance = true

-- `retentionUpdateBlocked`
unfoldable pub retention_update_blocked :
    ObjectLockRetention → ObjectLockRetention → Time → Bool → Bool
retention_update_blocked current next now bypass_governance =
    if is_unset current.mode
    then false
    else if is_zero current.retain_until_date
    then true
    else if not (ltb now current.retain_until_date)
    then false
    else mode_blocks current.mode current next bypass_governance

-- `protectedRefActive`
unfoldable pub protected_ref_active : ProtectedRef → Time → Bool
protected_ref_active ref now =
    if is_on ref.legal_hold
    then true
    else if is_unset ref.retention_mode
    then false
    else if is_zero ref.retain_until_date
    then true
    else ltb now ref.retain_until_date

-- `protectedRefFromVersion`. `ref_id` stands for `protectedRefID`, a digest of the four names.
unfoldable pub protected_ref_from_version :
    (ref_id : String → String → String → String → String)
    → ObjectVersion
    → SegmentRef
    → Time
    → ProtectedRef
protected_ref_from_version ref_id v segment_ref now = record {
  ref_id = ref_id v.bucket_id v.key v.version_id segment_ref.segment_id;
  bucket_id = v.bucket_id;
  key = v.key;
  version_id = v.version_id;
  segment_id = segment_ref.segment_id;
  segment_ref = segment_ref;
  retention_mode = v.object_lock_retention.mode;
  retain_until_date = v.object_lock_retention.retain_until_date;
  legal_hold = v.object_lock_legal_hold;
  created_at = now;
  updated_at = now;
}

-- `normalizeSegmentRefs`
unfoldable pub normalize_segment_refs : SegmentRef → List SegmentRef → List SegmentRef
normalize_segment_refs single (ref ∷ refs) = ref ∷ refs
normalize_segment_refs single [] = if is_empty single.segment_id then [] else single ∷ []

-- `validGovernanceBypassAudit`
unfoldable pub valid_governance_bypass_audit : AuditContext → Bool
valid_governance_bypass_audit audit =
    not (is_empty (trim_space audit.reason))
    && not (is_empty (trim_space audit.principal.access_key_id))

-- ===== src/Meta/Model/Lock.antt =====
-- Object-lock, encryption and KMS types of internal/meta/model/model.go.
use namros.Base.{ℕ, String, Bool, true, false}
use namros.Meta.Model.Segment.{Time, SegmentRef}

pub data ObjectLockMode : Type 0 where
  unset governance compliance : ObjectLockMode
  other : String → ObjectLockMode

pub data LegalHold : Type 0 where
  unset on off : LegalHold
  other : String → LegalHold

pub record ObjectLockRetention : Type 0 where
  pub mode : ObjectLockMode
  pub retain_until_date : Time

pub record BucketObjectLockDefaultRetention : Type 0 where
  pub mode : ObjectLockMode
  pub days : ℕ
  pub years : ℕ

pub record BucketObjectLockConfiguration : Type 0 where
  pub enabled : Bool
  pub default_retention : BucketObjectLockDefaultRetention

pub data ServerSideEncryptionAlgorithm : Type 0 where
  no_encryption aes256 aws_kms : ServerSideEncryptionAlgorithm
  other : String → ServerSideEncryptionAlgorithm

pub record ServerSideEncryption : Type 0 where
  pub algorithm : ServerSideEncryptionAlgorithm
  pub key_id : String
  pub key_version : String

pub data KmsKeyState : Type 0 where
  unset active disabled pending_deletion deleted : KmsKeyState
  other : String → KmsKeyState

pub record KmsKeyRecord : Type 0 where
  pub key_id : String
  pub key_version : String
  pub state : KmsKeyState
  pub created_at : Time
  pub updated_at : Time

-- `NormalizeKMSKeyState`
unfoldable pub normalize_kms_key_state : KmsKeyState → KmsKeyState
normalize_kms_key_state KmsKeyState.unset = KmsKeyState.active
normalize_kms_key_state KmsKeyState.active = KmsKeyState.active
normalize_kms_key_state (KmsKeyState.other s) = KmsKeyState.disabled
normalize_kms_key_state state = state

abbrev is_active : KmsKeyState → Bool
is_active KmsKeyState.active = true
is_active _ = false

-- `KMSKeyAllowsDelete`
unfoldable pub kms_key_allows_delete : KmsKeyState → Bool
unfolding normalize_kms_key_state
kms_key_allows_delete state = is_active (normalize_kms_key_state state)

-- `ProtectedRef`; the reason is always object lock.
pub record ProtectedRef : Type 0 where
  pub ref_id : String
  pub bucket_id : String
  pub key : String
  pub version_id : String
  pub segment_id : String
  pub segment_ref : SegmentRef
  pub retention_mode : ObjectLockMode
  pub retain_until_date : Time
  pub legal_hold : LegalHold
  pub created_at : Time
  pub updated_at : Time

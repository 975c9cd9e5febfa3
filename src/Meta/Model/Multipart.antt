-- ===== src/Meta/Model/Multipart.antt =====
-- Multipart uploads, their parts and completion records of internal/meta/model/model.go.
use namros.Base.{ℕ, String}
use namros.Base.Maps.{Map}
use namros.Meta.Model.Segment.{Time, SegmentRef, StorageClassSnapshot}
use namros.Meta.Model.Lock.{ObjectLockRetention, LegalHold, ServerSideEncryption}

pub data MultipartUploadState : Type 0 where
  active completed aborted : MultipartUploadState
  other : String → MultipartUploadState

pub data MultipartPartsCleanupState : Type 0 where
  unset pending done : MultipartPartsCleanupState

pub data MultipartCompletionState : Type 0 where
  prepared published completed : MultipartCompletionState
  other : String → MultipartCompletionState

pub record MultipartUpload : Type 0 where
  pub upload_id : String
  pub bucket_id : String
  pub key : String
  pub content_type : String
  pub storage_class : StorageClassSnapshot
  pub server_side_encryption : ServerSideEncryption
  pub user_metadata : Map String String
  pub tags : Map String String
  pub object_lock_retention : ObjectLockRetention
  pub object_lock_legal_hold : LegalHold
  pub state : MultipartUploadState
  pub part_count : ℕ
  pub total_part_size_bytes : ℕ
  pub max_part_number : ℕ
  pub parts_updated_at : Time
  pub completed_version_id : String
  pub completed_etag : String
  pub completed_size_bytes : ℕ
  pub completed_part_count : ℕ
  pub completed_at : Time
  pub parts_cleanup_state : MultipartPartsCleanupState
  pub parts_cleanup_deleted : ℕ
  pub parts_cleanup_updated_at : Time
  pub created_at : Time
  pub updated_at : Time

pub record MultipartCompletionRecord : Type 0 where
  pub bucket_id : String
  pub key : String
  pub upload_id : String
  pub object_version_id : String
  pub expected_head_version_id : String
  pub etag : String
  pub size_bytes : ℕ
  pub part_count : ℕ
  pub state : MultipartCompletionState
  pub created_at : Time
  pub updated_at : Time

pub record MultipartPart : Type 0 where
  pub upload_id : String
  pub part_number : ℕ
  pub size_bytes : ℕ
  pub etag : String
  pub segment_ref : SegmentRef
  pub created_at : Time
  pub updated_at : Time

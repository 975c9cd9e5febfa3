-- ===== src/Meta/Objects/Types.antt =====
-- Requests and results of the object operations: internal/meta/repository.go.
use namros.Base.{ℕ, String, Bool, List, string_equality}
use namros.Base.Maps.{Map}
use namros.Meta.Model.Segment.{SegmentRef, StorageClassSnapshot}
use namros.Meta.Model.Lock.{ObjectLockRetention, LegalHold, ServerSideEncryption}
use namros.Meta.Model.Object.{ObjectVersion, ObjectHead, AuditContext}
use namros.Meta.Repository.{object_key_eq, version_key_eq}

pub record BeginPutObjectRequest : Type 0 where
  pub bucket_id : String
  pub key : String
  pub size_bytes : ℕ
  pub etag : String
  pub content_type : String
  pub storage_class : StorageClassSnapshot
  pub server_side_encryption : ServerSideEncryption
  pub segment_ref : SegmentRef
  pub segment_refs : List SegmentRef
  pub user_metadata : Map String String
  pub tags : Map String String
  pub object_lock_retention : ObjectLockRetention
  pub object_lock_legal_hold : LegalHold

pub record CommitObjectVersionRequest : Type 0 where
  pub bucket_id : String
  pub key : String
  pub version_id : String
  pub expected_head_version_id : String

pub record DeleteObjectRequest : Type 0 where
  pub bucket_id : String
  pub key : String
  pub version_id : String
  pub bypass_governance_retention : Bool
  pub bypass_audit : AuditContext

pub record PendingObjectVersion : Type 0 where
  pub version : ObjectVersion
  pub base_head_version_id : String
  pub base_head : ObjectHead
  pub base_head_found : Bool

pub record PutObjectVersionResult : Type 0 where
  pub head : ObjectHead
  pub replaced_head : ObjectHead
  pub replaced_head_found : Bool

pub record DeleteResult : Type 0 where
  pub deleted : Bool
  pub deleted_version_id : String
  pub delete_marker : Bool
  pub deleted_version : ObjectVersion

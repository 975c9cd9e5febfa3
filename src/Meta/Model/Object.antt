-- ===== src/Meta/Model/Object.antt =====
-- Buckets, object heads, object versions and audit events of internal/meta/model/model.go.
use namros.Base.{ℕ, String, Bool, List}
use namros.Base.Maps.{Map}
use namros.Meta.Model.Segment.{Time, SegmentRef, StorageClassSnapshot}
use namros.Meta.Model.Lock.{
  ObjectLockRetention, LegalHold, ServerSideEncryption, BucketObjectLockConfiguration,
}

pub data BucketVersioningState : Type 0 where
  unversioned enabled suspended : BucketVersioningState
  other : String → BucketVersioningState

-- `Bucket` without its CORS, lifecycle, encryption and policy documents, which the operations
-- modelled here neither read nor change.
pub record Bucket : Type 0 where
  pub bucket_id : String
  pub tenant_id : String
  pub name : String
  pub region : String
  pub versioning_state : BucketVersioningState
  pub object_lock : BucketObjectLockConfiguration
  pub created_at : Time

pub record BucketQuota : Type 0 where
  pub bucket_id : String
  pub max_object_size_bytes : ℕ
  pub created_at : Time
  pub updated_at : Time

pub data ObjectVersionState : Type 0 where
  unset pending committed : ObjectVersionState

pub record ObjectVersion : Type 0 where
  pub bucket_id : String
  pub key : String
  pub version_id : String
  pub version_sort_key : String
  pub size_bytes : ℕ
  pub etag : String
  pub content_type : String
  pub storage_class : StorageClassSnapshot
  pub server_side_encryption : ServerSideEncryption
  pub segment_ref : SegmentRef
  pub segment_refs : List SegmentRef
  pub user_metadata : Map String String
  pub tags : Map String String
  pub object_lock_retention : ObjectLockRetention
  pub object_lock_legal_hold : LegalHold
  pub state : ObjectVersionState
  pub created_at : Time
  pub committed_at : Time
  pub delete_marker : Bool

pub record ObjectHead : Type 0 where
  pub bucket_id : String
  pub key : String
  pub version_id : String
  pub revision : ℕ
  pub size_bytes : ℕ
  pub etag : String
  pub content_type : String
  pub storage_class : StorageClassSnapshot
  pub server_side_encryption : ServerSideEncryption
  pub segment_ref : SegmentRef
  pub segment_refs : List SegmentRef
  pub user_metadata : Map String String
  pub tags : Map String String
  pub object_lock_retention : ObjectLockRetention
  pub object_lock_legal_hold : LegalHold
  pub last_modified : Time
  pub delete_marker : Bool

pub record AuditPrincipal : Type 0 where
  pub tenant_id : String
  pub access_key_id : String
  pub display_name : String
  pub subject : String
  pub groups : List String
  pub roles : List String
  pub session_id : String
  pub external_issuer : String
  pub policy_version : String
  pub source_identity : String
  pub root : Bool

-- `AuditContext` of internal/meta/repository.go.
pub record AuditContext : Type 0 where
  pub request_id : String
  pub reason : String
  pub principal : AuditPrincipal

pub record AuditEvent : Type 0 where
  pub event_id : String
  pub action : String
  pub bucket_id : String
  pub key : String
  pub version_id : String
  pub request_id : String
  pub reason : String
  pub principal : AuditPrincipal
  pub details : Map String String
  pub previous_hash : String
  pub event_hash : String
  pub created_at : Time

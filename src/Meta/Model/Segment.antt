-- ===== src/Meta/Model/Segment.antt =====
-- Segment references of internal/storage/storage.go: immutable descriptions of stored bytes.
use namros.Base.{ℕ, String, List}
use namros.Base.Maps.{Map}

-- Nanoseconds; 0 is the zero `time.Time`.
abbrev pub Time : Type 0
Time = ℕ

pub record StorageClassSnapshot : Type 0 where
  pub storage_class_id : String
  pub backend : String
  pub parameters : Map String String

pub record PlacementChunk : Type 0 where
  pub logical_offset_bytes : ℕ
  pub size_bytes : ℕ
  pub volume_id : String
  pub offset_bytes : ℕ
  pub length_bytes : ℕ
  pub store_id : String
  pub shard_id : ℕ
  pub chunk_id : ℕ
  pub role : String

pub record PlacementSnapshot : Type 0 where
  pub backend : String
  pub layout : String
  pub redundancy_backend : String
  pub profile_id : String
  pub profile_generation : ℕ
  pub chunk_size_bytes : ℕ
  pub parameters : Map String String
  pub chunks : List PlacementChunk

pub record Digest : Type 0 where
  pub algorithm : String
  pub hex : String

pub record EncryptionEnvelope : Type 0 where
  pub algorithm : String
  pub key_id : String
  pub key_version : String
  pub wrapped_dek : String
  pub nonce : String
  pub plaintext_size_bytes : ℕ
  pub ciphertext_size_bytes : ℕ
  pub context : Map String String

pub record SegmentRef : Type 0 where
  pub segment_id : String
  pub storage_class : StorageClassSnapshot
  pub placement : PlacementSnapshot
  pub size_bytes : ℕ
  pub digest : Digest
  pub encryption : EncryptionEnvelope
  pub created_at : Time
  pub shared_object_id : String

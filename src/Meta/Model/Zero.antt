-- ===== src/Meta/Model/Zero.antt =====
-- Go's zero values: what a missing key of a map reads as.
use namros.Base.{false, []}
use namros.Meta.Model.Segment.{StorageClassSnapshot, SegmentRef}
use namros.Meta.Model.Lock.{
  ObjectLockMode, ObjectLockRetention, LegalHold, ServerSideEncryption,
  ServerSideEncryptionAlgorithm,
}
use namros.Meta.Model.Object.{ObjectVersion, ObjectVersionState, ObjectHead}

abbrev pub no_storage_class : StorageClassSnapshot
no_storage_class = record { storage_class_id = ""; backend = ""; parameters = [] }

abbrev pub no_segment : SegmentRef
no_segment = record {
  segment_id = "";
  storage_class = no_storage_class;
  placement = record {
    backend = "";
    layout = "";
    redundancy_backend = "";
    profile_id = "";
    profile_generation = 0;
    chunk_size_bytes = 0;
    parameters = [];
    chunks = [];
  };
  size_bytes = 0;
  digest = record { algorithm = ""; hex = "" };
  encryption = record {
    algorithm = "";
    key_id = "";
    key_version = "";
    wrapped_dek = "";
    nonce = "";
    plaintext_size_bytes = 0;
    ciphertext_size_bytes = 0;
    context = [];
  };
  created_at = 0;
  shared_object_id = "";
}

abbrev pub no_retention : ObjectLockRetention
no_retention = record { mode = ObjectLockMode.unset; retain_until_date = 0 }

abbrev pub no_sse : ServerSideEncryption
no_sse = record {
  algorithm = ServerSideEncryptionAlgorithm.no_encryption;
  key_id = "";
  key_version = "";
}

abbrev pub no_version : ObjectVersion
no_version = record {
  bucket_id = "";
  key = "";
  version_id = "";
  version_sort_key = "";
  size_bytes = 0;
  etag = "";
  content_type = "";
  storage_class = no_storage_class;
  server_side_encryption = no_sse;
  segment_ref = no_segment;
  segment_refs = [];
  user_metadata = [];
  tags = [];
  object_lock_retention = no_retention;
  object_lock_legal_hold = LegalHold.unset;
  state = ObjectVersionState.unset;
  created_at = 0;
  committed_at = 0;
  delete_marker = false;
}

abbrev pub no_head : ObjectHead
no_head = record {
  bucket_id = "";
  key = "";
  version_id = "";
  revision = 0;
  size_bytes = 0;
  etag = "";
  content_type = "";
  storage_class = no_storage_class;
  server_side_encryption = no_sse;
  segment_ref = no_segment;
  segment_refs = [];
  user_metadata = [];
  tags = [];
  object_lock_retention = no_retention;
  object_lock_legal_hold = LegalHold.unset;
  last_modified = 0;
  delete_marker = false;
}

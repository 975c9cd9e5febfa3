-- ===== src/Meta/Samples.antt =====
-- A small concrete repository, for the scenarios of the components.
use namros.Base.{true, some, [], ◌∷◌, ◌+◌}
use namros.Base.Exec.{ok}
use namros.Meta.Model.Segment.{SegmentRef, StorageClassSnapshot}
use namros.Meta.Model.Lock.{
  ObjectLockMode, ObjectLockRetention, ProtectedRef, LegalHold, ServerSideEncryption,
  ServerSideEncryptionAlgorithm,
}
use namros.Meta.Model.Object.{Bucket, BucketVersioningState, AuditPrincipal}
use namros.Meta.Repository.{Repository, Env}

abbrev pub env : Env
env = record {
  now = λ n. n + 100;
  time_now = 99;
  new_id = λ n. some "id";
  audit_event_id = λ n. "event";
  audit_event_hash = λ event. event.event_id;
  protected_ref_id = λ bucket key version segment. segment;
  validate_object_version_scale = λ v. ok tt;
}

abbrev pub standard : StorageClassSnapshot
standard = record { storage_class_id = "STANDARD"; backend = "local"; parameters = [] }

abbrev pub a_segment : SegmentRef
a_segment = record {
  segment_id = "s";
  storage_class = standard;
  placement = record {
    backend = "local";
    layout = "file";
    redundancy_backend = "";
    profile_id = "";
    profile_generation = 0;
    chunk_size_bytes = 0;
    parameters = [];
    chunks = [];
  };
  size_bytes = 5;
  digest = record { algorithm = "sha256"; hex = "00" };
  encryption = record {
    algorithm = "";
    key_id = "";
    key_version = "";
    wrapped_dek = "";
    nonce = "";
    plaintext_size_bytes = 0;
    ciphertext_size_bytes = 0;
    context = [];
  };
  created_at = 1;
  shared_object_id = "";
}

abbrev pub no_retention : ObjectLockRetention
no_retention = record { mode = ObjectLockMode.unset; retain_until_date = 0 }

abbrev pub plain : ServerSideEncryption
plain = record {
  algorithm = ServerSideEncryptionAlgorithm.no_encryption;
  key_id = "";
  key_version = "";
}

abbrev pub a_bucket : Bucket
a_bucket = record {
  bucket_id = "b";
  tenant_id = "t";
  name = "pictures";
  region = "eu";
  versioning_state = BucketVersioningState.enabled;
  object_lock = record {
    enabled = true;
    default_retention = record { mode = ObjectLockMode.unset; days = 0; years = 0 };
  };
  created_at = 1;
}

abbrev pub root : AuditPrincipal
root = record {
  tenant_id = "t";
  access_key_id = "ak";
  display_name = "";
  subject = "";
  groups = [];
  roles = [];
  session_id = "";
  external_issuer = "";
  policy_version = "";
  source_identity = "";
  root = true;
}

-- one tenant with room for two uploads, and one bucket
abbrev pub a_repository : Repository
a_repository = record {
  clock_reads = 0;
  id_draws = 0;
  tenants = ("t", record { tenant_id = "t"; display_name = "T"; created_at = 1 }) ∷ [];
  tenant_quotas =
      (
        "t",
        record {
          tenant_id = "t";
          max_bytes = 0;
          max_objects = 0;
          max_active_uploads = 2;
          created_at = 1;
          updated_at = 1;
        },
      )
      ∷ [];
  tenant_usages = [];
  kms_keys = [];
  buckets_by_id = ("b", a_bucket) ∷ [];
  bucket_name_to_id = ("pictures", "b") ∷ [];
  bucket_quotas = [];
  heads = [];
  versions = [];
  uploads = [];
  completions = [];
  parts = [];
  next_audit_id = 0;
  audit_head_hash = "";
  audit_events = [];
  protected_refs = [];
}

-- A reference that a legal hold keeps active.
abbrev pub a_hold : ProtectedRef
a_hold = record {
  ref_id = "r";
  bucket_id = "b";
  key = "logs/1";
  version_id = "v1";
  segment_id = "s";
  segment_ref = a_segment;
  retention_mode = ObjectLockMode.unset;
  retain_until_date = 0;
  legal_hold = LegalHold.on;
  created_at = 1;
  updated_at = 1;
}

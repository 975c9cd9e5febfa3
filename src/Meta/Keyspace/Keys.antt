-- ===== src/Meta/Keyspace/Keys.antt =====
-- The keys under which the key-value repository stores its records: the functions of
-- internal/meta/keyspace/keyspace.go that build them.
use namros.Base.{ℕ, not, ◌++◌, if◌then◌else◌}
use namros.Base.Bytes.{Bytes, text}
use namros.Base.Int64.{is_positive}
use namros.Meta.Keyspace.{escape, left_pad_int, is_nil}

-- `prefix`
abbrev pub namespace : Bytes
namespace = text "/namros/v1"

-- `MetadataSchema`
abbrev pub metadata_schema : Bytes
metadata_schema = namespace ++ text "/system/schema"

-- `Tenant`
unfoldable pub tenant : Bytes → Bytes
tenant tenant_id = namespace ++ (text "/tenants/" ++ escape tenant_id)

-- `TenantQuota`
unfoldable pub tenant_quota : Bytes → Bytes
tenant_quota tenant_id = namespace ++ (text "/tenants/" ++ (escape tenant_id ++ text "/quota"))

-- `TenantUsage`
unfoldable pub tenant_usage : Bytes → Bytes
tenant_usage tenant_id = namespace ++ (text "/tenants/" ++ (escape tenant_id ++ text "/usage"))

-- `AccessKey`
unfoldable pub access_key : Bytes → Bytes
access_key access_key_id = namespace ++ (text "/access-keys/" ++ escape access_key_id)

-- `KMSKey`
unfoldable pub kms_key : Bytes → Bytes
kms_key key_id = namespace ++ (text "/kms/keys/" ++ escape key_id)

-- `ComplianceProfileAttachment`
unfoldable pub compliance_profile_attachment : Bytes → Bytes
compliance_profile_attachment profile_id =
    namespace ++ (text "/compliance/profile-attachments/" ++ escape profile_id)

-- `BucketByName`
unfoldable pub bucket_by_name : Bytes → Bytes
bucket_by_name name = namespace ++ (text "/buckets/by-name/" ++ escape name)

-- `BucketByID`
unfoldable pub bucket_by_id : Bytes → Bytes
bucket_by_id bucket_id = namespace ++ (text "/buckets/by-id/" ++ escape bucket_id)

-- `BucketQuota`
unfoldable pub bucket_quota : Bytes → Bytes
bucket_quota bucket_id = namespace ++ (text "/buckets/" ++ (escape bucket_id ++ text "/quota"))

-- `ObjectHead`
unfoldable pub object_head : Bytes → Bytes → Bytes
object_head bucket_id key =
    namespace
    ++ (text "/buckets/"
        ++ (escape bucket_id ++ (text "/objects/" ++ (escape key ++ text "/head"))))

-- `ObjectVersion`
unfoldable pub object_version : Bytes → Bytes → Bytes → Bytes
object_version bucket_id key version_sort_key =
    namespace
    ++ (text "/buckets/"
        ++ (escape bucket_id
            ++ (text "/versions/" ++ (escape key ++ (text "/" ++ escape version_sort_key)))))

-- `ObjectVersionByID`
unfoldable pub object_version_by_id : Bytes → Bytes → Bytes
object_version_by_id bucket_id version_id =
    namespace
    ++ (text "/buckets/" ++ (escape bucket_id ++ (text "/versions-by-id/" ++ escape version_id)))

-- `ObjectManifestChunk`
unfoldable pub object_manifest_chunk : (ℕ → Bytes) → Bytes → Bytes → ℕ → Bytes
object_manifest_chunk itoa bucket_id version_id chunk_number =
    let base : Bytes =
      namespace
      ++ (text "/buckets/"
          ++ (escape bucket_id
              ++ (text "/object-manifests/" ++ (escape version_id ++ text "/chunks/")))) in
    if not (is_positive chunk_number) then base else base ++ left_pad_int itoa chunk_number 6

-- `ListObject`
unfoldable pub list_object : Bytes → Bytes → Bytes
list_object bucket_id key =
    namespace ++ (text "/buckets/" ++ (escape bucket_id ++ (text "/list/" ++ escape key)))

-- `MultipartUpload`
unfoldable pub multipart_upload : Bytes → Bytes → Bytes
multipart_upload bucket_id upload_id =
    namespace
    ++ (text "/buckets/"
        ++ (escape bucket_id ++ (text "/multipart/" ++ (escape upload_id ++ text "/state"))))

-- `MultipartCompletion`
unfoldable pub multipart_completion : Bytes → Bytes → Bytes
multipart_completion bucket_id upload_id =
    namespace
    ++ (text "/buckets/"
        ++ (escape bucket_id ++ (text "/multipart/" ++ (escape upload_id ++ text "/completion"))))

-- `MultipartUploadByKey`
unfoldable pub multipart_upload_by_key : Bytes → Bytes → Bytes → Bytes
multipart_upload_by_key bucket_id key upload_id =
    namespace
    ++ (text "/buckets/"
        ++ (escape bucket_id
            ++ (text "/multipart-by-key/" ++ (escape key ++ (text "/" ++ escape upload_id)))))

-- `MultipartPart`; `itoa` stands for `strconv.Itoa`
unfoldable pub multipart_part : (ℕ → Bytes) → Bytes → Bytes → ℕ → Bytes
multipart_part itoa bucket_id upload_id part_number =
    namespace
    ++ (text "/buckets/"
        ++ (escape bucket_id
            ++ (text "/multipart/"
                ++ (escape upload_id ++ (text "/parts/" ++ left_pad_int itoa part_number 5)))))

-- `Idempotency`
unfoldable pub idempotency : Bytes → Bytes → Bytes
idempotency scope idempotency_key =
    namespace ++ (text "/idempotency/" ++ (escape scope ++ (text "/" ++ escape idempotency_key)))

-- `GCOrphan`
unfoldable pub gc_orphan : Bytes → Bytes → Bytes
gc_orphan time_bucket object_id =
    namespace ++ (text "/gc/orphans/" ++ (escape time_bucket ++ (text "/" ++ escape object_id)))

-- `GCCandidate`
unfoldable pub gc_candidate : Bytes → Bytes
gc_candidate segment_id =
    let base : Bytes = namespace ++ text "/gc/candidates/" in
    if is_nil segment_id then base else base ++ escape segment_id

-- `GCOperation`
unfoldable pub gc_operation : Bytes → Bytes
gc_operation operation_id = namespace ++ (text "/gc/operations/" ++ escape operation_id)

-- `DedupeOperation`
unfoldable pub dedupe_operation : Bytes → Bytes
dedupe_operation operation_id = namespace ++ (text "/dedupe/operations/" ++ escape operation_id)

-- `DedupeOperationLock`
unfoldable pub dedupe_operation_lock : Bytes → Bytes
dedupe_operation_lock lock_id = namespace ++ (text "/dedupe/operation-locks/" ++ escape lock_id)

-- `SharedObjectReleasePrefix`
unfoldable pub shared_object_release_prefix : Bytes → Bytes
shared_object_release_prefix shared_object_id =
    let base : Bytes = namespace ++ text "/gc/shared-object-releases/" in
    if is_nil shared_object_id then base else base ++ (escape shared_object_id ++ text "/")

-- `SharedObjectRelease`
unfoldable pub shared_object_release : Bytes → Bytes → Bytes
shared_object_release shared_object_id segment_id =
    shared_object_release_prefix shared_object_id ++ escape segment_id

-- `SharedObjectPrefix`
abbrev pub shared_object_prefix : Bytes
shared_object_prefix = namespace ++ text "/dedupe/shared-objects/"

-- `SharedObject`
unfoldable pub shared_object : Bytes → Bytes
shared_object shared_object_id = shared_object_prefix ++ escape shared_object_id

-- `SharedObjectRefPrefix`
unfoldable pub shared_object_ref_prefix : Bytes → Bytes
shared_object_ref_prefix shared_object_id =
    let base : Bytes = namespace ++ text "/dedupe/shared-object-refs/" in
    if is_nil shared_object_id then base else base ++ (escape shared_object_id ++ text "/")

-- `SharedObjectRef`
unfoldable pub shared_object_ref : Bytes → Bytes → Bytes → Bytes → Bytes
shared_object_ref shared_object_id bucket_id key version_id =
    shared_object_ref_prefix shared_object_id
    ++ (escape bucket_id ++ (text "/" ++ (escape key ++ (text "/" ++ escape version_id))))

-- `VolumePool`
unfoldable pub volume_pool : Bytes → Bytes
volume_pool pool_id =
    let base : Bytes = namespace ++ text "/storage/volume-pools/" in
    if is_nil pool_id then base else base ++ escape pool_id

-- `VolumeDrainOperation`
unfoldable pub volume_drain_operation : Bytes → Bytes
volume_drain_operation operation_id =
    let base : Bytes = namespace ++ text "/storage/volume-drain/operations/" in
    if is_nil operation_id then base else base ++ escape operation_id

-- `MetadataMigrationOperation`
unfoldable pub metadata_migration_operation : Bytes → Bytes
metadata_migration_operation operation_id =
    let base : Bytes = namespace ++ text "/metadata/migrations/operations/" in
    if is_nil operation_id then base else base ++ escape operation_id

-- `WorkerLease`
unfoldable pub worker_lease : Bytes → Bytes → Bytes
worker_lease worker_kind shard_id =
    let base : Bytes = namespace ++ text "/workers/leases/" in
    if is_nil worker_kind
    then base
    else let kind : Bytes = base ++ (escape worker_kind ++ text "/") in
      if is_nil shard_id then kind else kind ++ escape shard_id

-- `WorkerOperation`
unfoldable pub worker_operation : Bytes → Bytes
worker_operation operation_id = namespace ++ (text "/workers/operations/" ++ escape operation_id)

-- `WorkerControl`
unfoldable pub worker_control : Bytes → Bytes → Bytes
worker_control worker_kind shard_id =
    let base : Bytes = namespace ++ text "/workers/control/" in
    if is_nil worker_kind
    then base
    else let kind : Bytes = base ++ (escape worker_kind ++ text "/") in
      if is_nil shard_id then kind else kind ++ escape shard_id

-- `AuditEvent`
unfoldable pub audit_event : Bytes → Bytes
audit_event event_id = namespace ++ (text "/audit/events/" ++ escape event_id)

-- `AuditHead`
abbrev pub audit_head : Bytes
audit_head = namespace ++ text "/audit/head"

-- `ProtectedRefByVersion`
unfoldable pub protected_ref_by_version : Bytes → Bytes → Bytes → Bytes → Bytes
protected_ref_by_version bucket_id key version_id ref_id =
    namespace
    ++ (text "/buckets/"
        ++ (escape bucket_id
            ++ (text "/protected-refs/by-version/"
                ++ (escape key
                    ++ (text "/" ++ (escape version_id ++ (text "/" ++ escape ref_id)))))))

-- `ProtectedRefBySegment`
unfoldable pub protected_ref_by_segment : Bytes → Bytes → Bytes
protected_ref_by_segment segment_id ref_id =
    namespace
    ++ (text "/protected-refs/by-segment/" ++ (escape segment_id ++ (text "/" ++ escape ref_id)))

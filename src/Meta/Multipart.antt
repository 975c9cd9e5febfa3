-- ===== src/Meta/Multipart.antt =====
-- Multipart uploads: the methods of internal/meta/memory/repository.go from `CreateMultipartUpload`
-- to `partKeysForCleanupLocked`, `ApplyMultipartPartSummary` of internal/meta/multipart_summary.go and
-- the limits of internal/meta/scale.go. `AbortMultipartUpload` and `ListMultipartParts` share
-- `listPartsLocked`.
pub mod Parts
pub mod Completion
pub mod Lifecycle
pub mod Step
pub mod Ends
pub mod Calls
pub mod Outcome
mod Weight
pub mod Summing
pub mod Counting
mod Scenarios
use namros.Base.{
  ℕ, suc, ◌+◌, String, Bool, true, false, not, ◌&&◌, ◌||◌, Option, none, some, List, [], ◌∷◌,
  nat_beq, ltb, leb, is_empty, string_equality, ◌==◌, length, take, if◌then◌else◌,
}
use namros.Base.Maps.{Map, get, put, delete}
use namros.Base.Int64.{add64, sub64, is_positive, signed_ltb, minus_one}
use namros.Base.Exec.{
  Result, ok, err, Exec, pure, lift, gets, modify, guard, fail, ◌>>=◌, ◌>>◌, invalid_argument,
  not_found, cas_conflict,
}
use namros.Meta.Model.Segment.{Time, SegmentRef, StorageClassSnapshot}
use namros.Meta.Model.Lock.{ObjectLockRetention, LegalHold, ServerSideEncryption}
use namros.Meta.Model.Object.{Bucket}
use namros.Meta.Model.Multipart.{
  MultipartUpload, MultipartUploadState, MultipartPartsCleanupState, MultipartPart,
  MultipartCompletionRecord, MultipartCompletionState,
}
use namros.Meta.ObjectLock.{validate_object_lock_state}
use namros.Meta.Repository.{
  Repository, Env, UploadKey, PartKey, upload_key_eq, part_key_eq, read_clock, draw_id,
  id_collision_retry_limit,
}
use namros.Meta.Quota.{
  check_tenant_active_upload_quota, count_active_upload, count_active_upload_for_bucket,
}

-- `MaxMultipartParts`
abbrev pub max_multipart_parts : ℕ
max_multipart_parts = 10000

-- `NormalizeMultipartCleanupLimit`, with its default of 256 and its maximum of 1000
unfoldable pub normalize_multipart_cleanup_limit : ℕ → ℕ
normalize_multipart_cleanup_limit limit =
    if not (is_positive limit) then 256 else if ltb 1000 limit then 1000 else limit

-- `1 <= n && n <= MaxMultipartParts`: part numbers, and part counts in
-- `ValidateCompletedMultipartPartCount`
unfoldable pub is_part_number : ℕ → Bool
is_part_number n = is_positive n && leb n max_multipart_parts

pub record CreateMultipartUploadRequest : Type 0 where
  pub bucket_id : String
  pub key : String
  pub content_type : String
  pub storage_class : StorageClassSnapshot
  pub server_side_encryption : ServerSideEncryption
  pub user_metadata : Map String String
  pub tags : Map String String
  pub object_lock_retention : ObjectLockRetention
  pub object_lock_legal_hold : LegalHold

pub record PutMultipartPartRequest : Type 0 where
  pub upload : UploadKey
  pub part_number : ℕ
  pub size_bytes : ℕ
  pub etag : String
  pub segment_ref : SegmentRef

pub record PrepareMultipartCompletionRequest : Type 0 where
  pub upload : UploadKey
  pub object_version_id : String
  pub expected_head_version_id : String
  pub etag : String
  pub size_bytes : ℕ
  pub part_count : ℕ

pub record CompleteMultipartUploadRequest : Type 0 where
  pub upload : UploadKey
  pub object_version_id : String
  pub etag : String
  pub size_bytes : ℕ
  pub part_count : ℕ

pub record CleanupMultipartUploadPartsResult : Type 0 where
  pub upload : MultipartUpload
  pub deleted_parts : ℕ
  pub has_more : Bool

abbrev pub found {ℓ} : {A : Type ℓ} → Option A → Result A
found none = err not_found
found (some a) = ok a

-- `multipartUploadIDExistsLocked`
pub upload_id_in : String → String → Map UploadKey MultipartUpload → Bool
upload_id_in bucket_id upload_id [] = false
upload_id_in bucket_id upload_id ((k, u) ∷ uploads) =
    (k.bucket_id == bucket_id && k.upload_id == upload_id)
    || upload_id_in bucket_id upload_id uploads

unfoldable pub multipart_upload_id_exists : String → Repository → String → Bool
unfolding upload_id_in
multipart_upload_id_exists bucket_id r upload_id = upload_id_in bucket_id upload_id r.uploads

-- the upload that `CreateMultipartUpload` stores
unfoldable pub new_upload : CreateMultipartUploadRequest → String → Time → MultipartUpload
new_upload req upload_id now = record {
  upload_id = upload_id;
  bucket_id = req.bucket_id;
  key = req.key;
  content_type = req.content_type;
  storage_class = req.storage_class;
  server_side_encryption = req.server_side_encryption;
  user_metadata = req.user_metadata;
  tags = req.tags;
  object_lock_retention = req.object_lock_retention;
  object_lock_legal_hold = req.object_lock_legal_hold;
  state = MultipartUploadState.active;
  part_count = 0;
  total_part_size_bytes = 0;
  max_part_number = 0;
  parts_updated_at = 0;
  completed_version_id = "";
  completed_etag = "";
  completed_size_bytes = 0;
  completed_part_count = 0;
  completed_at = 0;
  parts_cleanup_state = MultipartPartsCleanupState.unset;
  parts_cleanup_deleted = 0;
  parts_cleanup_updated_at = 0;
  created_at = now;
  updated_at = now;
}

abbrev pub store_upload : UploadKey → MultipartUpload → Repository → Repository
store_upload k upload r = record r { uploads = put k upload r.uploads }

-- `CreateMultipartUpload`
unfoldable pub create_multipart_upload :
    Env → CreateMultipartUploadRequest → Exec Repository MultipartUpload
create_multipart_upload env req = do
  guard (not (is_empty req.bucket_id || is_empty req.key)) invalid_argument
  lift (validate_object_lock_state req.object_lock_retention req.object_lock_legal_hold)
  there ← gets (λ r. get req.bucket_id r.buckets_by_id)
  bucket ← lift (found there)
  room ← gets (check_tenant_active_upload_quota bucket.tenant_id)
  lift room
  now ← read_clock env
  upload_id ← draw_id env (multipart_upload_id_exists req.bucket_id) id_collision_retry_limit
  let upload = new_upload req upload_id now
  let k : UploadKey = record { bucket_id = req.bucket_id; key = req.key; upload_id = upload_id }
  modify (store_upload k upload)
  modify (count_active_upload env bucket.tenant_id 1 now)
  pure upload

-- `getUploadLocked`
unfoldable pub get_upload : UploadKey → Repository → Result MultipartUpload
get_upload k r =
    if is_empty k.bucket_id || (is_empty k.key || is_empty k.upload_id)
    then err invalid_argument
    else found (get k r.uploads)

-- `getActiveUploadLocked`
abbrev pub only_active : MultipartUpload → MultipartUploadState → Result MultipartUpload
only_active upload MultipartUploadState.active = ok upload
only_active upload _ = err not_found

abbrev pub if_active : Result MultipartUpload → Result MultipartUpload
if_active (err e) = err e
if_active (ok upload) = only_active upload upload.state

unfoldable pub get_active_upload : UploadKey → Repository → Result MultipartUpload
unfolding get_upload
get_active_upload k r = if_active (get_upload k r)

abbrev pub size_of : Option MultipartPart → ℕ
size_of none = 0
size_of (some part) = part.size_bytes

-- `ApplyMultipartPartSummary`
unfoldable pub apply_multipart_part_summary :
    MultipartUpload → MultipartPart → Option MultipartPart → Time → MultipartUpload
apply_multipart_part_summary upload part previous now = record upload {
  part_count = elim previous [ none ↦ add64 upload.part_count 1 | some old ↦ upload.part_count ];
  total_part_size_bytes = elim previous [
    | none ↦ add64 upload.total_part_size_bytes part.size_bytes
    | some old ↦ add64 upload.total_part_size_bytes (sub64 part.size_bytes old.size_bytes)
  ];
  max_part_number =
      if signed_ltb upload.max_part_number part.part_number
      then part.part_number
      else upload.max_part_number;
  parts_updated_at = now;
  updated_at = now;
}

-- ===== src/Meta/Multipart/Lifecycle.antt =====
-- The end of a multipart upload: `CompleteMultipartUpload`, `AbortMultipartUpload`
-- and `CleanupMultipartUploadParts` (internal/meta/memory/repository.go).
use namros.Base.{
  ℕ, ◌+◌, Bool, true, false, not, ◌||◌, List, [], ◌∷◌, ltb, is_empty, string_equality, length, take,
  if◌then◌else◌,
}
use namros.Base.Maps.{Map, delete}
use namros.Base.Int64.{add64, minus_one}
use namros.Base.Exec.{
  Exec, pure, fail, lift, gets, modify, guard, ◌>>=◌, ◌>>◌, invalid_argument, not_found,
}
use namros.Meta.Model.Segment.{Time}
use namros.Meta.Model.Multipart.{
  MultipartUpload, MultipartUploadState, MultipartPartsCleanupState, MultipartPart,
}
use namros.Meta.Repository.{
  Repository, Env, UploadKey, PartKey, upload_key_eq, part_key_eq, read_clock,
}
use namros.Meta.Quota.{count_active_upload_for_bucket}
use namros.Meta.Multipart.{
  CompleteMultipartUploadRequest, CleanupMultipartUploadPartsResult, is_part_number,
  normalize_multipart_cleanup_limit, get_upload, store_upload,
}
use namros.Meta.Multipart.Parts.{list_parts, part_keys_for_cleanup}

-- the upload that `CompleteMultipartUpload` writes back
unfoldable pub completed_upload :
    MultipartUpload → CompleteMultipartUploadRequest → Time → MultipartUpload
completed_upload upload req now = record upload {
  state = MultipartUploadState.completed;
  completed_version_id = req.object_version_id;
  completed_etag = req.etag;
  completed_size_bytes = req.size_bytes;
  completed_part_count = req.part_count;
  completed_at = now;
  parts_cleanup_state = MultipartPartsCleanupState.pending;
  parts_cleanup_deleted = 0;
  parts_cleanup_updated_at = now;
  updated_at = now;
}

-- the `switch` on the state in `CompleteMultipartUpload`
abbrev pub complete_in :
    Env
    → CompleteMultipartUploadRequest
    → MultipartUpload
    → MultipartUploadState
    → Exec Repository MultipartUpload
complete_in env req upload MultipartUploadState.completed = pure upload
complete_in env req upload MultipartUploadState.active = do
  guard (is_part_number req.part_count) invalid_argument
  now ← read_clock env
  modify (store_upload req.upload (completed_upload upload req now))
  modify (count_active_upload_for_bucket env req.upload.bucket_id minus_one now)
  pure (completed_upload upload req now)
complete_in env req upload _ = fail not_found

-- `CompleteMultipartUpload`
unfoldable pub complete_multipart_upload :
    Env → CompleteMultipartUploadRequest → Exec Repository MultipartUpload
complete_multipart_upload env req = do
  guard (not (is_empty req.object_version_id || is_empty req.etag)) invalid_argument
  there ← gets (get_upload req.upload)
  upload ← lift there
  complete_in env req upload upload.state

-- the upload that `AbortMultipartUpload` writes back
unfoldable pub aborted_upload : MultipartUpload → Time → MultipartUpload
aborted_upload upload now = record upload {
  state = MultipartUploadState.aborted;
  parts_cleanup_state = MultipartPartsCleanupState.pending;
  parts_cleanup_deleted = 0;
  parts_cleanup_updated_at = now;
  updated_at = now;
}

-- the `switch` on the state in `AbortMultipartUpload`
abbrev pub abort_in :
    Env → UploadKey → MultipartUpload → MultipartUploadState → Exec Repository (List MultipartPart)
abort_in env k upload MultipartUploadState.aborted = gets (list_parts k)
abort_in env k upload MultipartUploadState.active = do
  parts ← gets (list_parts k)
  now ← read_clock env
  modify (store_upload k (aborted_upload upload now))
  modify (count_active_upload_for_bucket env k.bucket_id minus_one now)
  pure parts
abort_in env k upload _ = fail not_found

-- `AbortMultipartUpload`
unfoldable pub abort_multipart_upload : Env → UploadKey → Exec Repository (List MultipartPart)
abort_multipart_upload env k = do
  there ← gets (get_upload k)
  upload ← lift there
  abort_in env k upload upload.state

abbrev pub cleanup_state : Bool → MultipartPartsCleanupState
cleanup_state true = MultipartPartsCleanupState.pending
cleanup_state false = MultipartPartsCleanupState.done

-- the upload that `CleanupMultipartUploadParts` writes back
unfoldable pub cleaned_upload : MultipartUpload → ℕ → Bool → Time → MultipartUpload
cleaned_upload upload deleted has_more now = record upload {
  parts_cleanup_state = cleanup_state has_more;
  parts_cleanup_deleted = add64 upload.parts_cleanup_deleted deleted;
  parts_cleanup_updated_at = now;
  updated_at = now;
}

unfoldable pub delete_parts : List PartKey → Map PartKey MultipartPart → Map PartKey MultipartPart
delete_parts [] parts = parts
delete_parts (k ∷ keys) parts = delete_parts keys (delete k parts)

-- the part of `CleanupMultipartUploadParts` after the `switch` on the state
abbrev pub cleanup_ended :
    Env → UploadKey → ℕ → MultipartUpload → Exec Repository CleanupMultipartUploadPartsResult
cleanup_ended env k requested upload = do
  let limit = normalize_multipart_cleanup_limit requested
  keys ← gets (part_keys_for_cleanup k (limit + 1))
  let has_more = ltb limit (length keys)
  let doomed = if has_more then take limit keys else keys
  modify (λ r. record r { parts = delete_parts doomed r.parts })
  now ← read_clock env
  modify (store_upload k (cleaned_upload upload (length doomed) has_more now))
  pure (record {
    upload = cleaned_upload upload (length doomed) has_more now;
    deleted_parts = length doomed;
    has_more = has_more;
  })

abbrev pub cleanup_in :
    Env
    → UploadKey
    → ℕ
    → MultipartUpload
    → MultipartUploadState
    → Exec Repository CleanupMultipartUploadPartsResult
cleanup_in env k requested upload MultipartUploadState.active = fail invalid_argument
cleanup_in env k requested upload (MultipartUploadState.other s) = fail not_found
cleanup_in env k requested upload _ = cleanup_ended env k requested upload

-- `CleanupMultipartUploadParts`
unfoldable pub cleanup_multipart_upload_parts :
    Env → UploadKey → ℕ → Exec Repository CleanupMultipartUploadPartsResult
cleanup_multipart_upload_parts env k requested = do
  there ← gets (get_upload k)
  upload ← lift there
  cleanup_in env k requested upload upload.state

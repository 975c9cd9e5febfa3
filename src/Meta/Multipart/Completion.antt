-- ===== src/Meta/Multipart/Completion.antt =====
-- Completion records of multipart uploads: `PrepareMultipartCompletion` and the transitions of
-- `MarkMultipartCompletionPublished` and `MarkMultipartCompletionCompleted`
-- (internal/meta/memory/repository.go).
use namros.Base.{
  ℕ, Bool, not, ◌&&◌, ◌||◌, Option, none, some, nat_beq, leb, is_empty, string_equality, ◌==◌,
  if◌then◌else◌,
}
use namros.Base.Maps.{get, put}
use namros.Base.Int64.{is_positive}
use namros.Base.Exec.{
  Exec, pure, fail, lift, gets, modify, guard, ◌>>=◌, ◌>>◌, invalid_argument, cas_conflict,
}
use namros.Meta.Model.Segment.{Time}
use namros.Meta.Model.Multipart.{MultipartCompletionRecord, MultipartCompletionState}
use namros.Meta.Repository.{Repository, Env, UploadKey, upload_key_eq, part_key_eq, read_clock}
use namros.Meta.Multipart.{PrepareMultipartCompletionRequest, get_upload, only_active, found}

-- `multipartCompletionMatches`; the record is read at the key of the request
unfoldable pub multipart_completion_matches :
    MultipartCompletionRecord → PrepareMultipartCompletionRequest → Bool
multipart_completion_matches record' req =
    record'.bucket_id == req.upload.bucket_id
    && (record'.key == req.upload.key
        && (record'.upload_id == req.upload.upload_id
            && (record'.object_version_id == req.object_version_id
                && (record'.expected_head_version_id == req.expected_head_version_id
                    && (record'.etag == req.etag
                        && (nat_beq record'.size_bytes req.size_bytes
                            && nat_beq record'.part_count req.part_count))))))

unfoldable pub new_completion : PrepareMultipartCompletionRequest → Time → MultipartCompletionRecord
new_completion req now = record {
  bucket_id = req.upload.bucket_id;
  key = req.upload.key;
  upload_id = req.upload.upload_id;
  object_version_id = req.object_version_id;
  expected_head_version_id = req.expected_head_version_id;
  etag = req.etag;
  size_bytes = req.size_bytes;
  part_count = req.part_count;
  state = MultipartCompletionState.prepared;
  created_at = now;
  updated_at = now;
}

abbrev pub store_completion : UploadKey → MultipartCompletionRecord → Repository → Repository
store_completion k record' r = record r { completions = put k record' r.completions }

-- `PrepareMultipartCompletion` where no record is there yet
abbrev pub prepare_first :
    Env → PrepareMultipartCompletionRequest → Exec Repository MultipartCompletionRecord
prepare_first env req = do
  there ← gets (get_upload req.upload)
  upload ← lift there
  lift (only_active upload upload.state)
  now ← read_clock env
  modify (store_completion req.upload (new_completion req now))
  pure (new_completion req now)

abbrev pub prepare_found :
    Env
    → PrepareMultipartCompletionRequest
    → Option MultipartCompletionRecord
    → Exec Repository MultipartCompletionRecord
prepare_found env req none = prepare_first env req
prepare_found env req (some existing) =
    if multipart_completion_matches existing req then pure existing else fail cas_conflict

-- `PrepareMultipartCompletion`
unfoldable pub prepare_multipart_completion :
    Env → PrepareMultipartCompletionRequest → Exec Repository MultipartCompletionRecord
prepare_multipart_completion env req = do
  guard
      (not (
          is_empty req.upload.bucket_id
          || (is_empty req.upload.key
              || (is_empty req.upload.upload_id
                  || (is_empty req.object_version_id || is_empty req.etag))))
        && is_positive req.part_count)
      invalid_argument
  existing ← gets (λ r. get req.upload r.completions)
  prepare_found env req existing

-- `multipartCompletionStateRank`
unfoldable pub multipart_completion_state_rank : MultipartCompletionState → ℕ
multipart_completion_state_rank MultipartCompletionState.completed = 3
multipart_completion_state_rank MultipartCompletionState.published = 2
multipart_completion_state_rank MultipartCompletionState.prepared = 1
multipart_completion_state_rank (MultipartCompletionState.other s) = 0

-- `multipartCompletionStateAtLeast`
unfoldable pub multipart_completion_state_at_least :
    MultipartCompletionState → MultipartCompletionState → Bool
unfolding multipart_completion_state_rank
multipart_completion_state_at_least state target =
    leb (multipart_completion_state_rank target) (multipart_completion_state_rank state)

abbrev pub mark_found :
    Env
    → UploadKey
    → MultipartCompletionState
    → MultipartCompletionRecord
    → Exec Repository MultipartCompletionRecord
mark_found env k state existing =
    if multipart_completion_state_at_least existing.state state then pure existing else do
      now ← read_clock env
      modify (store_completion k (record existing { state = state; updated_at = now }))
      pure (record existing { state = state; updated_at = now })

-- `markMultipartCompletionState`, which `MarkMultipartCompletionPublished` and
-- `MarkMultipartCompletionCompleted` call with their state
unfoldable pub mark_multipart_completion_state :
    Env → UploadKey → MultipartCompletionState → Exec Repository MultipartCompletionRecord
mark_multipart_completion_state env k state = do
  there ← gets (λ r. get k r.completions)
  existing ← lift (found there)
  mark_found env k state existing

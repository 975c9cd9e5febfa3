-- ===== src/Meta/Multipart/Step.antt =====
-- The changes that a call of a multipart method can make to the uploads, the parts and the completion
-- records, as a step relation (internal/meta/memory/repository.go).
use namros.Base.{
  ℕ, ◌+◌, String, ◌≡◌, ◌≢◌, Bool, false, none, some, List, [], ◌∷◌, string_equality, ltb,
  if◌then◌else◌, length, take,
}
use namros.Base.Maps.{get, put}
use namros.Meta.Model.Segment.{Time}
use namros.Meta.Model.Multipart.{
  MultipartUpload, MultipartUploadState, MultipartCompletionRecord, MultipartCompletionState,
}
use namros.Meta.Repository.{Repository, Env, UploadKey, upload_key_eq, part_key_eq}
use namros.Meta.Multipart.{
  CreateMultipartUploadRequest, PutMultipartPartRequest, PrepareMultipartCompletionRequest,
  CompleteMultipartUploadRequest, new_upload, create_multipart_upload, apply_multipart_part_summary,
}
use namros.Meta.Multipart.Parts.{part_key, new_part, put_multipart_part, part_keys_for_cleanup}
use namros.Meta.Multipart.Completion.{
  new_completion, prepare_multipart_completion, mark_multipart_completion_state,
  multipart_completion_state_at_least,
}
use namros.Meta.Multipart.Lifecycle.{
  completed_upload, aborted_upload, cleaned_upload, delete_parts, complete_multipart_upload,
  abort_multipart_upload, cleanup_multipart_upload_parts,
}

pub data MultipartCall : Type 0 where
  create : CreateMultipartUploadRequest → MultipartCall
  put_part : PutMultipartPartRequest → MultipartCall
  prepare : PrepareMultipartCompletionRequest → MultipartCall
  mark : UploadKey → MultipartCompletionState → MultipartCall
  complete : CompleteMultipartUploadRequest → MultipartCall
  abort : UploadKey → MultipartCall
  cleanup : UploadKey → ℕ → MultipartCall

-- The state that a call leaves, whatever it returns.
unfoldable pub apply_call : Env → MultipartCall → Repository → Repository
apply_call env (create req) r = (create_multipart_upload env req r).1
apply_call env (put_part req) r = (put_multipart_part env req r).1
apply_call env (prepare req) r = (prepare_multipart_completion env req r).1
apply_call env (mark k state) r = (mark_multipart_completion_state env k state r).1
apply_call env (complete req) r = (complete_multipart_upload env req r).1
apply_call env (abort k) r = (abort_multipart_upload env k r).1
apply_call env (cleanup k limit) r = (cleanup_multipart_upload_parts env k limit r).1

unfoldable pub apply_calls : Env → List MultipartCall → Repository → Repository
apply_calls env [] r = r
apply_calls env (call ∷ calls) r = apply_calls env calls (apply_call env call r)

-- From the first repository to the second, as far as uploads, parts and completions go.
pub data Step (r r' : Repository) : Type 0 where
  idle : r'.uploads ≡ r.uploads → r'.parts ≡ r.parts → r'.completions ≡ r.completions → Step r r'
  opened :
      (req : CreateMultipartUploadRequest) (upload_id : String) (now : Time) (k : UploadKey)
      → get k r.uploads ≡ none
      → r'.uploads ≡ put k (new_upload req upload_id now) r.uploads
      → r'.parts ≡ r.parts
      → r'.completions ≡ r.completions
      → Step r r'
  stored :
      (req : PutMultipartPartRequest) (upload : MultipartUpload) (now : Time)
      → get req.upload r.uploads ≡ some upload
      → upload.state ≡ MultipartUploadState.active
      → (let previous = get (part_key req) r.parts in
          let part = new_part req previous now in
          (r'.uploads
            ≡ put req.upload (apply_multipart_part_summary upload part previous now) r.uploads)
          × (r'.parts ≡ put (part_key req) part r.parts))
      → r'.completions ≡ r.completions
      → Step r r'
  completed :
      (req : CompleteMultipartUploadRequest) (upload : MultipartUpload) (now : Time)
      → get req.upload r.uploads ≡ some upload
      → upload.state ≡ MultipartUploadState.active
      → r'.uploads ≡ put req.upload (completed_upload upload req now) r.uploads
      → r'.parts ≡ r.parts
      → r'.completions ≡ r.completions
      → Step r r'
  aborted :
      (k : UploadKey) (upload : MultipartUpload) (now : Time)
      → get k r.uploads ≡ some upload
      → upload.state ≡ MultipartUploadState.active
      → r'.uploads ≡ put k (aborted_upload upload now) r.uploads
      → r'.parts ≡ r.parts
      → r'.completions ≡ r.completions
      → Step r r'
  cleaned :
      (k : UploadKey) (upload : MultipartUpload) (limit n : ℕ) (has_more : Bool) (now : Time)
      → get k r.uploads ≡ some upload
      → upload.state ≢ MultipartUploadState.active
      → r'.uploads ≡ put k (cleaned_upload upload n has_more now) r.uploads
      → r'.parts
        ≡ delete_parts
            (let keys = part_keys_for_cleanup k (limit + 1) r in
              if ltb limit (length keys) then take limit keys else keys)
            r.parts
      → r'.completions ≡ r.completions
      → Step r r'
  prepared :
      (req : PrepareMultipartCompletionRequest) (now : Time)
      → get req.upload r.completions ≡ none
      → r'.uploads ≡ r.uploads
      → r'.parts ≡ r.parts
      → r'.completions ≡ put req.upload (new_completion req now) r.completions
      → Step r r'
  advanced :
      (k : UploadKey) (old : MultipartCompletionRecord) (state : MultipartCompletionState)
      (now : Time)
      → get k r.completions ≡ some old
      → multipart_completion_state_at_least old.state state ≡ false
      → r'.uploads ≡ r.uploads
      → r'.parts ≡ r.parts
      → r'.completions ≡ put k (record old { state = state; updated_at = now }) r.completions
      → Step r r'

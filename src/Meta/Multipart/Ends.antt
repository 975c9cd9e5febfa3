-- ===== src/Meta/Multipart/Ends.antt =====
-- The calls that store a part or end an upload, and the step relation (internal/meta/memory/repository.go).
use namros.Base.{
  ℕ, String, ◌≡◌, ◌≢◌, refl, inl, inr, false, none, some, [], ◌∷◌, arith, string_equality,
  Option-cases,
}
use namros.Base.Maps.{Map, get}
use namros.Base.Exec.{
  ok, Leaves, guard_then, lift_then, gets_then, modify_then, pure_then, fail_then, gets_last,
}
use namros.Meta.Model.Segment.{Time}
use namros.Meta.Model.Multipart.{MultipartUpload, MultipartUploadState}
use namros.Meta.Repository.{Repository, Env, UploadKey, upload_key_eq, part_key_eq, read_clock_then}
use namros.Meta.Quota.{count_active_upload, count_active_upload_for_bucket}
use namros.Meta.Multipart.{
  PutMultipartPartRequest, CompleteMultipartUploadRequest, get_upload, get_active_upload,
  upload_id_in, normalize_multipart_cleanup_limit,
}
use namros.Meta.Multipart.Parts.{store_part, put_multipart_part}
use namros.Meta.Multipart.Lifecycle.{
  complete_multipart_upload, abort_multipart_upload, cleanup_multipart_upload_parts, complete_in,
  abort_in, cleanup_in, cleanup_ended,
}
use namros.Meta.Multipart.Step.{Step, idle, stored, completed, aborted, cleaned}

-- The quota count leaves the multipart tables alone.
abbrev SameTables : Repository → Repository → Type 0
SameTables r r' = (r'.uploads ≡ r.uploads) × (r'.parts ≡ r.parts) × (r'.completions ≡ r.completions)

pub count_active_upload-SameTables :
    (env : Env) (tenant_id : String) (delta : ℕ) (now : Time) (r : Repository)
    → SameTables r (count_active_upload env tenant_id delta now r)
unfolding count_active_upload
count_active_upload-SameTables env tenant_id delta now r = ground arith

count_for_bucket-SameTables :
    (env : Env) (bucket_id : String) (delta : ℕ) (now : Time) (r : Repository)
    → SameTables r (count_active_upload_for_bucket env bucket_id delta now r)
unfolding count_active_upload_for_bucket
count_for_bucket-SameTables env bucket_id delta now r =
    elim (Option-cases (get bucket_id r.buckets_by_id)) [
      | inl gone ↦ rw (gone, count_active_upload_for_bucket) (refl, refl, refl)
      | inr (bucket, there) ↦
          rw (there, count_active_upload_for_bucket)
            (count_active_upload-SameTables env bucket.tenant_id delta now r)
    ]

get_upload_ok :
    (k : UploadKey) (r : Repository) (upload : MultipartUpload)
    → get_upload k r ≡ ok upload
    → get k r.uploads ≡ some upload
unfolding get_upload
get_upload_ok k r upload h = ground arith

get_active_upload_ok :
    (k : UploadKey) (r : Repository) (upload : MultipartUpload)
    → get_active_upload k r ≡ ok upload
    → (get k r.uploads ≡ some upload) × (upload.state ≡ MultipartUploadState.active)
unfolding get_active_upload
get_active_upload_ok k r upload h = ground arith

pub upload_id_in_fresh :
    (k : UploadKey) (uploads : Map UploadKey MultipartUpload)
    → upload_id_in k.bucket_id k.upload_id uploads ≡ false
    → get k uploads ≡ none
unfolding upload_id_in get
upload_id_in_fresh k [] h = refl
upload_id_in_fresh k ((j, u) ∷ uploads) h = ground (arith, upload_id_in_fresh k uploads)

pub put_multipart_part-Step :
    (env : Env) (req : PutMultipartPartRequest) (r : Repository)
    → Leaves (Step r) (put_multipart_part env req) r
unfolding put_multipart_part store_part
put_multipart_part-Step env req r = guard_then _ (idle refl refl refl) λ _. gets_then _ _ (
    lift_then (idle refl refl refl) λ upload h. gets_then _ _ (
      read_clock_then env _ (
        modify_then _ (
          pure_then _ (
            let (there, active) = get_active_upload_ok req.upload r upload h in
            stored req upload (env.now r.clock_reads) there active (refl, refl) refl)))))

complete_in-Step :
    (env : Env) (req : CompleteMultipartUploadRequest) (upload : MultipartUpload)
    (state : MultipartUploadState) (r : Repository)
    → get req.upload r.uploads ≡ some upload
    → upload.state ≡ state
    → Leaves (Step r) (complete_in env req upload state) r
complete_in-Step env req upload MultipartUploadState.active r there active =
    guard_then _ (idle refl refl refl) λ _. read_clock_then env _ (
      modify_then _ (
        modify_then _ (
          pure_then _ (
            let same =
              count_for_bucket-SameTables env req.upload.bucket_id _ (env.now r.clock_reads) _ in
            completed req upload (env.now r.clock_reads) there active same.0 same.1 same.2))))
complete_in-Step env req upload MultipartUploadState.completed r there active =
    pure_then _ (idle refl refl refl)
complete_in-Step env req upload _ r there active = fail_then _ (idle refl refl refl)

pub complete_multipart_upload-Step :
    (env : Env) (req : CompleteMultipartUploadRequest) (r : Repository)
    → Leaves (Step r) (complete_multipart_upload env req) r
unfolding complete_multipart_upload
complete_multipart_upload-Step env req r = guard_then _ (idle refl refl refl) λ _. gets_then _ _ (
    lift_then (idle refl refl refl) λ upload h.
      complete_in-Step env req upload upload.state r (get_upload_ok req.upload r upload h) refl)

abort_in-Step :
    (env : Env) (k : UploadKey) (upload : MultipartUpload) (state : MultipartUploadState)
    (r : Repository)
    → get k r.uploads ≡ some upload
    → upload.state ≡ state
    → Leaves (Step r) (abort_in env k upload state) r
abort_in-Step env k upload MultipartUploadState.active r there active = gets_then _ _ (
    read_clock_then env _ (
      modify_then _ (
        modify_then _ (
          pure_then _ (
            let same = count_for_bucket-SameTables env k.bucket_id _ (env.now r.clock_reads) _ in
            aborted k upload (env.now r.clock_reads) there active same.0 same.1 same.2)))))
abort_in-Step env k upload MultipartUploadState.aborted r there active =
    gets_last _ (idle refl refl refl)
abort_in-Step env k upload _ r there active = fail_then _ (idle refl refl refl)

pub abort_multipart_upload-Step :
    (env : Env) (k : UploadKey) (r : Repository) → Leaves (Step r) (abort_multipart_upload env k) r
unfolding abort_multipart_upload
abort_multipart_upload-Step env k r = gets_then _ _ (
    lift_then (idle refl refl refl)
      λ upload h. abort_in-Step env k upload upload.state r (get_upload_ok k r upload h) refl)

cleanup_ended-Step :
    (env : Env) (k : UploadKey) (requested : ℕ) (upload : MultipartUpload) (r : Repository)
    → get k r.uploads ≡ some upload
    → upload.state ≢ MultipartUploadState.active
    → Leaves (Step r) (cleanup_ended env k requested upload) r
cleanup_ended-Step env k requested upload r there ended = gets_then _ _ (
    modify_then _ (
      read_clock_then env _ (
        modify_then _ (
          pure_then _ (
            cleaned k upload (normalize_multipart_cleanup_limit requested) _ _
              (env.now r.clock_reads) there ended refl refl refl)))))

cleanup_in-Step :
    (env : Env) (k : UploadKey) (requested : ℕ) (upload : MultipartUpload)
    (state : MultipartUploadState) (r : Repository)
    → get k r.uploads ≡ some upload
    → upload.state ≡ state
    → Leaves (Step r) (cleanup_in env k requested upload state) r
cleanup_in-Step env k requested upload MultipartUploadState.active r there is =
    fail_then _ (idle refl refl refl)
cleanup_in-Step env k requested upload (MultipartUploadState.other s) r there is =
    fail_then _ (idle refl refl refl)
cleanup_in-Step env k requested upload _ r there is =
    cleanup_ended-Step env k requested upload r there (λ p. cc (p, is))

pub cleanup_multipart_upload_parts-Step :
    (env : Env) (k : UploadKey) (requested : ℕ) (r : Repository)
    → Leaves (Step r) (cleanup_multipart_upload_parts env k requested) r
unfolding cleanup_multipart_upload_parts
cleanup_multipart_upload_parts-Step env k requested r = gets_then _ _ (
    lift_then (idle refl refl refl) λ upload h.
      cleanup_in-Step env k requested upload upload.state r (get_upload_ok k r upload h) refl)

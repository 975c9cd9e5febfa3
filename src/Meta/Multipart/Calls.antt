-- ===== src/Meta/Multipart/Calls.antt =====
-- The multipart methods and the step relation (internal/meta/memory/repository.go).
use namros.Base.{◌≡◌, refl, inl, inr, Option, none, some, arith, string_equality, Bool-cases}
use namros.Base.Maps.{get}
use namros.Base.Exec.{
  ok, Leaves, guard_then, lift_then, lift_then_, gets_then, modify_then, pure_then, fail_then,
}
use namros.Meta.Model.Multipart.{MultipartCompletionRecord, MultipartCompletionState}
use namros.Meta.Repository.{
  Repository, Env, UploadKey, upload_key_eq, part_key_eq, read_clock_then, draw_id_then,
}
use namros.Meta.Multipart.{
  CreateMultipartUploadRequest, PrepareMultipartCompletionRequest, found,
  multipart_upload_id_exists, create_multipart_upload,
}
use namros.Meta.Multipart.Completion.{
  prepare_multipart_completion, mark_multipart_completion_state,
  multipart_completion_state_at_least, prepare_found, mark_found, multipart_completion_matches,
}
use namros.Meta.Multipart.Step.{
  Step, idle, opened, prepared, advanced, MultipartCall, apply_call, create, put_part, prepare,
  mark, complete, abort, cleanup,
}
use namros.Meta.Multipart.Ends.{
  count_active_upload-SameTables, upload_id_in_fresh, put_multipart_part-Step,
  complete_multipart_upload-Step, abort_multipart_upload-Step, cleanup_multipart_upload_parts-Step,
}

found_ok {ℓ} : {A : Type ℓ} (o : Option A) (a : A) → found o ≡ ok a → o ≡ some a
found_ok o a h = ground arith

prepare_found-Step :
    (env : Env) (req : PrepareMultipartCompletionRequest)
    (existing : Option MultipartCompletionRecord) (r : Repository)
    → get req.upload r.completions ≡ existing
    → Leaves (Step r) (prepare_found env req existing) r
prepare_found-Step env req none r missing = gets_then _ _ (
    lift_then (idle refl refl refl) λ upload _. lift_then_ (idle refl refl refl) λ _ _.
      read_clock_then env _
        (modify_then _ (pure_then _ (prepared req (env.now r.clock_reads) missing refl refl refl))))
prepare_found-Step env req (some existing) r there =
    elim (Bool-cases (multipart_completion_matches existing req)) [
      | inl same ↦ rw same (pure_then _ (idle refl refl refl))
      | inr differs ↦ rw differs (fail_then _ (idle refl refl refl))
    ]

prepare_multipart_completion-Step :
    (env : Env) (req : PrepareMultipartCompletionRequest) (r : Repository)
    → Leaves (Step r) (prepare_multipart_completion env req) r
unfolding prepare_multipart_completion
prepare_multipart_completion-Step env req r =
    guard_then _ (idle refl refl refl)
      λ _. gets_then _ _ (prepare_found-Step env req (get req.upload r.completions) r refl)

mark_found-Step :
    (env : Env) (k : UploadKey) (state : MultipartCompletionState) (old : MultipartCompletionRecord)
    (r : Repository)
    → get k r.completions ≡ some old
    → Leaves (Step r) (mark_found env k state old) r
mark_found-Step env k state old r there =
    elim (Bool-cases (multipart_completion_state_at_least old.state state)) [
      | inl already ↦ rw already (pure_then _ (idle refl refl refl))
      | inr behind ↦ rw behind (
          read_clock_then env _ (
            modify_then _ (
              pure_then _
                (advanced k old state (env.now r.clock_reads) there behind refl refl refl))))
    ]

mark_multipart_completion_state-Step :
    (env : Env) (k : UploadKey) (state : MultipartCompletionState) (r : Repository)
    → Leaves (Step r) (mark_multipart_completion_state env k state) r
unfolding mark_multipart_completion_state
mark_multipart_completion_state-Step env k state r = gets_then _ _ (
    lift_then (idle refl refl refl)
      λ old h. mark_found-Step env k state old r (found_ok (get k r.completions) old h))

create_multipart_upload-Step :
    (env : Env) (req : CreateMultipartUploadRequest) (r : Repository)
    → Leaves (Step r) (create_multipart_upload env req) r
unfolding create_multipart_upload multipart_upload_id_exists
create_multipart_upload-Step env req r = guard_then _ (idle refl refl refl) λ _.
    lift_then_ (idle refl refl refl) λ _ _. gets_then _ _ (
      lift_then (idle refl refl refl) λ bucket _. gets_then _ _ (
        lift_then_ (idle refl refl refl) λ _ _. read_clock_then env _ (
          draw_id_then env _ _ _ _ (λ d. idle refl refl refl)
            λ id d d' fresh drawn. modify_then _ (
              modify_then _ (
                pure_then _ (
                  let same =
                    count_active_upload-SameTables env bucket.tenant_id 1 (env.now r.clock_reads)
                      _ in
                  opened req id (env.now r.clock_reads)
                    (record { bucket_id = req.bucket_id; key = req.key; upload_id = id })
                    (upload_id_in_fresh _ r.uploads fresh) same.0 same.1 same.2))))))

-- Every call takes a step.
pub apply_call-Step :
    (env : Env) (call : MultipartCall) (r : Repository) → Step r (apply_call env call r)
unfolding apply_call
apply_call-Step env (create req) r = (create_multipart_upload-Step env req r).holds
apply_call-Step env (put_part req) r = (put_multipart_part-Step env req r).holds
apply_call-Step env (prepare req) r = (prepare_multipart_completion-Step env req r).holds
apply_call-Step env (mark k state) r = (mark_multipart_completion_state-Step env k state r).holds
apply_call-Step env (complete req) r = (complete_multipart_upload-Step env req r).holds
apply_call-Step env (abort k) r = (abort_multipart_upload-Step env k r).holds
apply_call-Step env (cleanup k limit) r = (cleanup_multipart_upload_parts-Step env k limit r).holds

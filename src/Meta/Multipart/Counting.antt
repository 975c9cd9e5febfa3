-- ===== src/Meta/Multipart/Counting.antt =====
-- The summary kept in an active upload, and the parts that are stored for it
-- (internal/meta/memory/repository.go).
use namros.Base.{
  ℕ, String, ◌+◌, ◌≡◌, ◌≢◌, refl, ap, ◌∙◌, inl, inr, none, some, List, [], ◌∷◌, arith, Bool-cases,
  ne_of_beq, if◌then◌else◌, ltb, length, take,
}
use namros.Base.Maps.{get, put, get-put_ne, put-Unique}
use namros.Meta.Model.Multipart.{MultipartUpload, MultipartUploadState, MultipartPart}
use namros.Meta.Model.Segment.{Time}
use namros.Meta.Repository.{Repository, Env, UploadKey, PartKey, upload_key_eq, part_key_eq}
use namros.Meta.Multipart.{
  CreateMultipartUploadRequest, PutMultipartPartRequest, new_upload, apply_multipart_part_summary,
}
use namros.Meta.Multipart.Parts.{part_key, new_part, part_keys_for_cleanup}
use namros.Meta.Multipart.Lifecycle.{completed_upload, aborted_upload, cleaned_upload, delete_parts}
use namros.Meta.Multipart.Step.{
  Step, idle, opened, stored, completed, aborted, cleaned, prepared, advanced, MultipartCall,
  apply_call, apply_calls,
}
use namros.Meta.Multipart.Calls.{apply_call-Step}
use namros.Meta.Multipart.Weight.{
  weight, weight-put, weight-put_ne, weight_absent, Own, take-Own, part_keys_for_cleanup-Own,
  delete_parts-Unique, delete_parts_absent, weight-delete_parts_ne,
}
use namros.Meta.Multipart.Summing.{
  one, size, Summarises, WellCounted, WellCounted-put, share_own, summary_moves,
}

module _ (r : Repository) (w : WellCounted r.uploads r.parts) where
  opened-WellCounted :
      (req : CreateMultipartUploadRequest) (id : String) (now : Time) (k : UploadKey)
      → get k r.uploads ≡ none
      → WellCounted (put k (new_upload req id now) r.uploads) r.parts
  unfolding new_upload
  opened-WellCounted req id now k fresh =
      WellCounted-put r.uploads r.parts r.parts k (new_upload req id now) w w.unique
        (λ j n other missing. missing) (λ f j other. refl)
        λ _.
          let empty = λ (f : MultipartPart → ℕ).
            weight_absent f k r.parts w.unique (λ n. w.owned k n fresh) in
          (rw (empty one), rw (empty size))

  -- an upload that is no longer active has no summary to keep
  ended-WellCounted :
      (k : UploadKey) (new : MultipartUpload)
      → new.state ≢ MultipartUploadState.active
      → WellCounted (put k new r.uploads) r.parts
  ended-WellCounted k new ended =
      WellCounted-put r.uploads r.parts r.parts k new w w.unique (λ j n other missing. missing)
        (λ f j other. refl) (λ active. absurd (ended active))

  cleaned-WellCounted :
      (k : UploadKey) (new : MultipartUpload) (keys : List PartKey)
      → new.state ≢ MultipartUploadState.active
      → Own k keys
      → WellCounted (put k new r.uploads) (delete_parts keys r.parts)
  cleaned-WellCounted k new keys ended own =
      WellCounted-put r.uploads r.parts (delete_parts keys r.parts) k new w
        (delete_parts-Unique keys r.parts w.unique)
        (λ j n other missing.
          delete_parts_absent keys (record { upload = j; part_number = n }) r.parts missing)
        (λ f j other. weight-delete_parts_ne f k j keys r.parts w.unique own other)
        (λ active. absurd (ended active))

  stored_summary :
      (req : PutMultipartPartRequest) (upload : MultipartUpload) (now : Time)
      → Summarises r.parts req.upload upload
      → let previous = get (part_key req) r.parts in
        let part = new_part req previous now in
        Summarises
          (put (part_key req) part r.parts)
          req.upload
          (apply_multipart_part_summary upload part previous now)
  unfolding apply_multipart_part_summary new_part
  stored_summary req upload now sums =
      let previous = get (part_key req) r.parts in
      let part = new_part req previous now in
      summary_moves upload part previous now (weight one req.upload r.parts)
        (weight one req.upload (put (part_key req) part r.parts)) (weight size req.upload r.parts)
        (weight size req.upload (put (part_key req) part r.parts)) sums.0 sums.1
        (omega (
          arith,
          weight-put one req.upload (part_key req) part r.parts w.unique,
          share_own one req.upload req.part_number previous,
          share_own one req.upload req.part_number (some part),
        ))
        (omega (
          arith,
          weight-put size req.upload (part_key req) part r.parts w.unique,
          share_own size req.upload req.part_number previous,
          share_own size req.upload req.part_number (some part),
        ))

  stored-WellCounted :
      (req : PutMultipartPartRequest) (upload : MultipartUpload) (now : Time)
      → get req.upload r.uploads ≡ some upload
      → upload.state ≡ MultipartUploadState.active
      → let previous = get (part_key req) r.parts in
        let part = new_part req previous now in
        WellCounted
          (put req.upload (apply_multipart_part_summary upload part previous now) r.uploads)
          (put (part_key req) part r.parts)
  stored-WellCounted req upload now there active =
      let previous = get (part_key req) r.parts in
      let part = new_part req previous now in
      WellCounted-put r.uploads r.parts (put (part_key req) part r.parts) req.upload
        (apply_multipart_part_summary upload part previous now) w
        (put-Unique (part_key req) part r.parts w.unique)
        (λ k n other missing.
          get-put_ne (part_key req) (record { upload = k; part_number = n }) part r.parts
            (λ e. ne_of_beq req.upload k other (ap (λ (x : PartKey). x.upload) e))
          ∙ missing)
        (λ f k other. weight-put_ne f k (part_key req) part r.parts w.unique other)
        (λ _. stored_summary req upload now (w.counted req.upload upload there active))

-- What `CleanupMultipartUploadParts` deletes belongs to the upload.
doomed-Own :
    (k : UploadKey) (limit : ℕ) (r : Repository)
    → Own k (
        let keys = part_keys_for_cleanup k (limit + 1) r in
        if ltb limit (length keys) then take limit keys else keys)
doomed-Own k limit r =
    let own = part_keys_for_cleanup-Own k (limit + 1) r in
    elim (Bool-cases (ltb limit (length (part_keys_for_cleanup k (limit + 1) r)))) [
      | inl more ↦ rw more (take-Own limit k (part_keys_for_cleanup k (limit + 1) r) own)
      | inr all ↦ rw all own
    ]

-- The books are kept by every step.
Step-WellCounted :
    {r r' : Repository}
    → Step r r'
    → WellCounted r.uploads r.parts
    → WellCounted r'.uploads r'.parts
Step-WellCounted (idle up parts done) w = rw (up, parts) w
Step-WellCounted {r} (opened req id now k fresh up parts done) w =
    rw (up, parts) (opened-WellCounted r w req id now k fresh)
Step-WellCounted {r} (stored req upload now there active tables done) w =
    rw (tables.0, tables.1) (stored-WellCounted r w req upload now there active)
Step-WellCounted {r} (completed req upload now there active up parts done) w =
    rw (up, parts) (ended-WellCounted r w req.upload _ (unfold completed_upload in λ p. cc p))
Step-WellCounted {r} (aborted k upload now there active up parts done) w =
    rw (up, parts) (ended-WellCounted r w k _ (unfold aborted_upload in λ p. cc p))
Step-WellCounted {r} (cleaned k upload limit n more now there ended up parts done) w =
    rw (up, parts)
      (cleaned-WellCounted r w k _ _ (unfold cleaned_upload in ended) (doomed-Own k limit r))
Step-WellCounted (prepared req now missing up parts done) w = rw (up, parts) w
Step-WellCounted (advanced k old state now there behind up parts done) w = rw (up, parts) w

-- Any sequence of multipart calls keeps the books: part keys stay distinct, no part is left without
-- its upload, and the part count and total size stored in each active upload are those of the parts
-- stored for it, at 64 bits.
pub multipart_calls_keep_counts :
    (env : Env) (calls : List MultipartCall) (r : Repository)
    → WellCounted r.uploads r.parts
    → WellCounted (apply_calls env calls r).uploads (apply_calls env calls r).parts
unfolding apply_calls
multipart_calls_keep_counts env [] r w = w
multipart_calls_keep_counts env (call ∷ calls) r w =
    multipart_calls_keep_counts env calls (apply_call env call r)
      (Step-WellCounted (apply_call-Step env call r) w)

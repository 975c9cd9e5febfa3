-- ===== src/Meta/Multipart/Summing.antt =====
-- What an upload records of its parts, and the parts (internal/meta/multipart_summary.go).
use namros.Base.{
  ℕ, ◌+◌, ◌%◌, ◌^◌, ◌≡◌, refl, inl, inr, false, Option, none, some, arith, Bool-cases, eq_of_beq,
  beq_refl,
}
use namros.Base.Maps.{Map, get, put, Unique, get-put, get-put_self}
use namros.Meta.Model.Multipart.{MultipartUpload, MultipartUploadState, MultipartPart}
use namros.Meta.Model.Segment.{Time}
use namros.Meta.Repository.{UploadKey, PartKey, upload_key_eq, part_key_eq, upload_key_beq}
use namros.Meta.Multipart.{apply_multipart_part_summary}
use namros.Meta.Multipart.Weight.{weight, share}

abbrev pub one : MultipartPart → ℕ
one part = 1

abbrev pub size : MultipartPart → ℕ
size part = part.size_bytes

-- What the summary of an active upload says of the parts stored for it, at 64 bits.
abbrev pub Summarises : Map PartKey MultipartPart → UploadKey → MultipartUpload → Type 0
Summarises parts k upload =
    (upload.part_count ≡ weight one k parts % 2 ^ 64)
    × (upload.total_part_size_bytes ≡ weight size k parts % 2 ^ 64)

-- Part keys are distinct, every part belongs to an upload that exists, and the summary of every
-- active upload is exact.
pub record WellCounted (uploads : Map UploadKey MultipartUpload) (parts : Map PartKey MultipartPart)
    : Type 0 where
  pub unique : Unique parts
  pub owned :
      (k : UploadKey) (n : ℕ)
      → get k uploads ≡ none
      → get (record { upload = k; part_number = n }) parts ≡ none
  pub counted :
      (k : UploadKey) (upload : MultipartUpload)
      → get k uploads ≡ some upload
      → upload.state ≡ MultipartUploadState.active
      → Summarises parts k upload

-- A write to an upload that is there keeps the books if the other uploads weigh what they did and
-- the new record, if it is active, summarises its parts.
pub WellCounted-put :
    (uploads : Map UploadKey MultipartUpload) (parts parts' : Map PartKey MultipartPart)
    (j : UploadKey) (new : MultipartUpload)
    → WellCounted uploads parts
    → Unique parts'
    → ((k : UploadKey) (n : ℕ)
        → upload_key_beq j k ≡ false
        → get (record { upload = k; part_number = n }) parts ≡ none
        → get (record { upload = k; part_number = n }) parts' ≡ none)
    → ((f : MultipartPart → ℕ) (k : UploadKey)
        → upload_key_beq j k ≡ false
        → weight f k parts' ≡ weight f k parts)
    → (new.state ≡ MultipartUploadState.active → Summarises parts' j new)
    → WellCounted (put j new uploads) parts'
WellCounted-put uploads parts parts' j new w unique absent same summary = record {
  unique = unique;
  owned = λ k n missing. elim (Bool-cases (upload_key_beq j k)) [
    | inl here ↦ cc (missing, get-put_self j new uploads, eq_of_beq j k here)
    | inr elsewhere ↦ absent k n elsewhere (w.owned k n (ground (arith, get-put j k new uploads)))
  ];
  counted = λ k upload there active. elim (Bool-cases (upload_key_beq j k)) [
    | inl here ↦
        let e = eq_of_beq j k here in
        let same_upload : new ≡ upload = cc (there, get-put_self j new uploads, e) in
        rw (← e, ← same_upload) (summary (cc (active, same_upload)))
    | inr elsewhere ↦
        rw (same one k elsewhere, same size k elsewhere)
          (w.counted k upload (ground (arith, get-put j k new uploads)) active)
  ];
}

abbrev worth : (MultipartPart → ℕ) → Option MultipartPart → ℕ
worth f none = 0
worth f (some part) = f part

pub share_own :
    (f : MultipartPart → ℕ) (k : UploadKey) (n : ℕ) (o : Option MultipartPart)
    → share f k (record { upload = k; part_number = n }) o ≡ worth f o
share_own f k n none = refl
share_own f k n (some part) = rw (beq_refl k)

-- `ApplyMultipartPartSummary` moves the sums by what the new part adds and the old one took.
pub summary_moves :
    (upload : MultipartUpload) (part : MultipartPart) (previous : Option MultipartPart) (now : Time)
    (n n' s s' : ℕ)
    → upload.part_count ≡ n % 2 ^ 64
    → upload.total_part_size_bytes ≡ s % 2 ^ 64
    → n' + worth one previous ≡ n + 1
    → s' + worth size previous ≡ s + part.size_bytes
    → ((apply_multipart_part_summary upload part previous now).part_count ≡ n' % 2 ^ 64)
      × ((apply_multipart_part_summary upload part previous now).total_part_size_bytes
          ≡ s' % 2 ^ 64)
unfolding apply_multipart_part_summary
summary_moves upload part none now n n' s s' p q u v = (omega arith, omega arith)
summary_moves upload part (some old) now n n' s s' p q u v = (omega arith, omega arith)

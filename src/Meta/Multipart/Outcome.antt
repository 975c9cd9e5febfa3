-- ===== src/Meta/Multipart/Outcome.antt =====
-- Ended uploads and prepared completions, and the calls that follow (internal/meta/memory/repository.go).
use namros.Base.{
  Bool, ◌≤◌, ℕ, ◌≡◌, ◌≢◌, refl, ◌∙◌, inl, inr, false, some, List, [], ◌∷◌, arith, ◌==◌, Bool-cases,
  eq_of_beq, ne_of_beq, Equality,
}
use namros.Base.Maps.{Map, get, put, get-put_self, get-put_ne}
use namros.Meta.Model.Segment.{Time}
use namros.Meta.Model.Multipart.{
  MultipartUpload, MultipartUploadState, MultipartCompletionRecord, MultipartCompletionState,
}
use namros.Meta.Repository.{Repository, Env, UploadKey, upload_key_eq}
use namros.Meta.Multipart.Completion.{
  multipart_completion_state_rank, multipart_completion_state_at_least,
}
use namros.Meta.Multipart.Lifecycle.{cleaned_upload}
use namros.Meta.Multipart.Step.{
  Step, idle, opened, stored, completed, aborted, cleaned, prepared, advanced, MultipartCall,
  apply_call, apply_calls,
}
use namros.Meta.Multipart.Calls.{apply_call-Step}

-- A write at a key leaves what another key holds, and what the same key held is `old`.
put_where {ℓ κ ι} :
    {K : Type ℓ} {V : Type κ} ⦃e : Equality K⦄ (Q : V → Type ι) (j k : K) (new u : V) (m : Map K V)
    → get k m ≡ some u
    → Q u
    → (j ≡ k → Q new)
    → (v : V) × (get k (put j new m) ≡ some v) × Q v
put_where Q j k new u m there q written = elim (Bool-cases (j == k)) [
  | inl p ↦ let e = eq_of_beq j k p in (new, rw e (get-put_self k new m), written e)
  | inr p ↦ (u, get-put_ne j k new m (ne_of_beq j k p) ∙ there, q)
]

-- The state of an upload and the result that `CompleteMultipartUpload` recorded in it.
pub record SameOutcome (u v : MultipartUpload) : Type 0 where
  pub state : v.state ≡ u.state
  pub version : v.completed_version_id ≡ u.completed_version_id
  pub etag : v.completed_etag ≡ u.completed_etag
  pub size : v.completed_size_bytes ≡ u.completed_size_bytes
  pub part_count : v.completed_part_count ≡ u.completed_part_count
  pub at : v.completed_at ≡ u.completed_at

abbrev pub Keeps : UploadKey → MultipartUpload → Repository → Type 0
Keeps k u r = (v : MultipartUpload) × (get k r.uploads ≡ some v) × SameOutcome u v

SameOutcome-refl : (u : MultipartUpload) → SameOutcome u u
SameOutcome-refl u = record {
  state = refl;
  version = refl;
  etag = refl;
  size = refl;
  part_count = refl;
  at = refl;
}

cleaned-SameOutcome :
    (u : MultipartUpload) (n : ℕ) (more : Bool) (now : Time)
    → SameOutcome u (cleaned_upload u n more now)
unfolding cleaned_upload
cleaned-SameOutcome u n more now = record {
  state = refl;
  version = refl;
  etag = refl;
  size = refl;
  part_count = refl;
  at = refl;
}

-- Two reads of one key agree.
one_value {ℓ κ} :
    {K : Type ℓ} {V : Type κ} ⦃e : Equality K⦄ (j k : K) (u w : V) (m : Map K V)
    → get k m ≡ some u
    → get j m ≡ some w
    → j ≡ k
    → w ≡ u
one_value j k u w m p q e = cc (p, q, e)

ended-Keeps :
    {r r' : Repository} (k : UploadKey) (u : MultipartUpload)
    → Step r r'
    → get k r.uploads ≡ some u
    → u.state ≢ MultipartUploadState.active
    → Keeps k u r'
ended-Keeps k u (idle up parts done) there ended = rw up (u, there, SameOutcome-refl u)
ended-Keeps {r} k u (opened req id now j fresh up parts done) there ended = rw up (
    put_where (SameOutcome u) j k _ u r.uploads there (SameOutcome-refl u)
      λ e. cc (fresh, there, e))
ended-Keeps {r} k u (stored req w now at active tables done) there ended = rw (tables.0) (
    put_where (SameOutcome u) req.upload k _ u r.uploads there (SameOutcome-refl u)
      λ e. absurd (ended (cc (one_value req.upload k u w r.uploads there at e))))
ended-Keeps {r} k u (completed req w now at active up parts done) there ended = rw up (
    put_where (SameOutcome u) req.upload k _ u r.uploads there (SameOutcome-refl u)
      λ e. absurd (ended (cc (one_value req.upload k u w r.uploads there at e))))
ended-Keeps {r} k u (aborted j w now at active up parts done) there ended = rw up (
    put_where (SameOutcome u) j k _ u r.uploads there (SameOutcome-refl u)
      λ e. absurd (ended (cc (one_value j k u w r.uploads there at e))))
ended-Keeps {r} k u (cleaned j w limit n more now at over up parts done) there ended = rw up (
    put_where (SameOutcome u) j k _ u r.uploads there (SameOutcome-refl u)
      λ e. rw (one_value j k u w r.uploads there at e) (cleaned-SameOutcome u n more now))
ended-Keeps k u (prepared req now missing up parts done) there ended =
    rw up (u, there, SameOutcome-refl u)
ended-Keeps k u (advanced j old state now at behind up parts done) there ended =
    rw up (u, there, SameOutcome-refl u)

SameOutcome-trans : {u v w : MultipartUpload} → SameOutcome u v → SameOutcome v w → SameOutcome u w
SameOutcome-trans p q = record {
  state = q.state ∙ p.state;
  version = q.version ∙ p.version;
  etag = q.etag ∙ p.etag;
  size = q.size ∙ p.size;
  part_count = q.part_count ∙ p.part_count;
  at = q.at ∙ p.at;
}

-- An upload that is completed or aborted is never removed, reopened or given another result: after
-- any multipart calls it has the state, and the completed version, ETag, size, part count and date,
-- that it had when it ended.
pub ended_upload_is_final :
    (env : Env) (calls : List MultipartCall) (r : Repository) (k : UploadKey) (u : MultipartUpload)
    → get k r.uploads ≡ some u
    → u.state ≢ MultipartUploadState.active
    → Keeps k u (apply_calls env calls r)
unfolding apply_calls
ended_upload_is_final env [] r k u there ended = (u, there, SameOutcome-refl u)
ended_upload_is_final env (call ∷ calls) r k u there ended =
    let (v, kept, same) = ended-Keeps k u (apply_call-Step env call r) there ended in
    let (w, last, later) =
      ended_upload_is_final env calls (apply_call env call r) k v kept
        (λ p. ended (cc (p, same.state))) in
    (w, last, SameOutcome-trans same later)

-- The fields that `PrepareMultipartCompletion` fixes, and a state that only moves forward.
pub record Advances (c d : MultipartCompletionRecord) : Type 0 where
  pub version : d.object_version_id ≡ c.object_version_id
  pub expected_head : d.expected_head_version_id ≡ c.expected_head_version_id
  pub etag : d.etag ≡ c.etag
  pub size : d.size_bytes ≡ c.size_bytes
  pub part_count : d.part_count ≡ c.part_count
  pub rank : multipart_completion_state_rank c.state ≤ multipart_completion_state_rank d.state

abbrev pub KeepsRecord : UploadKey → MultipartCompletionRecord → Repository → Type 0
KeepsRecord k c r = (d : MultipartCompletionRecord) × (get k r.completions ≡ some d) × Advances c d

Advances-refl : (c : MultipartCompletionRecord) → Advances c c
Advances-refl c = record {
  version = refl;
  expected_head = refl;
  etag = refl;
  size = refl;
  part_count = refl;
  rank = omega arith;
}

advanced-Advances :
    (c : MultipartCompletionRecord) (state : MultipartCompletionState) (now : Time)
    → multipart_completion_state_at_least c.state state ≡ false
    → Advances c (record c { state = state; updated_at = now })
unfolding multipart_completion_state_at_least
advanced-Advances c state now behind = ground arith

recorded-KeepsRecord :
    {r r' : Repository} (k : UploadKey) (c : MultipartCompletionRecord)
    → Step r r'
    → get k r.completions ≡ some c
    → KeepsRecord k c r'
recorded-KeepsRecord k c (idle up parts done) there = rw done (c, there, Advances-refl c)
recorded-KeepsRecord k c (opened req id now j fresh up parts done) there =
    rw done (c, there, Advances-refl c)
recorded-KeepsRecord k c (stored req w now at active tables done) there =
    rw done (c, there, Advances-refl c)
recorded-KeepsRecord k c (completed req w now at active up parts done) there =
    rw done (c, there, Advances-refl c)
recorded-KeepsRecord k c (aborted j w now at active up parts done) there =
    rw done (c, there, Advances-refl c)
recorded-KeepsRecord k c (cleaned j w limit n more now at over up parts done) there =
    rw done (c, there, Advances-refl c)
recorded-KeepsRecord {r} k c (prepared req now missing up parts done) there = rw done (
    put_where (Advances c) req.upload k _ c r.completions there (Advances-refl c)
      λ e. cc (missing, there, e))
recorded-KeepsRecord {r} k c (advanced j old state now at behind up parts done) there = rw done (
    put_where (Advances c) j k _ c r.completions there (Advances-refl c) λ e.
      let same = one_value j k c old r.completions there at e in
      rw same (advanced-Advances c state now (rw same at behind)))

Advances-trans : {c d e : MultipartCompletionRecord} → Advances c d → Advances d e → Advances c e
Advances-trans p q = record {
  version = q.version ∙ p.version;
  expected_head = q.expected_head ∙ p.expected_head;
  etag = q.etag ∙ p.etag;
  size = q.size ∙ p.size;
  part_count = q.part_count ∙ p.part_count;
  rank = omega (arith, p.rank, q.rank);
}

-- Once a completion record is prepared, any multipart calls leave it in place with its object
-- version, expected head, ETag, size and part count, and never move its state back.
pub prepared_completion_is_final :
    (env : Env) (calls : List MultipartCall) (r : Repository) (k : UploadKey)
    (c : MultipartCompletionRecord)
    → get k r.completions ≡ some c
    → KeepsRecord k c (apply_calls env calls r)
unfolding apply_calls
prepared_completion_is_final env [] r k c there = (c, there, Advances-refl c)
prepared_completion_is_final env (call ∷ calls) r k c there =
    let (d, kept, moved) = recorded-KeepsRecord k c (apply_call-Step env call r) there in
    let (e, last, later) =
      prepared_completion_is_final env calls (apply_call env call r) k d kept in
    (e, last, Advances-trans moved later)

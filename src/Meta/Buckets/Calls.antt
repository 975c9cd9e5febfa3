-- ===== src/Meta/Buckets/Calls.antt =====
-- Sequences of bucket operations (internal/meta/memory/repository.go).
use namros.Base.{
  ℕ, String, ◌≡◌, refl, ap, ◌∙◌, false, Option, none, some, List, [], ◌∷◌, arith, string_equality,
}
use namros.Base.Maps.{Map, get}
use namros.Base.Exec.{
  Leaves, ok, guard_then, lift_then, lift_then_, gets_then, modify_then, modify_last, pure_then,
}
use namros.Meta.Model.Object.{Bucket}
use namros.Meta.Repository.{Repository, Env, has, read_clock_then, draw_id_then}
use namros.Meta.Multipart.{found}
use namros.Meta.Objects.{append_audit_event}
use namros.Meta.Buckets.{
  CreateBucketRequest, PutBucketVersioningRequest, BucketObjectLockRequest, new_bucket,
  create_bucket, put_bucket_versioning, put_bucket_object_lock, delete_bucket,
}
use namros.Meta.Buckets.Names.{WellNamed, changed-WellNamed, created-WellNamed, deleted-WellNamed}

abbrev pub BucketsAgree : Repository → Type 0
BucketsAgree r = WellNamed r.buckets_by_id r.bucket_name_to_id

free_of_has : {V : Type 0} (m : Map String V) (k : String) → has k m ≡ false → get k m ≡ none
free_of_has m k free = ground arith

bucket_of_found : (o : Option Bucket) (b : Bucket) → found o ≡ ok b → o ≡ some b
bucket_of_found none b h = cc h
bucket_of_found (some c) b h = ground arith

-- A bucket is written back under its own identifier, which is the one it was read under.
at_own_id :
    (r : Repository) (id : String) (b : Bucket)
    → BucketsAgree r
    → get id r.buckets_by_id ≡ some b
    → get b.bucket_id r.buckets_by_id ≡ some b
at_own_id r id b w there = ap (λ (x : String). get x r.buckets_by_id) (w.own id b there) ∙ there

create_bucket-BucketsAgree :
    (env : Env) (req : CreateBucketRequest) (r : Repository)
    → BucketsAgree r
    → Leaves BucketsAgree (create_bucket env req) r
unfolding create_bucket new_bucket
create_bucket-BucketsAgree env req r w = guard_then _ w λ _. gets_then _ _ (
    guard_then _ w λ unused.
      draw_id_then env _ _ _ _ (λ d. w)
        λ id d d' fresh drawn. read_clock_then env _ (
          modify_then _ (
            modify_then _ (
              pure_then _ (
                created-WellNamed r.buckets_by_id r.bucket_name_to_id w id _
                  (free_of_has r.buckets_by_id id fresh)
                  (free_of_has r.bucket_name_to_id req.name (ground arith)) refl
                  (λ on. ground (arith, on)))))))

put_bucket_versioning-BucketsAgree :
    (req : PutBucketVersioningRequest) (r : Repository)
    → BucketsAgree r
    → Leaves BucketsAgree (put_bucket_versioning req) r
unfolding put_bucket_versioning
put_bucket_versioning-BucketsAgree req r w = guard_then _ w λ _. guard_then _ w λ _. gets_then _ _ (
    lift_then w λ b at.
      let there = bucket_of_found _ b at in
      guard_then _ w λ allowed. modify_then _ (
        pure_then _ (
          changed-WellNamed r.buckets_by_id r.bucket_name_to_id w b.bucket_id b _
            (at_own_id r req.bucket_id b w there) refl refl (λ on. ground (arith, on)))))

put_bucket_object_lock-BucketsAgree :
    (env : Env) (format_int : ℕ → String) (req : BucketObjectLockRequest) (r : Repository)
    → BucketsAgree r
    → Leaves BucketsAgree (put_bucket_object_lock env format_int req) r
unfolding put_bucket_object_lock append_audit_event
put_bucket_object_lock-BucketsAgree env format_int req r w = guard_then _ w λ _. lift_then_ w λ _ _.
    gets_then _ _ (
      lift_then w λ b at.
        let there = bucket_of_found _ b at in
        modify_then _ (
          modify_then _ (
            pure_then _ (
              changed-WellNamed r.buckets_by_id r.bucket_name_to_id w b.bucket_id b _
                (at_own_id r req.bucket_id b w there) refl refl (λ on. refl)))))

delete_bucket-BucketsAgree :
    (bucket_id : String) (r : Repository)
    → BucketsAgree r
    → Leaves BucketsAgree (delete_bucket bucket_id) r
unfolding delete_bucket
delete_bucket-BucketsAgree bucket_id r w = gets_then _ _ (
    lift_then w λ b at. gets_then _ _ (
      guard_then _ w λ _. gets_then _ _ (
        guard_then _ w λ _. modify_last _ (
          deleted-WellNamed r.buckets_by_id r.bucket_name_to_id w bucket_id b
            (bucket_of_found _ b at)))))

pub data BucketCall : Type 0 where
  create : CreateBucketRequest → BucketCall
  put_versioning : PutBucketVersioningRequest → BucketCall
  put_object_lock : BucketObjectLockRequest → BucketCall
  delete_by_id : String → BucketCall

module _ (env : Env) (format_int : ℕ → String) where
  -- The state that a call leaves, whatever it returns.
  unfoldable pub apply_call : BucketCall → Repository → Repository
  apply_call (create req) r = (create_bucket env req r).1
  apply_call (put_versioning req) r = (put_bucket_versioning req r).1
  apply_call (put_object_lock req) r = (put_bucket_object_lock env format_int req r).1
  apply_call (delete_by_id bucket_id) r = (delete_bucket bucket_id r).1

  unfoldable pub apply_calls : List BucketCall → Repository → Repository
  apply_calls [] r = r
  apply_calls (call ∷ calls) r = apply_calls calls (apply_call call r)

  apply_call-BucketsAgree :
      (call : BucketCall) (r : Repository) → BucketsAgree r → BucketsAgree (apply_call call r)
  unfolding apply_call
  apply_call-BucketsAgree (create req) r w = (create_bucket-BucketsAgree env req r w).holds
  apply_call-BucketsAgree (put_versioning req) r w =
      (put_bucket_versioning-BucketsAgree req r w).holds
  apply_call-BucketsAgree (put_object_lock req) r w =
      (put_bucket_object_lock-BucketsAgree env format_int req r w).holds
  apply_call-BucketsAgree (delete_by_id bucket_id) r w =
      (delete_bucket-BucketsAgree bucket_id r w).holds

  -- Any sequence of creations and deletions of buckets and changes of versioning and object lock keeps
  -- buckets and names in agreement: every bucket is stored under its identifier and found by its name,
  -- every name leads to a bucket of that name, and every bucket with object lock has versioning
  -- enabled.
  pub bucket_calls_keep_names :
      (calls : List BucketCall) (r : Repository)
      → BucketsAgree r
      → BucketsAgree (apply_calls calls r)
  unfolding apply_calls
  bucket_calls_keep_names [] r w = w
  bucket_calls_keep_names (call ∷ calls) r w =
      bucket_calls_keep_names calls (apply_call call r) (apply_call-BucketsAgree call r w)

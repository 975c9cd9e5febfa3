-- ===== src/Meta/Buckets/Scenarios.antt =====
-- Buckets that are created, locked, suspended and deleted.
use namros.Base.{true, false, [], ◌∷◌, List}
use namros.Base.Maps.{get}
use namros.Meta.Model.Object.{BucketVersioningState}
use namros.Meta.Repository.{Repository}
use namros.Meta.Buckets.{lock_of}
use namros.Meta.Buckets.Names.{WellNamed}
use namros.Meta.Buckets.Calls.{
  BucketsAgree, BucketCall, create, put_versioning, put_object_lock, delete_by_id, apply_calls,
  bucket_calls_keep_names,
}
use namros.Meta.Samples.{env, a_repository, root}

abbrev no_buckets : Repository
no_buckets = record a_repository { buckets_by_id = []; bucket_name_to_id = [] }

abbrev calls : List BucketCall
calls =
    create (record { tenant_id = "t"; name = "films"; region = "eu"; object_lock_enabled = false })
    ∷ put_versioning (record { bucket_id = "id"; state = BucketVersioningState.suspended })
    ∷ put_object_lock (record {
      bucket_id = "id";
      configuration = lock_of true;
      audit = record { request_id = ""; reason = ""; principal = root };
    })
    ∷ put_versioning (record { bucket_id = "id"; state = BucketVersioningState.suspended })
    ∷ delete_by_id "id"
    ∷ []

none-WellNamed : WellNamed [] []
unfolding get
none-WellNamed = record {
  own = λ id b there. cc there;
  named = λ id b there. cc there;
  reached = λ name id there. cc there;
  locked = λ id b there on. cc there;
}

bucket_calls_keep_names_example : BucketsAgree (apply_calls env (λ n. "") calls no_buckets)
bucket_calls_keep_names_example =
    bucket_calls_keep_names env (λ n. "") calls no_buckets none-WellNamed

-- ===== src/Meta/Multipart/Scenarios.antt =====
-- Concrete runs of multipart uploads.
use namros.Base.{refl, List, [], ◌∷◌}
use namros.Base.Maps.{get, Unique}
use namros.Meta.Model.Multipart.{MultipartUpload, MultipartCompletionState}
use namros.Meta.Model.Lock.{LegalHold}
use namros.Meta.Repository.{Repository, UploadKey, upload_key_eq}
use namros.Meta.Multipart.{
  CreateMultipartUploadRequest, PutMultipartPartRequest, CompleteMultipartUploadRequest,
  PrepareMultipartCompletionRequest, new_upload,
}
use namros.Meta.Multipart.Completion.{new_completion}
use namros.Meta.Multipart.Lifecycle.{completed_upload}
use namros.Meta.Multipart.Step.{
  MultipartCall, create, put_part, prepare, mark, complete, abort, cleanup, apply_calls,
}
use namros.Meta.Multipart.Outcome.{
  Keeps, KeepsRecord, ended_upload_is_final, prepared_completion_is_final,
}
use namros.Meta.Multipart.Summing.{WellCounted}
use namros.Meta.Multipart.Counting.{multipart_calls_keep_counts}
use namros.Meta.Samples.{env, a_segment, standard, plain, no_retention, a_repository}

abbrev the_upload : UploadKey
the_upload = record { bucket_id = "b"; key = "k"; upload_id = "id" }

abbrev asked : CreateMultipartUploadRequest
asked = record {
  bucket_id = "b";
  key = "k";
  content_type = "";
  storage_class = standard;
  server_side_encryption = plain;
  user_metadata = [];
  tags = [];
  object_lock_retention = no_retention;
  object_lock_legal_hold = LegalHold.unset;
}

abbrev part_two : PutMultipartPartRequest
part_two = record {
  upload = the_upload;
  part_number = 2;
  size_bytes = 5;
  etag = "e";
  segment_ref = a_segment;
}

abbrev finish : CompleteMultipartUploadRequest
finish = record {
  upload = the_upload;
  object_version_id = "v";
  etag = "e";
  size_bytes = 5;
  part_count = 1;
}

abbrev plan : PrepareMultipartCompletionRequest
plan = record {
  upload = the_upload;
  object_version_id = "v";
  expected_head_version_id = "";
  etag = "e";
  size_bytes = 5;
  part_count = 1;
}

abbrev calls : List MultipartCall
calls =
    create asked
    ∷ put_part part_two
    ∷ put_part part_two
    ∷ prepare plan
    ∷ mark the_upload MultipartCompletionState.published
    ∷ complete finish
    ∷ abort the_upload
    ∷ cleanup the_upload 1
    ∷ []

empty-WellCounted : WellCounted [] []
unfolding get Unique
empty-WellCounted = record {
  unique = tt;
  owned = λ k n missing. refl;
  counted = λ k upload there active. cc there;
}

multipart_calls_keep_counts_example :
    WellCounted
      (apply_calls env calls a_repository).uploads
      (apply_calls env calls a_repository).parts
multipart_calls_keep_counts_example =
    multipart_calls_keep_counts env calls a_repository empty-WellCounted

abbrev the_completed : MultipartUpload
the_completed = completed_upload (new_upload asked "id" 1) finish 2

abbrev after_completion : Repository
after_completion = record a_repository { uploads = (the_upload, the_completed) ∷ [] }

ended_upload_is_final_example :
    Keeps the_upload the_completed (apply_calls env calls after_completion)
unfolding get completed_upload
ended_upload_is_final_example =
    ended_upload_is_final env calls after_completion the_upload the_completed refl λ p. cc p

abbrev after_prepare : Repository
after_prepare = record a_repository { completions = (the_upload, new_completion plan 1) ∷ [] }

prepared_completion_is_final_example :
    KeepsRecord the_upload (new_completion plan 1) (apply_calls env calls after_prepare)
unfolding get
prepared_completion_is_final_example =
    prepared_completion_is_final env calls after_prepare the_upload (new_completion plan 1) refl

-- ===== src/Meta/Objects/Calls.antt =====
-- Sequences of object operations, and the agreement of heads and versions
-- (internal/meta/memory/repository.go).
use namros.Base.{String, List, [], ◌∷◌}
use namros.Meta.Model.Segment.{Time}
use namros.Meta.Repository.{Repository, Env}
use namros.Meta.Objects.{BeginPutObjectRequest, CommitObjectVersionRequest, DeleteObjectRequest}
use namros.Meta.Objects.Put.{begin_put_object, commit_object_version, put_object_version}
use namros.Meta.Objects.Delete.{delete_object}
use namros.Meta.Objects.Tags.{ObjectTagsRequest, put_object_tags}
use namros.Meta.Objects.Lock.{
  ObjectRetentionRequest, ObjectLegalHoldRequest, put_object_retention, put_object_legal_hold,
}
use namros.Meta.Objects.Ready.{HeadsAgree, DrawsNames, begin_put_object-HeadsAgree}
use namros.Meta.Objects.Writes.{commit_object_version-HeadsAgree, put_object_version-HeadsAgree}
use namros.Meta.Objects.Deletes.{delete_object-HeadsAgree}
use namros.Meta.Objects.Changes.{put_object_tags-HeadsAgree}
use namros.Meta.Objects.Holds.{put_object_retention-HeadsAgree, put_object_legal_hold-HeadsAgree}

pub data ObjectCall : Type 0 where
  begin : BeginPutObjectRequest → ObjectCall
  commit : CommitObjectVersionRequest → ObjectCall
  put_version : BeginPutObjectRequest → ObjectCall
  delete_one : DeleteObjectRequest → ObjectCall
  put_tags : ObjectTagsRequest → ObjectCall
  put_retention : ObjectRetentionRequest → ObjectCall
  put_legal_hold : ObjectLegalHoldRequest → ObjectCall

module _ (env : Env) (format_time : Time → String) where
  -- The state that a call leaves, whatever it returns.
  unfoldable pub apply_call : ObjectCall → Repository → Repository
  apply_call (begin req) r = (begin_put_object env req r).1
  apply_call (commit req) r = (commit_object_version env req r).1
  apply_call (put_version req) r = (put_object_version env req r).1
  apply_call (delete_one req) r = (delete_object env req r).1
  apply_call (put_tags req) r = (put_object_tags req r).1
  apply_call (put_retention req) r = (put_object_retention env format_time req r).1
  apply_call (put_legal_hold req) r = (put_object_legal_hold env req r).1

  unfoldable pub apply_calls : List ObjectCall → Repository → Repository
  apply_calls [] r = r
  apply_calls (call ∷ calls) r = apply_calls calls (apply_call call r)

  pub apply_call-HeadsAgree :
      (call : ObjectCall) (r : Repository)
      → DrawsNames env
      → HeadsAgree r
      → HeadsAgree (apply_call call r)
  unfolding apply_call
  apply_call-HeadsAgree (begin req) r names w =
      (begin_put_object-HeadsAgree env req r names w).holds
  apply_call-HeadsAgree (commit req) r names w =
      (commit_object_version-HeadsAgree env req r w).holds
  apply_call-HeadsAgree (put_version req) r names w =
      (put_object_version-HeadsAgree env req r names w).holds
  apply_call-HeadsAgree (delete_one req) r names w =
      (delete_object-HeadsAgree env req r names w).holds
  apply_call-HeadsAgree (put_tags req) r names w = (put_object_tags-HeadsAgree req r w).holds
  apply_call-HeadsAgree (put_retention req) r names w =
      (put_object_retention-HeadsAgree env format_time req r w).holds
  apply_call-HeadsAgree (put_legal_hold req) r names w =
      (put_object_legal_hold-HeadsAgree env req r w).holds

  -- If the generator never draws the empty identifier, any sequence of writes, deletions and changes
  -- of tags, retention and legal hold keeps heads and versions in agreement: version keys are
  -- distinct, every version is stored under its own names, and every head is, up to its revision,
  -- `headFromVersion` of a stored committed version.
  pub object_calls_keep_heads :
      (calls : List ObjectCall) (r : Repository)
      → DrawsNames env
      → HeadsAgree r
      → HeadsAgree (apply_calls calls r)
  unfolding apply_calls
  object_calls_keep_heads [] r names w = w
  object_calls_keep_heads (call ∷ calls) r names w =
      object_calls_keep_heads calls (apply_call call r) names (apply_call-HeadsAgree call r names w)

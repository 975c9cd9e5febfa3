-- ===== src/Lifecycle/Types.antt =====
-- The types of internal/lifecycle/planner.go.
use namros.Base.{ℕ, String, List}
use namros.Base.Exec.{Err, Result}
use namros.Meta.Model.Segment.{Time}
use namros.Meta.Model.Lock.{ProtectedRef}
use namros.Meta.Model.Lifecycle.{BucketLifecycleConfiguration}
use namros.Meta.ObjectLock.Refs.{ListProtectedRefsRequest}
use namros.Meta.Listing.{
  ListObjectVersionsRequest, ListObjectVersionsResult, ListMultipartUploadsRequest,
  ListMultipartUploadsResult,
}

pub data ActionKind : Type 0 where
  expire_current_object expire_delete_marker expire_noncurrent_version : ActionKind
  abort_incomplete_multipart : ActionKind

pub data ActionStatus : Type 0 where
  eligible blocked : ActionStatus

pub data BlockReason : Type 0 where
  unset object_lock protected_ref : BlockReason

pub record PlanRequest : Type 0 where
  pub bucket_id : String
  pub now : Time
  pub max_keys : ℕ
  pub max_uploads : ℕ

pub record Action : Type 0 where
  pub kind : ActionKind
  pub status : ActionStatus
  pub block_reason : BlockReason
  pub rule_id : String
  pub bucket_id : String
  pub key : String
  pub version_id : String
  pub upload_id : String

pub record Plan : Type 0 where
  pub bucket_id : String
  pub actions : List Action

-- The errors that `BuildPlan` makes itself, and those that the repository returns.
pub data PlanError : Type 0 where
  bucket_id_required : PlanError
  metadata : Err → PlanError

pub data Planning : Type 0 where
  planned : Plan → Planning
  failed : PlanError → Planning

-- The four methods of the interface `meta.Repository` that the planner calls. None of them changes the
-- repository, and what they answer is taken to stay the same while one plan is made.
pub record PlanRepository : Type 0 where
  pub get_bucket_lifecycle : String → Result BucketLifecycleConfiguration
  pub list_object_versions : ListObjectVersionsRequest → Result ListObjectVersionsResult
  pub list_multipart_uploads : ListMultipartUploadsRequest → Result ListMultipartUploadsResult
  pub list_protected_refs : ListProtectedRefsRequest → Result (List ProtectedRef)

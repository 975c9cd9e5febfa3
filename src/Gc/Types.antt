-- ===== src/Gc/Types.antt =====
-- The types of the worker of internal/gc/worker.go.
use namros.Base.{ℕ, String, Bool, Option, List}
use namros.Meta.Model.Segment.{SegmentRef}

pub data DeleteReason : Type 0 where
  unset publish_failed object_overwritten multipart_aborted manual_gc : DeleteReason
  dedupe_replaced volume_drained : DeleteReason
  other : String → DeleteReason

pub record GcCandidate : Type 0 where
  pub ref : SegmentRef
  pub reason : DeleteReason

pub data AttemptStatus : Type 0 where
  deleted skipped retryable : AttemptStatus

-- `AttemptRecord` without its error message.
pub record AttemptRecord : Type 0 where
  pub segment_id : String
  pub shared_object_id : String
  pub reason : DeleteReason
  pub status : AttemptStatus
  pub retryable : Bool

pub data GcOperationStatus : Type 0 where
  unset succeeded retry_pending failed : GcOperationStatus

-- `OperationRecord` without the times of its start and end.
pub record OperationRecord : Type 0 where
  pub resume_of_operation_id : String
  pub status : GcOperationStatus
  pub scanned : ℕ
  pub deleted : ℕ
  pub skipped : ℕ
  pub retryable : ℕ
  pub attempts : List AttemptRecord

-- What the worker reads of a record in the history.
pub record GcOperationRecord : Type 0 where
  pub operation_id : String
  pub status : GcOperationStatus
  pub retryable : ℕ
  pub attempts : List AttemptRecord

-- What `DeleteSegment` returns: no error, `storage.ErrNotFound`, or another error.
pub data Deletion : Type 0 where
  removed missing refused : Deletion

-- `Worker`: the interfaces that it is given, over the state `W` of the stores behind them. A field that
-- may be nil, or may lack a method, is an option; `false` and `none` are errors.
pub record Worker (W : Type 0) : Type 0 where
  pub delete_segment : Option (SegmentRef → DeleteReason → W → Deletion × W)
  pub list_gc_candidates : Option (ℕ → W → Option (List GcCandidate) × W)
  pub admission : Option (SegmentRef → W → Bool × W)
  pub list_gc_operations : Option (W → Option (List GcOperationRecord) × W)
  pub put_gc_operation : Option (OperationRecord → W → Bool × W)
  pub put_shared_object_release : Option (SegmentRef → DeleteReason → W → Bool × W)
  pub delete_gc_candidate : Option (SegmentRef → W → Bool × W)

-- ===== src/Gc.antt =====
-- Garbage collection of segments: `Worker.RunOnce` of internal/gc/worker.go, and the admission of a
-- deletion that the gateway gives the worker (internal/gateway/gc.go and server.go).
pub mod Counts
pub mod Admitted
mod Scenarios
mod Types
pub use Types.*
use namros.Base.{
  ℕ, ◌+◌, String, Bool, true, false, not, ◌&&◌, ◌||◌, Option, none, some, List, [], ◌∷◌, ◌++◌, ltb,
  is_empty, if◌then◌else◌,
}
use namros.Base.Maps.{Map}
use namros.Base.Exec.{Result, ok, err, unavailable}
use namros.Meta.Model.Segment.{Time, SegmentRef}
use namros.Meta.Model.Lock.{ProtectedRef}
use namros.Meta.ObjectLock.Refs.{ListProtectedRefsRequest, list_protected_refs}

abbrev pub reason_of : DeleteReason → DeleteReason
reason_of DeleteReason.unset = DeleteReason.manual_gc
reason_of reason = reason

abbrev pub is_retryable : AttemptStatus → Bool
is_retryable AttemptStatus.retryable = true
is_retryable _ = false

abbrev pub one_if : Bool → ℕ
one_if true = 1
one_if false = 0

abbrev pub is_deleted : AttemptStatus → Bool
is_deleted AttemptStatus.deleted = true
is_deleted _ = false

abbrev pub is_skipped : AttemptStatus → Bool
is_skipped AttemptStatus.skipped = true
is_skipped _ = false

abbrev pub attempt_record : GcCandidate → AttemptStatus → AttemptRecord
attempt_record candidate status = record {
  segment_id = candidate.ref.segment_id;
  shared_object_id = candidate.ref.shared_object_id;
  reason = reason_of candidate.reason;
  status = status;
  retryable = is_retryable status;
}

-- what every branch of the loop does once it has a status: its counter goes up, and the attempt is
-- appended
unfoldable pub add_attempt : GcCandidate → AttemptStatus → OperationRecord → OperationRecord
add_attempt candidate status record' = record record' {
  scanned = record'.scanned + 1;
  deleted = record'.deleted + one_if (is_deleted status);
  skipped = record'.skipped + one_if (is_skipped status);
  retryable = record'.retryable + one_if (is_retryable status);
  attempts = record'.attempts ++ (attempt_record candidate status ∷ []);
}

module _ {W : Type 0} (worker : Worker W)
    (delete_segment : SegmentRef → DeleteReason → W → Deletion × W) where
  -- after the deletion: the candidate is taken off the list
  abbrev pub acknowledge : GcCandidate → W → AttemptStatus × W
  acknowledge candidate w = elim worker.delete_gc_candidate [
    | none ↦ (AttemptStatus.deleted, w)
    | some acknowledge_candidate ↦
        let (done, w') = acknowledge_candidate candidate.ref w in
        if done then (AttemptStatus.deleted, w') else (AttemptStatus.retryable, w')
  ]

  abbrev pub after_deletion : GcCandidate → Deletion → W → AttemptStatus × W
  after_deletion candidate Deletion.refused w = (AttemptStatus.retryable, w)
  after_deletion candidate Deletion.removed w = acknowledge candidate w
  after_deletion candidate Deletion.missing w = acknowledge candidate w

  -- the release of a segment of a shared object
  abbrev pub release_shared : GcCandidate → W → AttemptStatus × W
  release_shared candidate w = elim worker.put_shared_object_release [
    | none ↦ (AttemptStatus.retryable, w)
    | some release ↦
        let (done, w') = release candidate.ref (reason_of candidate.reason) w in
        if done then (AttemptStatus.skipped, w') else (AttemptStatus.retryable, w')
  ]

  -- the body of the loop after the admission
  unfoldable pub attempt_admitted : GcCandidate → W → AttemptStatus × W
  attempt_admitted candidate w =
      if not (is_empty candidate.ref.shared_object_id)
      then release_shared candidate w
      else let (deletion, w') = delete_segment candidate.ref (reason_of candidate.reason) w in
        after_deletion candidate deletion w'

  -- the body of the loop
  unfoldable pub attempt : GcCandidate → W → AttemptStatus × W
  unfolding attempt_admitted
  attempt candidate w = elim worker.admission [
    | none ↦ attempt_admitted candidate w
    | some admission ↦
        let (admitted, w') = admission candidate.ref w in
        if admitted then attempt_admitted candidate w' else (AttemptStatus.skipped, w')
  ]

  -- the loop of `RunOnce`
  unfoldable pub attempt_all : List GcCandidate → OperationRecord → W → OperationRecord × W
  unfolding attempt add_attempt
  attempt_all [] record' w = (record', w)
  attempt_all (candidate ∷ candidates) record' w =
      let (status, w') = attempt candidate w in
      attempt_all candidates (add_attempt candidate status record') w'

-- `statusForRecord`
abbrev pub status_for_record : OperationRecord → Bool → GcOperationStatus
status_for_record record' has_failed =
    if has_failed
    then GcOperationStatus.failed
    else if ltb 0 record'.retryable
    then GcOperationStatus.retry_pending
    else GcOperationStatus.succeeded

abbrev pub no_record : OperationRecord
no_record = record {
  resume_of_operation_id = "";
  status = GcOperationStatus.unset;
  scanned = 0;
  deleted = 0;
  skipped = 0;
  retryable = 0;
  attempts = [];
}

-- `hasRetryableAttempt`
has_retryable_attempt : List AttemptRecord → Bool
has_retryable_attempt [] = false
has_retryable_attempt (a ∷ attempts) =
    (a.retryable || is_retryable a.status) || has_retryable_attempt attempts

abbrev is_retry_pending : GcOperationStatus → Bool
is_retry_pending GcOperationStatus.retry_pending = true
is_retry_pending _ = false

-- `retryableOperationToResume`, from the records that the history lists
unfoldable pub operation_to_resume : List GcOperationRecord → String
unfolding has_retryable_attempt
operation_to_resume [] = ""
operation_to_resume (first ∷ records) =
    if is_retry_pending first.status
      || (ltb 0 first.retryable || has_retryable_attempt first.attempts)
    then first.operation_id
    else ""

-- What `RunOnce` returns: the record, and whether there is an error.
abbrev pub Run : Type 0
Run = OperationRecord × Bool

abbrev pub with_error : OperationRecord → Run
with_error record' = (record record' { status = GcOperationStatus.failed }, true)

module _ {W : Type 0} (worker : Worker W) where
  -- the end of `RunOnce`: the record is stored
  abbrev pub finish : OperationRecord → W → Run × W
  finish record' w =
      let final = record record' { status = status_for_record record' false } in
      elim worker.put_gc_operation [
        | none ↦ ((final, false), w)
        | some put ↦ let (done, w') = put final w in ((final, not done), w')
      ]

  abbrev pub attempt_listed :
      (SegmentRef → DeleteReason → W → Deletion × W)
      → OperationRecord
      → Option (List GcCandidate)
      → W
      → Run × W
  attempt_listed delete_segment record' none w = (with_error record', w)
  attempt_listed delete_segment record' (some candidates) w =
      let (made, w') = attempt_all worker delete_segment candidates record' w in finish made w'

  abbrev pub resumed_of : Option (List GcOperationRecord) → Option String
  resumed_of none = none
  resumed_of (some records) = some (operation_to_resume records)

  -- the operation to resume; `none` is an error
  abbrev pub find_resumed : W → Option String × W
  find_resumed w = elim worker.list_gc_operations [
    | none ↦ (some "", w)
    | some list ↦ let (records, w') = list w in (resumed_of records, w')
  ]

  abbrev pub run_resumed :
      (SegmentRef → DeleteReason → W → Deletion × W)
      → (ℕ → W → Option (List GcCandidate) × W)
      → ℕ
      → Option String
      → W
      → Run × W
  run_resumed delete_segment list limit none w = (with_error no_record, w)
  run_resumed delete_segment list limit (some resume_of) w =
      let (candidates, w') = list limit w in
      attempt_listed delete_segment (record no_record { resume_of_operation_id = resume_of })
        candidates w'

  -- `Worker.RunOnce`. The history is read only where there is a store to put the record into.
  unfoldable pub run_once : ℕ → W → Run × W
  unfolding attempt_all operation_to_resume
  run_once limit w = elim worker.delete_segment [
    | none ↦ (with_error no_record, w)
    | some delete_segment ↦ elim worker.list_gc_candidates [
      | none ↦ (with_error no_record, w)
      | some list ↦
          let (resume_of, w') = find_resumed w in run_resumed delete_segment list limit resume_of w'
    ]
  ]

abbrev is_nil : List ProtectedRef → Bool
is_nil [] = true
is_nil (ref ∷ refs) = false

abbrev pub refs_of_segment : String → ListProtectedRefsRequest
refs_of_segment segment_id = record {
  bucket_id = "";
  key = "";
  version_id = "";
  segment_id = segment_id;
  active_only = true;
  limit = 1;
}

-- `admitProtectedRefSegmentDelete` over the in-memory repository, as the function `Admission` that
-- `runGCScheduler` gives the worker: whether there is no error
unfoldable pub admit_protected_ref_segment_delete :
    Map String ProtectedRef → Time → SegmentRef → Bool
unfolding list_protected_refs
admit_protected_ref_segment_delete refs now ref =
    if is_empty ref.segment_id
    then true
    else is_nil (list_protected_refs refs now (refs_of_segment ref.segment_id))

-- ===== src/Gc/Counts.antt =====
-- About the counters of a run's record and its attempts (internal/gc/worker.go).
use namros.Base.{ℕ, ◌+◌, ◌≡◌, ◌<◌, ◌⊎◌, Bool, List, [], ◌∷◌, length}
use namros.Gc.{
  OperationRecord, AttemptRecord, AttemptStatus, GcOperationStatus, Run, is_deleted, is_skipped,
  is_retryable, one_if,
}

-- how many attempts have a status that the test accepts
pub count_status : (AttemptStatus → Bool) → List AttemptRecord → ℕ
count_status test [] = 0
count_status test (a ∷ attempts) = one_if (test a.status) + count_status test attempts

-- Each counter is the number of attempts with its status, and every candidate looked at has one attempt.
pub record Counts (record' : OperationRecord) : Type 0 where
  pub scanned : record'.scanned ≡ length record'.attempts
  pub deleted : record'.deleted ≡ count_status is_deleted record'.attempts
  pub skipped : record'.skipped ≡ count_status is_skipped record'.attempts
  pub retryable : record'.retryable ≡ count_status is_retryable record'.attempts
  pub total : record'.scanned ≡ record'.deleted + (record'.skipped + record'.retryable)

-- What the status of a record says.
abbrev pub StatusFits : OperationRecord → Type 0
StatusFits record' =
    (record'.status ≡ GcOperationStatus.failed)
    ⊎ ((record'.status ≡ GcOperationStatus.retry_pending) × (0 < record'.retryable))
    ⊎ ((record'.status ≡ GcOperationStatus.succeeded) × (record'.retryable ≡ 0))

abbrev Sound : Run → Type 0
Sound run = Counts run.0 × StatusFits run.0

-- ===== src/Gc/Admitted.antt =====
-- About which segments a run of the worker deletes (internal/gc/worker.go).
use namros.Base.{
  ℕ, String, ◌≡◌, ◌⊎◌, inl, inr, refl, sym, ◌∙◌, Bool, true, false, not, List, [], ◌∷◌, arith,
  Option, none, some, Option-cases, Bool-cases, if-cases, is_empty, eq_of_beq, eq_iff,
  string_equality,
}
use namros.Base.Maps.{Map}
use namros.Base.Sorting.{All, All-map}
use namros.Meta.Model.Segment.{Time, SegmentRef}
use namros.Meta.Model.Lock.{ProtectedRef}
use namros.Meta.ObjectLock.{protected_ref_active}
use namros.Meta.ObjectLock.Refs.{list_protected_refs, none_listed, is_asked_for}
use namros.Gc.{
  Worker, OperationRecord, AttemptStatus, GcCandidate, GcOperationRecord, status_for_record,
  Deletion, DeleteReason, acknowledge, add_attempt, admit_protected_ref_segment_delete,
  after_deletion, attempt, attempt_admitted, attempt_all, attempt_listed, find_resumed, finish,
  is_nil, no_record, reason_of, refs_of_segment, release_shared, run_once, run_resumed,
}

-- No protected reference to the segment is active; a segment without an identifier has none.
abbrev pub Unreferenced : Map String ProtectedRef → Time → SegmentRef → Type 0
Unreferenced refs now ref =
    (ref.segment_id ≡ "")
    ⊎ All (λ entry. entry.1.segment_id ≡ ref.segment_id → protected_ref_active entry.1 now ≡ false)
        refs

not_asked_for :
    (segment_id : String) (now : Time) (ref : ProtectedRef)
    → is_empty segment_id ≡ false
    → is_asked_for (refs_of_segment segment_id) now ref ≡ false
    → ref.segment_id ≡ segment_id
    → protected_ref_active ref now ≡ false
not_asked_for segment_id now ref given h e = ground (arith, h, eq_iff ref.segment_id segment_id)

nil_of : (refs : List ProtectedRef) → is_nil refs ≡ true → refs ≡ []
nil_of [] h = refl
nil_of (ref ∷ refs) h = cc h

admitted-Unreferenced :
    (refs : Map String ProtectedRef) (now : Time) (ref : SegmentRef)
    → admit_protected_ref_segment_delete refs now ref ≡ true
    → Unreferenced refs now ref
unfolding admit_protected_ref_segment_delete
admitted-Unreferenced refs now ref h = elim (Bool-cases (is_empty ref.segment_id)) [
  | inl blank ↦ inl (eq_of_beq ref.segment_id "" blank)
  | inr given ↦ inr (
      All-map refs (λ entry. not_asked_for ref.segment_id now entry.1 given)
        (none_listed refs now (refs_of_segment ref.segment_id) (
          nil_of (list_protected_refs refs now (refs_of_segment ref.segment_id))
            (sym (rw given refl) ∙ h))))
]

module _ {W : Type 0} (worker : Worker W) (refs : W → Map String ProtectedRef) (now : W → Time)
    (Q : W → Type 0)
    (admits : worker.admission
      ≡ some (λ ref w. (admit_protected_ref_segment_delete (refs w) (now w) ref, w)))
    (deletes : (delete_segment : SegmentRef → DeleteReason → W → Deletion × W)
      → worker.delete_segment ≡ some delete_segment
      → (ref : SegmentRef) (reason : DeleteReason) (w : W) → ref.shared_object_id ≡ ""
      → Unreferenced (refs w) (now w) ref
      → Q w
      → Q (delete_segment ref reason w).1)
    (releases : (release : SegmentRef → DeleteReason → W → Bool × W)
      → worker.put_shared_object_release ≡ some release
      → (ref : SegmentRef) (reason : DeleteReason) (w : W) → Q w
      → Q (release ref reason w).1)
    (acknowledges : (ack : SegmentRef → W → Bool × W)
      → worker.delete_gc_candidate ≡ some ack
      → (ref : SegmentRef) (w : W) → Q w
      → Q (ack ref w).1)
    (lists : (list : ℕ → W → Option (List GcCandidate) × W)
      → worker.list_gc_candidates ≡ some list
      → (limit : ℕ) (w : W) → Q w
      → Q (list limit w).1)
    (reads_history : (list : W → Option (List GcOperationRecord) × W)
      → worker.list_gc_operations ≡ some list
      → (w : W) → Q w
      → Q (list w).1)
    (stores : (put : OperationRecord → W → Bool × W)
      → worker.put_gc_operation ≡ some put
      → (record' : OperationRecord) (w : W) → Q w
      → Q (put record' w).1) where
  acknowledge-Keeps :
      (delete_segment : SegmentRef → DeleteReason → W → Deletion × W) (candidate : GcCandidate)
      (w : W)
      → Q w
      → Q (acknowledge worker delete_segment candidate w).1
  acknowledge-Keeps delete_segment candidate w q = elim (Option-cases worker.delete_gc_candidate) [
    | inl absent ↦ rw absent q
    | inr (ack, present) ↦
        let after = acknowledges ack present candidate.ref w q in
        rw present (
          if-cases (λ (r : AttemptStatus × W). Q r.1) (ack candidate.ref w).0
            (AttemptStatus.deleted, (ack candidate.ref w).1)
            (AttemptStatus.retryable, (ack candidate.ref w).1) (λ _. after) (λ _. after))
  ]

  after_deletion-Keeps :
      (delete_segment : SegmentRef → DeleteReason → W → Deletion × W) (candidate : GcCandidate)
      (deletion : Deletion) (w : W)
      → Q w
      → Q (after_deletion worker delete_segment candidate deletion w).1
  after_deletion-Keeps delete_segment candidate Deletion.refused w q = q
  after_deletion-Keeps delete_segment candidate Deletion.removed w q =
      acknowledge-Keeps delete_segment candidate w q
  after_deletion-Keeps delete_segment candidate Deletion.missing w q =
      acknowledge-Keeps delete_segment candidate w q

  release_shared-Keeps :
      (delete_segment : SegmentRef → DeleteReason → W → Deletion × W) (candidate : GcCandidate)
      (w : W)
      → Q w
      → Q (release_shared worker delete_segment candidate w).1
  release_shared-Keeps delete_segment candidate w q =
      elim (Option-cases worker.put_shared_object_release) [
        | inl absent ↦ rw absent q
        | inr (release, present) ↦
            let made : Bool × W = release candidate.ref (reason_of candidate.reason) w in
            let after = releases release present candidate.ref (reason_of candidate.reason) w q in
            rw present (
              if-cases (λ (r : AttemptStatus × W). Q r.1) made.0 (AttemptStatus.skipped, made.1)
                (AttemptStatus.retryable, made.1) (λ _. after) (λ _. after))
      ]

  module _ (delete_segment : SegmentRef → DeleteReason → W → Deletion × W)
      (present : worker.delete_segment ≡ some delete_segment) where
    attempt_admitted-Keeps :
        (candidate : GcCandidate) (w : W)
        → Unreferenced (refs w) (now w) candidate.ref
        → Q w
        → Q (attempt_admitted worker delete_segment candidate w).1
    unfolding attempt_admitted
    attempt_admitted-Keeps candidate w free q =
        let made : Deletion × W = delete_segment candidate.ref (reason_of candidate.reason) w in
        if-cases (λ (r : AttemptStatus × W). Q r.1) (not (is_empty candidate.ref.shared_object_id))
          (release_shared worker delete_segment candidate w)
          (after_deletion worker delete_segment candidate made.0 made.1)
          (λ _. release_shared-Keeps delete_segment candidate w q)
          (λ own. after_deletion-Keeps delete_segment candidate made.0 made.1 (
            deletes delete_segment present candidate.ref (reason_of candidate.reason) w
              (eq_of_beq candidate.ref.shared_object_id "" (ground arith)) free q))

    attempt-Keeps :
        (candidate : GcCandidate) (w : W) → Q w → Q (attempt worker delete_segment candidate w).1
    unfolding attempt
    attempt-Keeps candidate w q =
        let admitted : Bool = admit_protected_ref_segment_delete (refs w) (now w) candidate.ref in
        rw (admits, attempt)
          (if-cases (λ (r : AttemptStatus × W). Q r.1) admitted
            (attempt_admitted worker delete_segment candidate w) (AttemptStatus.skipped, w)
            (λ yes'.
              attempt_admitted-Keeps candidate w
                (admitted-Unreferenced (refs w) (now w) candidate.ref yes') q)
            (λ _. q))

    attempt_all-Keeps :
        (candidates : List GcCandidate) (record' : OperationRecord) (w : W)
        → Q w
        → Q (attempt_all worker delete_segment candidates record' w).1
    unfolding attempt_all
    attempt_all-Keeps [] record' w q = q
    attempt_all-Keeps (candidate ∷ candidates) record' w q =
        let (status, w') = attempt worker delete_segment candidate w in
        attempt_all-Keeps candidates (add_attempt candidate status record') w'
          (attempt-Keeps candidate w q)

  finish-Keeps : (record' : OperationRecord) (w : W) → Q w → Q (finish worker record' w).1
  finish-Keeps record' w q = elim (Option-cases worker.put_gc_operation) [
    | inl absent ↦ rw absent q
    | inr (put, present) ↦
        rw present
          (stores put present (record record' { status = status_for_record record' false }) w q)
  ]

  find_resumed-Keeps : (w : W) → Q w → Q (find_resumed worker w).1
  find_resumed-Keeps w q = elim (Option-cases worker.list_gc_operations) [
    | inl absent ↦ rw absent q
    | inr (list, present) ↦ rw present (reads_history list present w q)
  ]

  attempt_listed-Keeps :
      (delete_segment : SegmentRef → DeleteReason → W → Deletion × W)
      → worker.delete_segment ≡ some delete_segment
      → (record' : OperationRecord) (candidates : Option (List GcCandidate)) (w : W) → Q w
      → Q (attempt_listed worker delete_segment record' candidates w).1
  attempt_listed-Keeps delete_segment present record' none w q = q
  attempt_listed-Keeps delete_segment present record' (some candidates) w q =
      let (made, w') = attempt_all worker delete_segment candidates record' w in
      finish-Keeps made w' (attempt_all-Keeps delete_segment present candidates record' w q)

  run_resumed-Keeps :
      (delete_segment : SegmentRef → DeleteReason → W → Deletion × W)
      → worker.delete_segment ≡ some delete_segment
      → (list : ℕ → W → Option (List GcCandidate) × W) → worker.list_gc_candidates ≡ some list
      → (limit : ℕ) (resume_of : Option String) (w : W) → Q w
      → Q (run_resumed worker delete_segment list limit resume_of w).1
  run_resumed-Keeps delete_segment present list listing limit none w q = q
  run_resumed-Keeps delete_segment present list listing limit (some resume_of) w q =
      attempt_listed-Keeps delete_segment present
        (record no_record { resume_of_operation_id = resume_of }) (list limit w).0 (list limit w).1
        (lists list listing limit w q)

  -- A run of a worker whose admission is that of the gateway keeps every property of the stores that is
  -- kept by the deletion of a segment that is of no shared object and has no active protected reference
  -- when it is deleted, and by the worker's other calls: it deletes no other segment.
  pub run_once_deletes_unreferenced : (limit : ℕ) (w : W) → Q w → Q (run_once worker limit w).1
  unfolding run_once
  run_once_deletes_unreferenced limit w q = elim (Option-cases worker.delete_segment) [
    | inl absent ↦ rw (absent, run_once) q
    | inr (delete_segment, present) ↦ elim (Option-cases worker.list_gc_candidates) [
      | inl absent ↦ rw (present, run_once) (rw (absent, run_once) q)
      | inr (list, listing) ↦
          rw (present, run_once)
            (rw (listing, run_once)
              (run_resumed-Keeps delete_segment present list listing limit (find_resumed worker w).0
                (find_resumed worker w).1 (find_resumed-Keeps w q)))
    ]
  ]

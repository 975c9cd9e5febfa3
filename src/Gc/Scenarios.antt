-- ===== src/Gc/Scenarios.antt =====
-- A worker over one segment that a legal hold protects and one that nothing does.
use namros.Base.{
  ℕ, String, ◌≡◌, refl, sym, ◌∙◌, inl, inr, Bool, true, false, List, [], ◌∷◌, Option, none, some,
  if-cases, if◌then◌else◌, string_equality, ◌==◌, eq_of_beq, ne_of_beq, subst,
}
use namros.Base.Maps.{Map, some_injective}
use namros.Base.Sorting.{sort_slice}
use namros.Meta.Model.Segment.{SegmentRef}
use namros.Meta.Model.Lock.{ProtectedRef}
use namros.Meta.ObjectLock.{protected_ref_active}
use namros.Meta.Samples.{a_hold, a_segment}
use namros.Gc.{
  Worker, GcCandidate, Deletion, DeleteReason, admit_protected_ref_segment_delete, run_once,
}
use namros.Gc.Admitted.{Unreferenced, run_once_deletes_unreferenced}
use namros.Gc.Counts.{Counts}

-- Whether the segments `s` and `t` are stored.
record Shelf : Type 0 where
  s : Bool
  t : Bool

abbrev held : Map String ProtectedRef
held = ("r", a_hold) ∷ []

abbrev other_segment : SegmentRef
other_segment = record a_segment { segment_id = "t" }

abbrev take_away : SegmentRef → DeleteReason → Shelf → Deletion × Shelf
take_away ref reason shelf = (
  Deletion.removed,
  record {
    s = if ref.segment_id == "s" then false else shelf.s;
    t = if ref.segment_id == "t" then false else shelf.t;
  },
)

abbrev both : ℕ → Shelf → Option (List GcCandidate) × Shelf
both limit shelf = (
  some (
      record { ref = a_segment; reason = DeleteReason.unset }
      ∷ (record { ref = other_segment; reason = DeleteReason.unset } ∷ [])),
  shelf,
)

abbrev a_worker : Worker Shelf
a_worker = record {
  delete_segment = some take_away;
  list_gc_candidates = some both;
  admission = some (λ ref w. (admit_protected_ref_segment_delete held 5 ref, w));
  list_gc_operations = none;
  put_gc_operation = none;
  put_shared_object_release = none;
  delete_gc_candidate = none;
}

abbrev full : Shelf
full = record { s = true; t = true }

deletes_only_t : (run_once a_worker 10 full).1 ≡ record { s = true; t = false }
unfolding run_once admit_protected_ref_segment_delete protected_ref_active sort_slice
deletes_only_t = refl

counts_both : (run_once a_worker 10 full).0.0.scanned ≡ 2
unfolding run_once admit_protected_ref_segment_delete protected_ref_active sort_slice
counts_both = refl

not_the_held_segment : (ref : SegmentRef) → Unreferenced held 5 ref → ref.segment_id ≡ "s" → ⊥
unfolding protected_ref_active
not_the_held_segment ref (inl blank) e = ne_of_beq "s" "" refl (sym e ∙ blank)
not_the_held_segment ref (inr inactive) e = cc (inactive.0 (sym e))

abbrev HasS : Shelf → Type 0
HasS shelf = shelf.s ≡ true

take_away-HasS :
    (ref : SegmentRef) (reason : DeleteReason) (shelf : Shelf)
    → ref.shared_object_id ≡ ""
    → Unreferenced held 5 ref
    → HasS shelf
    → HasS (take_away ref reason shelf).1
take_away-HasS ref reason shelf own free there =
    if-cases (λ (b : Bool). b ≡ true) (ref.segment_id == "s") false shelf.s
      (λ hit. absurd (not_the_held_segment ref free (eq_of_beq ref.segment_id "s" hit)))
      (λ _. there)

run_once_deletes_unreferenced_example : HasS (run_once a_worker 10 full).1
run_once_deletes_unreferenced_example =
    run_once_deletes_unreferenced a_worker (λ w. held) (λ w. 5) HasS refl
      (λ delete_segment e ref reason w own free there.
        subst
          (λ (f : SegmentRef → DeleteReason → Shelf → Deletion × Shelf). HasS (f ref reason w).1)
          (some_injective e) (take_away-HasS ref reason w own free there))
      (λ release e. cc e) (λ ack e. cc e)
      (λ list e limit w there.
        subst (λ (f : ℕ → Shelf → Option (List GcCandidate) × Shelf). HasS (f limit w).1)
          (some_injective e) there)
      (λ list e. cc e) (λ put e. cc e) 10 full refl

-- ===== src/Meta/Objects/Deletes.antt =====
-- Deletions of objects, and the agreement of heads and versions
-- (internal/meta/memory/repository.go).
use namros.Base.{
  String, ◌≡◌, refl, inl, inr, Bool, true, false, Option, none, some, is_empty, if-cases,
  Bool-cases, string_equality, if◌then◌else◌, not,
}
use namros.Base.Maps.{delete, get-put_self}
use namros.Base.Exec.{
  Exec, Leaves, guard_then, lift_then, lift_then_, gets_then, modify_then, pure_then, then_where,
  modify_last,
}
use namros.Meta.Model.Object.{BucketVersioningState, ObjectHead}
use namros.Meta.Repository.{
  Repository, Env, ObjectKey, object_key_eq, version_key_eq, read_clock_then, draw_id_then,
}
use namros.Meta.Objects.{
  DeleteObjectRequest, DeleteResult, object_key, version_key, is_versioning_enabled,
  delete_version_record, delete_protected_refs_for_version, append_audit_event,
}
use namros.Meta.Objects.Delete.{
  admit_delete, delete_object_version, delete_marker_version, create_delete_marker,
  delete_versioned, delete_head_found, delete_unversioned, delete_in, delete_object,
}
use namros.Meta.Objects.Heads.{
  WellHeaded, put-AllNamed, delete-AllNamed, Untouched-put, Untouched-delete, WellHeaded-delete,
}
use namros.Meta.Objects.Ready.{HeadsAgree, DrawsNames, no_change, set_head-HeadsAgree}
use namros.Meta.Objects.Promotion.{promote_after-HeadsAgree}

-- The same heads and versions.
pub record SameObjects (r r' : Repository) : Type 0 where
  pub heads : r'.heads ≡ r.heads
  pub versions : r'.versions ≡ r.versions

pub same-HeadsAgree : (r r' : Repository) → SameObjects r r' → HeadsAgree r → HeadsAgree r'
same-HeadsAgree r r' same w = rw (same.heads, same.versions) w

-- Admission writes the audit log at most.
pub admit_delete-SameObjects :
    (env : Env) (req : DeleteObjectRequest) (target id : String) (protected beyond : Bool)
    (r : Repository)
    → Leaves (SameObjects r) (admit_delete env req target id protected beyond) r
unfolding admit_delete append_audit_event
admit_delete-SameObjects env req target id true beyond r =
    guard_then _ (record { heads = refl; versions = refl })
      λ _. modify_last _ (record { heads = refl; versions = refl })
admit_delete-SameObjects env req target id false beyond r =
    pure_then _ (record { heads = refl; versions = refl })

delete_object_version-HeadsAgree :
    (env : Env) (req : DeleteObjectRequest) (r : Repository)
    → HeadsAgree r
    → Leaves HeadsAgree (delete_object_version env req) r
unfolding delete_object_version delete_protected_refs_for_version
delete_object_version-HeadsAgree env req r w =
    let k = object_key req.bucket_id req.key in
    gets_then _ _ (
      lift_then w λ deleted _. gets_then _ _ (
        lift_then_ w λ _ _. read_clock_then env _ (
          then_where _ _
            (admit_delete-SameObjects env req "object_version" deleted.version_id _ _ _)
            (λ r' same.
              same-HeadsAgree r r' (record { heads = same.heads; versions = same.versions }) w)
            λ r' same. modify_then _ (
              modify_then _ (
                modify_then _ (
                  pure_then _ (
                    promote_after-HeadsAgree r.versions k req.version_id _ (rw same.heads w)
                      (rw same.versions refl))))))))

create_delete_marker-HeadsAgree :
    (env : Env) (k : ObjectKey) (r : Repository)
    → DrawsNames env
    → HeadsAgree r
    → Leaves HeadsAgree (create_delete_marker env k) r
unfolding create_delete_marker delete_marker_version
create_delete_marker-HeadsAgree env k r names w = read_clock_then env _ (
    draw_id_then env _ _ _ _ (λ d. w)
      λ id d d' fresh drawn. modify_then _ (
        modify_then _ (
          pure_then _ (
            set_head-HeadsAgree r.versions k _ (env.now r.clock_reads) _ record {
              agreed = w;
              untouched = Untouched-put k id _ r.versions r.versions (no_change k r.versions);
              named = put-AllNamed (version_key k id) _ r.versions w.named (record {
                bucket_id = refl;
                key = refl;
                version_id = refl;
                id = names d' id drawn;
              });
              there = get-put_self (version_key k id) _ r.versions;
              committed = refl;
            }))))

deleted_head-HeadsAgree :
    (k : ObjectKey) (i : String) (r : Repository)
    → HeadsAgree r
    → WellHeaded
        (delete k r.heads)
        (if is_empty i then r.versions else delete (version_key k i) r.versions)
deleted_head-HeadsAgree k i r w = elim (Bool-cases (is_empty i)) [
  | inl unnamed ↦
      rw unnamed
        (WellHeaded-delete r.heads r.versions r.versions k w (no_change k r.versions) w.named)
  | inr named ↦ rw named (
      WellHeaded-delete r.heads r.versions (delete (version_key k i) r.versions) k w
        (Untouched-delete k i r.versions r.versions (no_change k r.versions))
        (delete-AllNamed (version_key k i) r.versions w.named))
]

delete_head_found-HeadsAgree :
    (env : Env) (req : DeleteObjectRequest) (k : ObjectKey) (o : Option ObjectHead) (r : Repository)
    → HeadsAgree r
    → Leaves HeadsAgree (delete_head_found env req k o) r
unfolding delete_version_record delete_protected_refs_for_version
delete_head_found-HeadsAgree env req k none r w = pure_then _ w
delete_head_found-HeadsAgree env req k (some head) r w = gets_then _ _ (
    lift_then_ w λ _ _. read_clock_then env _ (
      then_where _ _ (admit_delete-SameObjects env req "object_head" head.version_id _ _ _)
        (λ r' same.
          same-HeadsAgree r r' (record { heads = same.heads; versions = same.versions }) w)
        λ r' same. modify_then _ (
          gets_then _ _ (
            modify_then _ (
              modify_then _ (
                pure_then _ (
                  deleted_head-HeadsAgree k head.version_id r' (
                    same-HeadsAgree r r' (record { heads = same.heads; versions = same.versions })
                      w))))))))

delete_in-HeadsAgree :
    (env : Env) (req : DeleteObjectRequest) (versioning : BucketVersioningState) (r : Repository)
    → DrawsNames env
    → HeadsAgree r
    → Leaves HeadsAgree (delete_in env req versioning) r
delete_in-HeadsAgree env req versioning r names w =
    let k = object_key req.bucket_id req.key in
    let Agreeing = λ (m : Exec Repository DeleteResult). Leaves HeadsAgree m r in
    if-cases Agreeing (not (is_empty req.version_id)) _ _
      (λ _. delete_object_version-HeadsAgree env req r w)
      (λ _.
        if-cases Agreeing (is_versioning_enabled versioning) (delete_versioned env k)
          (delete_unversioned env req k)
          (λ _. gets_then _ _ (lift_then_ w λ _ _. create_delete_marker-HeadsAgree env k r names w))
          (λ _. gets_then _ _ (delete_head_found-HeadsAgree env req k _ r w)))

pub delete_object-HeadsAgree :
    (env : Env) (req : DeleteObjectRequest) (r : Repository)
    → DrawsNames env
    → HeadsAgree r
    → Leaves HeadsAgree (delete_object env req) r
unfolding delete_object
delete_object-HeadsAgree env req r names w = guard_then _ w λ _.
    gets_then _ _
      (lift_then w λ bucket _. delete_in-HeadsAgree env req bucket.versioning_state r names w)

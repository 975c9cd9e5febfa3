-- ===== src/Meta/Objects/Buckets.antt =====
-- The buckets during a deletion of objects (internal/meta/memory/repository.go).
use namros.Base.{◌≡◌, refl, ◌∙◌, not, Option, none, some, is_empty, if-cases, string_equality}
use namros.Base.Exec.{
  Exec, Leaves, guard_then, lift_then, lift_then_, gets_then, modify_then, pure_then,
}
use namros.Meta.Model.Object.{BucketVersioningState, ObjectHead}
use namros.Meta.Repository.{
  Repository, Env, ObjectKey, object_key_eq, read_clock_then, draw_id_then,
}
use namros.Base.Maps.{get}
use namros.Meta.Objects.{
  DeleteObjectRequest, DeleteResult, object_key, set_head, is_versioning_enabled,
  delete_version_record, delete_protected_refs_for_version,
}
use namros.Meta.Objects.Delete.{
  delete_object_version, create_delete_marker, delete_versioned, delete_head_found,
  delete_unversioned, delete_in, delete_object,
}
use namros.Meta.Objects.Admission.{admit_delete_then, promote_after-Quiet}

abbrev pub SameBuckets : Repository → Repository → Type 0
SameBuckets r r' = r'.buckets_by_id ≡ r.buckets_by_id

module _ (env : Env) (req : DeleteObjectRequest) (r : Repository) where
  delete_object_version-SameBuckets : Leaves (SameBuckets r) (delete_object_version env req) r
  unfolding delete_object_version delete_protected_refs_for_version
  delete_object_version-SameBuckets = gets_then _ _ (
      lift_then refl λ deleted at. gets_then _ _ (
        lift_then_ refl λ _ _. read_clock_then env _ (
          admit_delete_then env req "object_version" deleted.version_id _ _ _ _ refl λ r1 admitted.
            modify_then _ (
              modify_then _ (
                modify_then _ (
                  pure_then _ (
                    (promote_after-Quiet (object_key req.bucket_id req.key) req.version_id _).2
                    ∙ admitted.buckets)))))))

  create_delete_marker-SameBuckets :
      (k : ObjectKey) → Leaves (SameBuckets r) (create_delete_marker env k) r
  unfolding create_delete_marker set_head
  create_delete_marker-SameBuckets k = read_clock_then env _ (
      draw_id_then env _ _ _ _ (λ d. refl)
        λ id d d' fresh drawn. modify_then _ (modify_then _ (pure_then _ refl)))

  delete_head_found-SameBuckets :
      (k : ObjectKey) (o : Option ObjectHead)
      → Leaves (SameBuckets r) (delete_head_found env req k o) r
  unfolding delete_version_record delete_protected_refs_for_version
  delete_head_found-SameBuckets k none = pure_then _ refl
  delete_head_found-SameBuckets k (some head) = gets_then _ _ (
      lift_then_ refl λ _ _. read_clock_then env _ (
        admit_delete_then env req "object_head" head.version_id _ _ _ _ refl λ r1 admitted.
          modify_then _
            (gets_then _ _ (modify_then _ (modify_then _ (pure_then _ admitted.buckets))))))

  delete_in-SameBuckets :
      (versioning : BucketVersioningState) → Leaves (SameBuckets r) (delete_in env req versioning) r
  delete_in-SameBuckets versioning =
      let k = object_key req.bucket_id req.key in
      let Good = λ (m : Exec Repository DeleteResult). Leaves (SameBuckets r) m r in
      if-cases Good (not (is_empty req.version_id)) _ _ (λ _. delete_object_version-SameBuckets)
        (λ _.
          if-cases Good (is_versioning_enabled versioning) (delete_versioned env k)
            (delete_unversioned env req k)
            (λ _. gets_then _ _ (lift_then_ refl λ _ _. create_delete_marker-SameBuckets k))
            (λ _. gets_then _ _ (delete_head_found-SameBuckets k (get k r.heads))))

  pub delete_object-SameBuckets : Leaves (SameBuckets r) (delete_object env req) r
  unfolding delete_object
  delete_object-SameBuckets =
      guard_then _ refl λ _.
        gets_then _ _ (lift_then refl λ bucket _. delete_in-SameBuckets bucket.versioning_state)

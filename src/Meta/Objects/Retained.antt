-- ===== src/Meta/Objects/Retained.antt =====
-- Deletions of objects, and object lock (internal/meta/memory/repository.go).
use namros.Base.{
  ◌+◌, String, ◌≡◌, ◌≢◌, refl, sym, ◌∙◌, inl, inr, Bool, true, false, not, Option, none, some,
  arith, is_empty, if-cases, if◌then◌else◌, Bool-cases, eq_of_beq, ne_of_beq, ap, ◌==◌,
  string_equality,
}
use namros.Base.Maps.{Map, get, delete, get-put_ne, get-delete_ne}
use namros.Base.Exec.{
  Exec, Leaves, guard_then, lift_then, lift_then_, gets_then, modify_then, pure_then, ok,
}
use namros.Meta.Model.Object.{BucketVersioningState, ObjectVersion, ObjectHead}
use namros.Meta.ObjectLock.{object_lock_protected, object_version_protected_by_object_lock}
use namros.Meta.Multipart.{found}
use namros.Meta.Repository.{
  Repository, Env, ObjectKey, VersionKey, object_key_eq, version_key_eq, has, read_clock_then,
  draw_id_then,
}
use namros.Meta.Objects.{
  DeleteObjectRequest, DeleteResult, object_key, version_key, head_from_version, set_head,
  is_versioning_enabled, delete_version_record, delete_protected_refs_for_version,
}
use namros.Meta.Objects.Delete.{
  delete_object_version, create_delete_marker, delete_versioned, delete_head_found,
  delete_unversioned, delete_in, delete_object,
}
use namros.Meta.Objects.Ready.{HeadsAgree}
use namros.Meta.Objects.Admission.{Admitted, admit_delete_then, Outcome, promote_after-Quiet}

if_not : {A : Type 0} (b : Bool) (x y : A) → b ≡ false → (if b then x else y) ≡ y
if_not b x y h = rw h refl

-- An identifier that was not taken names no stored version.
taken_ne :
    (m : Map VersionKey ObjectVersion) (v : ObjectVersion) (vk other : VersionKey)
    → has other m ≡ false
    → get vk m ≡ some v
    → other ≢ vk
taken_ne m v vk other fresh there e = ground (arith, e)

found_ok : (o : Option ObjectVersion) (v : ObjectVersion) → found o ≡ ok v → o ≡ some v
found_ok none v h = cc h
found_ok (some u) v h = ground arith

module _ (env : Env) (req : DeleteObjectRequest) (r : Repository) (vk : VersionKey)
    (v : ObjectVersion) (w : HeadsAgree r) (there : get vk r.versions ≡ some v)
    (locked : object_version_protected_by_object_lock v (env.now r.clock_reads) false ≡ true) where
  -- The version is deleted after admission.
  deleted-Outcome :
      (i id : String) (protected beyond : Bool) (r1 r2 : Repository)
      → Admitted req id protected beyond (record r { clock_reads = r.clock_reads + 1 }) r1
      → r2.versions ≡ delete (version_key (object_key req.bucket_id req.key) i) r1.versions
      → r2.audit_events ≡ r1.audit_events
      → (version_key (object_key req.bucket_id req.key) i ≡ vk
          → (id ≡ i)
            × (protected ≡ true)
            × (beyond ≡ object_version_protected_by_object_lock v (env.now r.clock_reads) true))
      → Outcome req vk v (env.now r.clock_reads) r r2
  deleted-Outcome i id protected beyond r1 r2 admitted gone log aimed =
      let k = object_key req.bucket_id req.key in
      elim (Bool-cases (version_key k i == vk)) [
        | inl hit ↦
            let e = eq_of_beq (version_key k i) vk hit in
            let (own, p, q) = aimed e in
            let b = admitted.bypass p in
            let (event, logged, action, bucket, key, event_id, principal) = b.logged in
            inr (
              sym (ap (λ (x : VersionKey). x.bucket_id) e),
              sym (ap (λ (x : VersionKey). x.key) e),
              record {
                asked = b.asked;
                audited = b.audited;
                within = sym q ∙ b.within;
                logged = (
                  event,
                  log ∙ logged,
                  action,
                  bucket,
                  key,
                  event_id ∙ own ∙ ap (λ (x : VersionKey). x.version_id) e,
                  principal,
                );
              },
            )
        | inr miss ↦ inl (
            ap (λ (m : Map VersionKey ObjectVersion). get vk m)
              (gone
                ∙ ap (λ (m : Map VersionKey ObjectVersion). delete (version_key k i) m)
                    admitted.versions)
            ∙ (get-delete_ne (version_key k i) vk r.versions (ne_of_beq (version_key k i) vk miss)
                ∙ there))
      ]

  -- The version that is named is the one that is read.
  named_target :
      (deleted : ObjectVersion)
      → get (version_key (object_key req.bucket_id req.key) req.version_id) r.versions
        ≡ some deleted
      → version_key (object_key req.bucket_id req.key) req.version_id ≡ vk
      → (deleted.version_id ≡ req.version_id)
        × (object_version_protected_by_object_lock deleted (env.now r.clock_reads) false ≡ true)
        × (object_version_protected_by_object_lock deleted (env.now r.clock_reads) true
            ≡ object_version_protected_by_object_lock v (env.now r.clock_reads) true)
  named_target deleted at e =
      let same : deleted ≡ v = cc (at, there, e) in
      (
        (w.named.each _ deleted at).version_id,
        ap
              (λ (x : ObjectVersion).
                object_version_protected_by_object_lock x (env.now r.clock_reads) false)
              same
            ∙ locked,
        ap
            (λ (x : ObjectVersion).
              object_version_protected_by_object_lock x (env.now r.clock_reads) true)
            same,
      )

  delete_object_version-Outcome :
      Leaves (Outcome req vk v (env.now r.clock_reads) r) (delete_object_version env req) r
  unfolding delete_object_version delete_protected_refs_for_version
  delete_object_version-Outcome =
      let k = object_key req.bucket_id req.key in
      gets_then _ _ (
        lift_then (inl there) λ deleted at. gets_then _ _ (
          lift_then_ (inl there) λ _ _. read_clock_then env _ (
            admit_delete_then env req "object_version" deleted.version_id _ _ _ _ (inl there)
              λ r1 admitted. modify_then _ (
                modify_then _ (
                  modify_then _ (
                    pure_then _ (
                      let quiet = promote_after-Quiet k req.version_id _ in
                      deleted-Outcome req.version_id deleted.version_id _ _ r1 _ admitted quiet.0
                        quiet.1 (named_target deleted (found_ok _ deleted at)))))))))

  create_delete_marker-Outcome :
      (k : ObjectKey)
      → Leaves (Outcome req vk v (env.now r.clock_reads) r) (create_delete_marker env k) r
  unfolding create_delete_marker set_head
  create_delete_marker-Outcome k = read_clock_then env _ (
      draw_id_then env _ _ _ _ (λ d. inl there)
        λ id d d' fresh drawn. modify_then _ (
          modify_then _ (
            pure_then _ (
              inl (
                get-put_ne (version_key k id) vk _ r.versions
                  (taken_ne r.versions v vk (version_key k id) fresh there)
                ∙ there)))))

  -- The head shows the version under its lock.
  shown_lock :
      (head : ObjectHead) (bypass : Bool)
      → get (object_key req.bucket_id req.key) r.heads ≡ some head
      → version_key (object_key req.bucket_id req.key) head.version_id ≡ vk
      → object_lock_protected head.delete_marker head.object_lock_retention
          head.object_lock_legal_hold
          (env.now r.clock_reads)
          bypass
        ≡ object_version_protected_by_object_lock v (env.now r.clock_reads) bypass
  unfolding object_version_protected_by_object_lock head_from_version
  shown_lock head bypass at e =
      let (u, stored, done, agrees) = w.backed (object_key req.bucket_id req.key) head at in
      let same : u ≡ v = cc (stored, there, e) in
      ap
        (λ (h : ObjectHead).
          object_lock_protected h.delete_marker h.object_lock_retention h.object_lock_legal_hold
            (env.now r.clock_reads) bypass)
        agrees
      ∙ ap
          (λ (x : ObjectVersion).
            object_lock_protected x.delete_marker x.object_lock_retention x.object_lock_legal_hold
              (env.now r.clock_reads) bypass)
          same

  named_head :
      (head : ObjectHead)
      → get (object_key req.bucket_id req.key) r.heads ≡ some head
      → is_empty head.version_id ≡ false
  named_head head at =
      let (u, stored, done, agrees) = w.backed (object_key req.bucket_id req.key) head at in
      (w.named.each _ u stored).id

  delete_head_found-Outcome :
      (o : Option ObjectHead)
      → get (object_key req.bucket_id req.key) r.heads ≡ o
      → Leaves
          (Outcome req vk v (env.now r.clock_reads) r)
          (delete_head_found env req (object_key req.bucket_id req.key) o)
          r
  unfolding delete_version_record delete_protected_refs_for_version
  delete_head_found-Outcome none missing = pure_then _ (inl there)
  delete_head_found-Outcome (some head) at =
      let k = object_key req.bucket_id req.key in
      gets_then _ _ (
        lift_then_ (inl there) λ _ _. read_clock_then env _ (
          admit_delete_then env req "object_head" head.version_id _ _ _ _ (inl there) λ r1 admitted.
            modify_then _ (
              gets_then _ _ (
                modify_then _ (
                  modify_then _ (
                    pure_then _ (
                      deleted-Outcome head.version_id head.version_id _ _ r1 _ admitted
                        (if_not (is_empty head.version_id) r1.versions _ (named_head head at)) refl
                        λ e. (
                          refl,
                          shown_lock head false at e ∙ locked,
                          shown_lock head true at e,
                        ))))))))

  delete_in-Outcome :
      (versioning : BucketVersioningState)
      → Leaves (Outcome req vk v (env.now r.clock_reads) r) (delete_in env req versioning) r
  delete_in-Outcome versioning =
      let k = object_key req.bucket_id req.key in
      let Good = λ (m : Exec Repository DeleteResult).
        Leaves (Outcome req vk v (env.now r.clock_reads) r) m r in
      if-cases Good (not (is_empty req.version_id)) _ _ (λ _. delete_object_version-Outcome)
        (λ _.
          if-cases Good (is_versioning_enabled versioning) (delete_versioned env k)
            (delete_unversioned env req k)
            (λ _. gets_then _ _ (lift_then_ (inl there) λ _ _. create_delete_marker-Outcome k))
            (λ _. gets_then _ _ (delete_head_found-Outcome (get k r.heads) refl)))

-- Where heads and versions agree and a version is protected at the clock reading of the deletion
-- against a caller with no bypass, `DeleteObject` either leaves the version stored unchanged, or was
-- asked for that object with the governance bypass and a valid bypass audit, the version was not
-- protected against the bypass, and the audit log has grown by one event that names the version and
-- the principal.
pub delete_object_keeps_protected :
    (env : Env) (req : DeleteObjectRequest) (r : Repository) (vk : VersionKey) (v : ObjectVersion)
    → HeadsAgree r
    → get vk r.versions ≡ some v
    → object_version_protected_by_object_lock v (env.now r.clock_reads) false ≡ true
    → Outcome req vk v (env.now r.clock_reads) r (delete_object env req r).1
unfolding delete_object
delete_object_keeps_protected env req r vk v w there locked =
    let kept = guard_then {Q = Outcome req vk v (env.now r.clock_reads) r} _ (inl there) λ _.
      gets_then _ _ (
        lift_then (inl there)
          λ bucket _. delete_in-Outcome env req r vk v w there locked bucket.versioning_state) in
    kept.holds

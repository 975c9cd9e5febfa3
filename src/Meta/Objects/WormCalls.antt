-- ===== src/Meta/Objects/WormCalls.antt =====
-- Sequences of object calls, and versions under compliance retention
-- (internal/meta/memory/repository.go).
use namros.Base.{
  ℕ, ◌<◌, String, ◌≡◌, refl, ap, ◌∙◌, ◌⊎◌, inl, inr, Bool, true, false, not, ◌||◌, some, List, [],
  ◌∷◌, arith, Bool-cases, string_equality,
}
use namros.Base.Maps.{Map, get, put}
use namros.Base.Exec.{Exec, Leaves, guard_then, lift_then_, modify_then, modify_last, ◌>>◌}
use namros.Meta.Model.Segment.{Time}
use namros.Meta.Model.Lock.{ObjectLockRetention}
use namros.Meta.Model.Object.{Bucket, ObjectVersion, AuditEvent}
use namros.Meta.ObjectLock.{retention_update_blocked, valid_governance_bypass_audit}
use namros.Meta.Repository.{
  Repository, Env, VersionKey, object_key_eq, version_key_eq, read_clock_then,
}
use namros.Meta.Objects.{
  object_key, version_key, store_version, is_versioning_enabled, sync_protected_refs,
  append_audit_event,
}
use namros.Meta.Objects.Put.{versioning_of}
use namros.Meta.Objects.Lock.{
  ObjectRetentionRequest, ObjectLegalHoldRequest, update_head_object_lock, admit_retention,
  store_lock, put_object_retention, put_object_legal_hold,
}
use namros.Meta.Objects.Ready.{HeadsAgree, DrawsNames}
use namros.Meta.Objects.Holds.{held, object_lock_target_then}
use namros.Meta.Objects.Worm.{
  Stored, Worm, Stored-put, begin_put_object-Worm, commit_object_version-Worm,
  put_object_version-Worm,
}
use namros.Meta.Objects.WormChanges.{
  unblocked-Kept, held-Kept, read-Kept, lock_head-Worm, delete_object-Worm, put_object_tags-Worm,
}
use namros.Meta.Objects.Calls.{
  ObjectCall, begin, commit, put_version, delete_one, put_tags, put_retention, put_legal_hold,
  apply_call, apply_calls, apply_call-HeadsAgree,
}

-- The check of a retention update lets nothing through that is blocked for the caller.
admit_retention_then :
    {B : Type 0} {Q : Repository → Type 0} (env : Env) (format_time : Time → String)
    (req : ObjectRetentionRequest) (v : ObjectVersion) (blocked beyond : Bool)
    (n : Exec Repository B) (r : Repository)
    → Q r
    → ((r' : Repository)
        → r'.versions ≡ r.versions
        → r'.buckets_by_id ≡ r.buckets_by_id
        → (blocked ≡ false) ⊎ (beyond ≡ false)
        → Leaves Q n r')
    → Leaves Q (admit_retention env format_time req v blocked beyond >> n) r
unfolding admit_retention append_audit_event ◌>>◌
admit_retention_then env format_time req v false beyond n r stop go = record {
  holds = (go r refl refl (inl refl)).holds;
}
admit_retention_then env format_time req v true beyond n r stop go =
    elim (Bool-cases (
      not (
        beyond
        || (not req.bypass_governance_retention
            || not (valid_governance_bypass_audit req.bypass_audit))))) [
              | inl passed ↦ record {
                holds = rw passed (go _ refl refl (inr (ground arith))).holds;
              }
              | inr refused ↦ record { holds = rw refused stop }
            ]

module _ (end : Time) (vk : VersionKey) (v0 : ObjectVersion) (env : Env) where
  store_lock-Worm :
      (r s : Repository) (other : VersionKey) (v : ObjectVersion) (now : Time)
      → Worm end vk v0 r (store_version other v s)
      → Worm end vk v0 r (store_lock env other v now s)
  unfolding store_lock update_head_object_lock sync_protected_refs
  store_lock-Worm r s other v now stored =
      let k = object_key v.bucket_id v.key in
      let locked =
        lock_head-Worm end vk v0 r (store_version other v s) k v (get k s.heads) stored in
      record { buckets = locked.buckets; stored = locked.stored }

  logged-Worm :
      (event : AuditEvent) (r s : Repository)
      → Worm end vk v0 r s
      → Worm end vk v0 r (append_audit_event env event s)
  unfolding append_audit_event
  logged-Worm event r s w = record { buckets = w.buckets; stored = w.stored }

  module _ (r : Repository) (early : (n : ℕ) → env.now n < end)
      (w : Stored end vk v0 r.versions) where
    -- The retention of a version is replaced by one that the check let through.
    updated-Stored :
        (other : VersionKey) (u : ObjectVersion) (next : ObjectLockRetention) (n : ℕ)
        → get other r.versions ≡ some u
        → (retention_update_blocked u.object_lock_retention next (env.now n) false ≡ false)
          ⊎ (retention_update_blocked u.object_lock_retention next (env.now n) true ≡ false)
        → Stored end vk v0 (put other (held u next u.object_lock_legal_hold) r.versions)
    updated-Stored other u next n at allowed =
        Stored-put end vk v0 other _ r.versions w λ v e there kept.
          let same = read-Kept end vk v0 other u v r.versions at e there kept in
          elim allowed [
            | inl plainly ↦ unblocked-Kept end (env.now n) v0 u next false same (early n) plainly
            | inr bypassing ↦ unblocked-Kept end (env.now n) v0 u next true same (early n) bypassing
          ]

    put_object_retention-Worm :
        (format_time : Time → String) (req : ObjectRetentionRequest)
        → Leaves (Worm end vk v0 r) (put_object_retention env format_time req) r
    unfolding put_object_retention
    put_object_retention-Worm format_time req =
        let k = object_key req.bucket_id req.key in
        guard_then _ (record { buckets = refl; stored = w })
          λ _.
            lift_then_ (record { buckets = refl; stored = w })
              λ _ _. read_clock_then env _ (
                guard_then _ (record { buckets = refl; stored = w })
                  λ _.
                    object_lock_target_then k req.version_id _ _
                      (record { buckets = refl; stored = w })
                      λ id u at done. read_clock_then env _ (
                        admit_retention_then env format_time req u _ _ _ _
                          (record { buckets = refl; stored = w })
                          λ r' versions buckets allowed. modify_then _ (
                            modify_last _ (
                              logged-Worm _ r _ (
                                store_lock-Worm r r' (version_key k id) _ _ (record {
                                  buckets = buckets;
                                  stored = rw versions (
                                      updated-Stored (version_key k id) u req.retention _ at
                                        allowed);
                                }))))))

    put_object_legal_hold-Worm :
        (req : ObjectLegalHoldRequest) → Leaves (Worm end vk v0 r) (put_object_legal_hold env req) r
    unfolding put_object_legal_hold
    put_object_legal_hold-Worm req =
        let k = object_key req.bucket_id req.key in
        guard_then _ (record { buckets = refl; stored = w })
          λ _.
            guard_then _ (record { buckets = refl; stored = w })
              λ _.
                object_lock_target_then k req.version_id _ _ (record { buckets = refl; stored = w })
                  λ id u at done. read_clock_then env _ (
                    modify_then _ (
                      modify_last _ (
                        logged-Worm _ r _ (
                          store_lock-Worm r _ (version_key k id) _ _ (record {
                            buckets = refl;
                            stored =
                                Stored-put end vk v0 (version_key k id) _ r.versions w
                                  λ v e there kept. held-Kept end v0 u req.legal_hold (
                                    read-Kept end vk v0 (version_key k id) u v r.versions at e there
                                      kept);
                          })))))

    apply_call-Worm :
        (format_time : Time → String) (call : ObjectCall)
        → HeadsAgree r
        → is_versioning_enabled (versioning_of (get vk.bucket_id r.buckets_by_id)) ≡ true
        → Worm end vk v0 r (apply_call env format_time call r)
    unfolding apply_call
    apply_call-Worm format_time (begin req) agree enabled =
        (begin_put_object-Worm end vk v0 env r w enabled req).holds
    apply_call-Worm format_time (commit req) agree enabled =
        (commit_object_version-Worm end vk v0 env r w enabled req).holds
    apply_call-Worm format_time (put_version req) agree enabled =
        (put_object_version-Worm end vk v0 env r w enabled req).holds
    apply_call-Worm format_time (delete_one req) agree enabled =
        delete_object-Worm end vk v0 env r early w req agree
    apply_call-Worm format_time (put_tags req) agree enabled =
        (put_object_tags-Worm end vk v0 env r early w req).holds
    apply_call-Worm format_time (put_retention req) agree enabled =
        (put_object_retention-Worm format_time req).holds
    apply_call-Worm format_time (put_legal_hold req) agree enabled =
        (put_object_legal_hold-Worm req).holds

-- In a bucket with versioning enabled, as object lock requires, a committed version that is no delete
-- marker and under compliance retention until `end` or later is still stored, under such a retention
-- and with its size, ETag and segments, after any sequence of writes, deletions (the governance bypass
-- included) and changes of tags, retention and legal hold, if every reading of the clock is before
-- `end`, heads and versions agree at the start, and the generator never draws the empty identifier.
pub compliance_version_stays :
    (end : Time) (vk : VersionKey) (v0 : ObjectVersion) (env : Env) (format_time : Time → String)
    (calls : List ObjectCall) (r : Repository)
    → DrawsNames env
    → ((n : ℕ) → env.now n < end)
    → HeadsAgree r
    → is_versioning_enabled (versioning_of (get vk.bucket_id r.buckets_by_id)) ≡ true
    → Stored end vk v0 r.versions
    → Stored end vk v0 (apply_calls env format_time calls r).versions
unfolding apply_calls
compliance_version_stays end vk v0 env format_time [] r names early agree enabled w = w
compliance_version_stays end vk v0 env format_time (call ∷ calls) r names early agree enabled w =
    let next = apply_call-Worm end vk v0 env r early w format_time call agree enabled in
    compliance_version_stays end vk v0 env format_time calls (apply_call env format_time call r)
      names early (apply_call-HeadsAgree env format_time call r names agree)
      (ap (λ (m : Map String Bucket). is_versioning_enabled (versioning_of (get vk.bucket_id m)))
          next.buckets
        ∙ enabled)
      next.stored

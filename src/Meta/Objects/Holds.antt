-- ===== src/Meta/Objects/Holds.antt =====
-- Changes of retention or legal hold, and the agreement of heads and versions
-- (internal/meta/memory/repository.go).
use namros.Base.{
  String, ◌≡◌, refl, sym, subst, ◌∙◌, ◌⊎◌, inl, inr, Bool, true, false, Option, none, some, arith,
  if-cases, eq_of_beq, ne_of_beq, ap, ◌==◌, string_equality,
}
use namros.Base.Maps.{Map, get}
use namros.Base.Exec.{
  Err, ok, err, Exec, Leaves, guard_then, lift_then_, modify_then, pure_then, modify_last,
  then_where, Result-cases, ◌>>=◌,
}
use namros.Meta.Model.Segment.{Time}
use namros.Meta.Model.Lock.{ObjectLockRetention, LegalHold}
use namros.Meta.Model.Object.{ObjectVersion, ObjectHead, AuditEvent}
use namros.Meta.Repository.{
  Repository, Env, ObjectKey, VersionKey, object_key_eq, version_key_eq, read_clock_then,
}
use namros.Meta.Objects.{
  object_key, version_key, head_from_version, set_head, store_version, is_committed,
  sync_protected_refs, append_audit_event,
}
use namros.Meta.Objects.Lock.{
  ObjectRetentionRequest, ObjectLegalHoldRequest, lockable, target_version_id, object_lock_target,
  lock_head, update_head_object_lock, admit_retention, store_lock, put_object_retention,
  put_object_legal_hold,
}
use namros.Meta.Objects.Ready.{HeadsAgree}
use namros.Meta.Objects.Deletes.{SameObjects, same-HeadsAgree}
use namros.Meta.Objects.Changes.{changed_other, changed_head, renamed, id_of}

abbrev pub held : ObjectVersion → ObjectLockRetention → LegalHold → ObjectVersion
held v retention hold = record v {
  object_lock_retention = retention;
  object_lock_legal_hold = hold;
}

lockable_ok :
    (o : Option ObjectVersion) (v : ObjectVersion)
    → lockable o ≡ ok v
    → (o ≡ some v) × (is_committed v.state ≡ true) × (v.delete_marker ≡ false)
lockable_ok none v h = cc h
lockable_ok (some u) v h = (ground arith, ground arith, ground arith)

-- What a lookup of the target gives: an error, or a committed version that is no delete marker.
pub object_lock_target-cases :
    (k : ObjectKey) (version_id : String) (r : Repository)
    → ((e : Err) × (object_lock_target k version_id r ≡ (err e, r)))
      ⊎ ((id : String) × (v : ObjectVersion) × (object_lock_target k version_id r ≡ (ok (id, v), r))
          × (get (version_key k id) r.versions ≡ some v)
          × (is_committed v.state ≡ true)
          × (v.delete_marker ≡ false))
unfolding object_lock_target ◌>>=◌
object_lock_target-cases k version_id r = elim (Result-cases (target_version_id k version_id r)) [
  | inl (e, failed) ↦ rw (failed, ◌>>=◌) (inl (e, refl))
  | inr (id, named) ↦ elim (Result-cases (lockable (get (version_key k id) r.versions))) [
    | inl (e, failed) ↦ inl (e, rw (named, ◌>>=◌) (rw (failed, ◌>>=◌) refl))
    | inr (v, lockable_v) ↦
        let ready = lockable_ok (get (version_key k id) r.versions) v lockable_v in
        inr (id, v, rw (named, ◌>>=◌) (rw (lockable_v, ◌>>=◌) refl), ready.0, ready.1, ready.2)
  ]
]

lock_head-HeadsAgree :
    (r : Repository) (k : ObjectKey) (i : String) (v : ObjectVersion)
    (retention : ObjectLockRetention) (hold : LegalHold) (o : Option ObjectHead)
    → HeadsAgree r
    → get (version_key k i) r.versions ≡ some v
    → is_committed v.state ≡ true
    → get k r.heads ≡ o
    → let v' = held v retention hold in
      HeadsAgree (lock_head k v' o (store_version (version_key k i) v' r))
unfolding set_head head_from_version
lock_head-HeadsAgree r k i v retention hold none w there done missing =
    changed_other r k i v (held v retention hold) w there
      (renamed (version_key k i) v _ (w.named.each _ v there) refl refl refl) done
      λ head at. cc (missing, at)
lock_head-HeadsAgree r k i v retention hold (some head) w there done at =
    let v' = held v retention hold in
    let old = w.named.each (version_key k i) v there in
    let new = renamed (version_key k i) v v' old refl refl refl in
    if-cases HeadsAgree (head.version_id == v.version_id) _ _
      (λ same.
        changed_head r k i v v' w there new done
          (λ h. record h { object_lock_retention = retention; object_lock_legal_hold = hold }) _
          head (λ t n. refl) at (eq_of_beq head.version_id v.version_id same ∙ old.version_id))
      (λ differs. changed_other r k i v v' w there new done λ other_head other_at e.
        ne_of_beq head.version_id v.version_id differs
          (ap id_of (sym at ∙ other_at) ∙ e ∙ sym old.version_id))

store_lock-HeadsAgree :
    (env : Env) (r : Repository) (k : ObjectKey) (i : String) (v : ObjectVersion)
    (retention : ObjectLockRetention) (hold : LegalHold) (now : Time)
    → HeadsAgree r
    → get (version_key k i) r.versions ≡ some v
    → is_committed v.state ≡ true
    → HeadsAgree (store_lock env (version_key k i) (held v retention hold) now r)
unfolding store_lock sync_protected_refs update_head_object_lock
store_lock-HeadsAgree env r k i v retention hold now w there done =
    let v' = held v retention hold in
    let old = w.named.each (version_key k i) v there in
    let stored = store_version (version_key k i) v' r in
    let its_key : object_key v.bucket_id v.key ≡ k = cc (old.bucket_id, old.key) in
    subst (λ (j : ObjectKey). HeadsAgree (lock_head j v' (get j stored.heads) stored)) (sym its_key)
      (lock_head-HeadsAgree r k i v retention hold (get k r.heads) w there done refl)

pub object_lock_target_then :
    {B : Type 0} {Q : Repository → Type 0} (k : ObjectKey) (version_id : String)
    (f : String × ObjectVersion → Exec Repository B) (r : Repository)
    → Q r
    → ((id : String) (v : ObjectVersion)
        → get (version_key k id) r.versions ≡ some v
        → is_committed v.state ≡ true
        → Leaves Q (f (id, v)) r)
    → Leaves Q (object_lock_target k version_id >>= f) r
unfolding ◌>>=◌
object_lock_target_then k version_id f r stop go = elim (object_lock_target-cases k version_id r) [
  | inl (e, failed) ↦ record { holds = rw (failed, ◌>>=◌) stop }
  | inr (id, v, target, there, done, marker) ↦ record {
    holds = rw (target, ◌>>=◌) (go id v there done).holds;
  }
]

admit_retention-SameObjects :
    (env : Env) (format_time : Time → String) (req : ObjectRetentionRequest) (v : ObjectVersion)
    (blocked beyond : Bool) (r : Repository)
    → Leaves (SameObjects r) (admit_retention env format_time req v blocked beyond) r
unfolding admit_retention append_audit_event
admit_retention-SameObjects env format_time req v true beyond r =
    guard_then _ (record { heads = refl; versions = refl })
      λ _. modify_last _ (record { heads = refl; versions = refl })
admit_retention-SameObjects env format_time req v false beyond r =
    pure_then _ (record { heads = refl; versions = refl })

-- An audit event touches neither map.
logged-HeadsAgree :
    (env : Env) (event : AuditEvent) (r : Repository)
    → HeadsAgree r
    → HeadsAgree (append_audit_event env event r)
unfolding append_audit_event
logged-HeadsAgree env event r w = w

pub put_object_retention-HeadsAgree :
    (env : Env) (format_time : Time → String) (req : ObjectRetentionRequest) (r : Repository)
    → HeadsAgree r
    → Leaves HeadsAgree (put_object_retention env format_time req) r
unfolding put_object_retention
put_object_retention-HeadsAgree env format_time req r w =
    let k = object_key req.bucket_id req.key in
    guard_then _ w λ _. lift_then_ w λ _ _. read_clock_then env _ (
      guard_then _ w λ _. object_lock_target_then k req.version_id _ _ w λ id v there done.
        read_clock_then env _ (
          then_where _ _ (admit_retention-SameObjects env format_time req v _ _ _)
            (λ r' same.
              same-HeadsAgree r r' (record { heads = same.heads; versions = same.versions }) w)
            λ r' same. modify_then _ (
              modify_last _ (
                logged-HeadsAgree env _ _ (
                  store_lock-HeadsAgree env r' k id v req.retention v.object_lock_legal_hold _
                    (same-HeadsAgree r r' (record { heads = same.heads; versions = same.versions })
                      w)
                    (ap (λ (m : Map VersionKey ObjectVersion). get (version_key k id) m)
                        same.versions
                      ∙ there)
                    done)))))

pub put_object_legal_hold-HeadsAgree :
    (env : Env) (req : ObjectLegalHoldRequest) (r : Repository)
    → HeadsAgree r
    → Leaves HeadsAgree (put_object_legal_hold env req) r
unfolding put_object_legal_hold
put_object_legal_hold-HeadsAgree env req r w =
    let k = object_key req.bucket_id req.key in
    guard_then _ w λ _. guard_then _ w λ _.
      object_lock_target_then k req.version_id _ _ w λ id v there done. read_clock_then env _ (
        modify_then _ (
          modify_last _ (
            logged-HeadsAgree env _ _ (
              store_lock-HeadsAgree env _ k id v v.object_lock_retention req.legal_hold _ w there
                done))))

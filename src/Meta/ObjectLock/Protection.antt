-- ===== src/Meta/ObjectLock/Protection.antt =====
-- About who is protected by object lock, changes of retention, and the references that garbage collection
-- sees (internal/meta/memory/repository.go).
use namros.Base.{String, ◌≡◌, ◌≢◌, ◌⊎◌, ◌↔◌, ◌≤◌, ◌<◌, Bool, true, false, arith}
use namros.Meta.Model.Segment.{Time, SegmentRef}
use namros.Meta.Model.Lock.{ObjectLockMode, LegalHold, ObjectLockRetention}
use namros.Meta.Model.Object.{ObjectVersion}
use namros.Meta.ObjectLock.{
  object_lock_protected, object_version_protected_by_object_lock, retention_update_blocked,
  protected_ref_active, protected_ref_from_version,
}

-- When a retention holds at `now`: a mode is set, the date is open or ahead, and a caller who may
-- bypass governance meets another mode or an open date.
abbrev pub Retains : ObjectLockRetention → Time → Bool → Type 0
Retains r now bypass =
    (r.mode ≢ ObjectLockMode.unset)
    × ((r.retain_until_date ≡ 0)
        ⊎ ((now < r.retain_until_date) × ((r.mode ≢ ObjectLockMode.governance) ⊎ (bypass ≡ false))))

-- `objectLockProtected` answers true exactly when the target is no delete marker and has a legal
-- hold or a retention that holds for the caller.
pub object_lock_protected_iff :
    (delete_marker : Bool) (r : ObjectLockRetention) (hold : LegalHold) (now : Time) (bypass : Bool)
    → (object_lock_protected delete_marker r hold now bypass ≡ true)
      ↔ ((delete_marker ≡ false) × ((hold ≡ LegalHold.on) ⊎ Retains r now bypass))
unfolding object_lock_protected
object_lock_protected_iff delete_marker r hold now bypass = ground arith

-- A retention update that is let through at `now`, with or without the governance bypass, leaves
-- everything that was beyond the bypass at a later moment `t` beyond the bypass at `t`.
pub retention_update_keeps_protection :
    (current next : ObjectLockRetention) (hold : LegalHold) (now t : Time) (bypass : Bool)
    → retention_update_blocked current next now bypass ≡ false
    → now ≤ t
    → object_lock_protected false current hold t true ≡ true
    → object_lock_protected false next hold t true ≡ true
unfolding retention_update_blocked object_lock_protected
retention_update_keeps_protection current next hold now t bypass allowed later held = ground arith

-- For a version that is no delete marker, every protected reference made from it is active at a
-- moment exactly when the version is protected at that moment against a caller with no bypass.
pub protected_ref_active-protected_ref_from_version :
    (ref_id : String → String → String → String → String) (v : ObjectVersion)
    (segment_ref : SegmentRef) (made now : Time)
    → v.delete_marker ≡ false
    → protected_ref_active (protected_ref_from_version ref_id v segment_ref made) now
      ≡ object_version_protected_by_object_lock v now false
unfolding protected_ref_active protected_ref_from_version object_version_protected_by_object_lock
protected_ref_active-protected_ref_from_version ref_id v segment_ref made now h = ground arith

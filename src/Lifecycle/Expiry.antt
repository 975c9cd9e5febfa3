-- ===== src/Lifecycle/Expiry.antt =====
-- When a rule of internal/lifecycle/planner.go expires a version, and when object lock spares it, in terms
-- of times and records.
use namros.Base.{
  ℕ, ◌+◌, ◌*◌, ◌≤◌, String, ◌≡◌, ◌≢◌, ◌⊎◌, ◌↔◌, Bool, true, false, not, ◌&&◌, arith, leb, ltb,
  is_empty, if◌then◌else◌, string_equality, eq_iff,
}
use namros.Base.Maps.{Map}
use namros.Base.Int64.{is_positive}
use namros.Base.Sorting.{All, All-map}
use namros.Meta.Model.Segment.{Time}
use namros.Meta.Model.Lock.{ProtectedRef, ObjectLockMode, LegalHold}
use namros.Meta.Model.Object.{ObjectVersion}
use namros.Meta.Model.Lifecycle.{LifecycleRule}
use namros.Meta.ObjectLock.{
  is_zero, is_on, is_unset, protected_ref_active, object_lock_protected,
  object_version_protected_by_object_lock,
}
use namros.Meta.ObjectLock.Refs.{is_asked_for, NoneAskedFor}
use namros.Meta.Listing.{ObjectVersionEntry}
use namros.Lifecycle.{
  ActionKind, current_version_expired, nanoseconds_per_day, noncurrent_version_expired,
  object_version_protected, refs_of_version, version_time,
}

same_protection :
    (deleted : Bool) (mode : ObjectLockMode) (until : Time) (hold : LegalHold) (now : Time)
    → (if deleted
        then false
        else if is_on hold
        then true
        else if is_unset mode
        then false
        else if is_zero until
        then true
        else ltb now until)
      ≡ object_lock_protected deleted
          (record { mode = mode; retain_until_date = until })
          hold
          now
          false
unfolding object_lock_protected
same_protection deleted ObjectLockMode.unset until hold now = ground arith
same_protection deleted ObjectLockMode.governance until hold now = ground arith
same_protection deleted ObjectLockMode.compliance until hold now = ground arith
same_protection deleted (ObjectLockMode.other s) until hold now = ground arith

-- The planner's own test for object lock is the repository's, without a governance bypass.
pub object_version_protected_lem :
    (v : ObjectVersion) (now : Time)
    → object_version_protected v now ≡ object_version_protected_by_object_lock v now false
unfolding object_version_protected object_version_protected_by_object_lock
object_version_protected_lem v now =
    same_protection v.delete_marker v.object_lock_retention.mode
      v.object_lock_retention.retain_until_date v.object_lock_legal_hold now

-- The action deletes a version that holds data.
abbrev pub deletes_version : ActionKind → Bool
deletes_version ActionKind.expire_current_object = true
deletes_version ActionKind.expire_noncurrent_version = true
deletes_version _ = false

-- `days` days have passed since the version was written.
abbrev pub Aged : ObjectVersion → ℕ → Time → Type 0
Aged v days now = (is_positive days ≡ true) × (version_time v + days * nanoseconds_per_day ≤ now)

-- The rule expires a latest version, by its age or from a date on.
abbrev pub LatestExpired : LifecycleRule → ObjectVersionEntry → Time → Type 0
LatestExpired rule entry now =
    (entry.is_latest ≡ true)
    × (rule.expiration.expired_object_delete_marker ≡ false)
    × (Aged entry.version rule.expiration.days now
        ⊎ ((is_positive rule.expiration.days ≡ false)
            × (rule.expiration.date ≢ 0)
            × (rule.expiration.date ≤ now)))

-- The rule expires a version that is not the latest, by its age.
abbrev pub OlderExpired : LifecycleRule → ObjectVersionEntry → Time → Type 0
OlderExpired rule entry now =
    (entry.is_latest ≡ false) × Aged entry.version rule.noncurrent_days now

abbrev pub Expired : LifecycleRule → ObjectVersionEntry → Time → Type 0
Expired rule entry now = LatestExpired rule entry now ⊎ OlderExpired rule entry now

-- The reference is to the version.
abbrev pub RefersTo : ObjectVersion → ProtectedRef → Type 0
RefersTo v ref = (ref.bucket_id ≡ v.bucket_id) × (ref.key ≡ v.key) × (ref.version_id ≡ v.version_id)

-- The version is under no object lock at the one time, and no reference to it is active at the other.
abbrev pub Unprotected : ObjectVersion → Time → Map String ProtectedRef → Time → Type 0
Unprotected v now refs ref_now =
    (object_version_protected_by_object_lock v now false ≡ false)
    × All (λ entry. RefersTo v entry.1 → protected_ref_active entry.1 ref_now ≡ false) refs

pub asked_active :
    (v : ObjectVersion) (now : Time) (ref : ProtectedRef)
    → is_asked_for (refs_of_version v) now ref ≡ false
    → RefersTo v ref
    → protected_ref_active ref now ≡ false
asked_active v now ref h r = ground (
  arith,
  eq_iff ref.bucket_id v.bucket_id,
  eq_iff ref.key v.key,
  eq_iff ref.version_id v.version_id,
)

pub not_asked :
    (v : ObjectVersion) (now : Time) (ref : ProtectedRef)
    → is_empty v.bucket_id ≡ false
    → is_empty v.key ≡ false
    → is_empty v.version_id ≡ false
    → (RefersTo v ref → protected_ref_active ref now ≡ false)
    → is_asked_for (refs_of_version v) now ref ≡ false
not_asked v now ref b k i h = ground (
  arith,
  h,
  eq_iff ref.bucket_id v.bucket_id,
  eq_iff ref.key v.key,
  eq_iff ref.version_id v.version_id,
)

latest_due_iff :
    (marker latest positive : Bool) (aged date now : ℕ)
    → ((latest
          && (if marker
              then false
              else if positive
              then leb aged now
              else if not (is_zero date)
              then not (ltb now date)
              else false))
        ≡ true)
      ↔ ((latest ≡ true)
          × (marker ≡ false)
          × (((positive ≡ true) × (aged ≤ now)) ⊎ ((positive ≡ false) × (date ≢ 0) × (date ≤ now))))
latest_due_iff true latest positive aged date now = ground arith
latest_due_iff false false positive aged date now = ground arith
latest_due_iff false true true aged date now = ground arith
latest_due_iff false true false aged date now = ground arith

pub current_version_expired_iff :
    (rule : LifecycleRule) (entry : ObjectVersionEntry) (now : Time)
    → ((entry.is_latest && current_version_expired rule entry.version now) ≡ true)
      ↔ LatestExpired rule entry now
unfolding current_version_expired
current_version_expired_iff rule entry now =
    latest_due_iff rule.expiration.expired_object_delete_marker entry.is_latest
      (is_positive rule.expiration.days)
      (version_time entry.version + rule.expiration.days * nanoseconds_per_day) rule.expiration.date
      now

older_due_iff :
    (latest positive : Bool) (aged now : ℕ)
    → ((not latest && (if not positive then false else leb aged now)) ≡ true)
      ↔ ((latest ≡ false) × ((positive ≡ true) × (aged ≤ now)))
older_due_iff latest positive aged now = ground arith

pub noncurrent_version_expired_iff :
    (rule : LifecycleRule) (entry : ObjectVersionEntry) (now : Time)
    → ((not entry.is_latest && noncurrent_version_expired rule entry.version now) ≡ true)
      ↔ OlderExpired rule entry now
unfolding noncurrent_version_expired
noncurrent_version_expired_iff rule entry now =
    older_due_iff entry.is_latest (is_positive rule.noncurrent_days)
      (version_time entry.version + rule.noncurrent_days * nanoseconds_per_day) now

-- What a listing that found nothing says of the references to the version.
pub Unprotected-of :
    (v : ObjectVersion) (refs : Map String ProtectedRef) (now : Time)
    → NoneAskedFor (refs_of_version v) now refs
    → All (λ entry. RefersTo v entry.1 → protected_ref_active entry.1 now ≡ false) refs
Unprotected-of v refs now h = All-map refs (λ entry. asked_active v now entry.1) h

pub NoneAskedFor-of :
    (v : ObjectVersion) (refs : Map String ProtectedRef) (now : Time)
    → is_empty v.bucket_id ≡ false
    → is_empty v.key ≡ false
    → is_empty v.version_id ≡ false
    → All (λ entry. RefersTo v entry.1 → protected_ref_active entry.1 now ≡ false) refs
    → NoneAskedFor (refs_of_version v) now refs
NoneAskedFor-of v refs now b k i h = All-map refs (λ entry. not_asked v now entry.1 b k i) h

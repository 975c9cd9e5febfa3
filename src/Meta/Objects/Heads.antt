-- ===== src/Meta/Objects/Heads.antt =====
-- The agreement of heads and versions, and the kinds of write to the two maps
-- (internal/meta/memory/repository.go).
use namros.Base.{
  String, ◌≡◌, ◌≢◌, ◌∙◌, inl, inr, true, false, some, arith, is_empty, Bool-cases, eq_of_beq,
  ne_of_beq, ap, ◌==◌,
}
use namros.Base.Maps.{
  Map, Unique, put-Unique, delete-Unique, get, put, delete, get-put, get-delete, get-put_ne,
  get-delete_ne, get-put_self,
}
use namros.Meta.Model.Object.{ObjectVersion, ObjectHead}
use namros.Meta.Repository.{ObjectKey, VersionKey, object_key_eq, version_key_eq}
use namros.Meta.Objects.{version_key, head_from_version, is_committed}

-- A version is stored under its own names, and its identifier is not empty.
pub record Named (vk : VersionKey) (v : ObjectVersion) : Type 0 where
  pub bucket_id : v.bucket_id ≡ vk.bucket_id
  pub key : v.key ≡ vk.key
  pub version_id : v.version_id ≡ vk.version_id
  pub id : is_empty vk.version_id ≡ false

-- The head is `headFromVersion` of a committed version that is stored, up to its revision.
abbrev pub Backed : Map VersionKey ObjectVersion → ObjectKey → ObjectHead → Type 0
Backed versions k head =
    (v : ObjectVersion) × (get (version_key k head.version_id) versions ≡ some v)
    × (is_committed v.state ≡ true)
    × (head ≡ record (head_from_version v head.last_modified) { revision = head.revision })

-- Version keys are distinct, and every version is named.
pub record AllNamed (versions : Map VersionKey ObjectVersion) : Type 0 where
  pub unique : Unique versions
  pub each : (vk : VersionKey) (v : ObjectVersion) → get vk versions ≡ some v → Named vk v

pub record WellHeaded (heads : Map ObjectKey ObjectHead) (versions : Map VersionKey ObjectVersion)
    : Type 0 where
  pub named : AllNamed versions
  pub backed :
      (k : ObjectKey) (head : ObjectHead) → get k heads ≡ some head → Backed versions k head

pub put-AllNamed :
    (vk : VersionKey) (v : ObjectVersion) (versions : Map VersionKey ObjectVersion)
    → AllNamed versions
    → Named vk v
    → AllNamed (put vk v versions)
put-AllNamed vk v versions all new = record {
  unique = put-Unique vk v versions all.unique;
  each = λ j w there. elim (Bool-cases (vk == j)) [
    | inl here ↦
        let e = eq_of_beq vk j here in
        let same : v ≡ w = cc (there, get-put_self vk v versions, e) in rw (← e, ← same) new
    | inr other ↦ all.each j w (ground (arith, get-put vk j v versions))
  ];
}

pub delete-AllNamed :
    (vk : VersionKey) (versions : Map VersionKey ObjectVersion)
    → AllNamed versions
    → AllNamed (delete vk versions)
delete-AllNamed vk versions all = record {
  unique = delete-Unique vk versions all.unique;
  each = λ j w there. all.each j w (ground (arith, get-delete vk j versions));
}

-- The two maps hold the same versions of every object but `k`.
abbrev pub Untouched :
    ObjectKey → Map VersionKey ObjectVersion → Map VersionKey ObjectVersion → Type 0
Untouched k versions versions' =
    (j : ObjectKey) (id : String)
    → (k == j) ≡ false
    → get (version_key j id) versions' ≡ get (version_key j id) versions

abbrev object_of : VersionKey → ObjectKey
object_of vk = record { bucket_id = vk.bucket_id; key = vk.key }

other_version :
    (k j : ObjectKey) (i id : String) → (k == j) ≡ false → version_key k i ≢ version_key j id
other_version k j i id other e = ne_of_beq k j other (ap object_of e)

pub Untouched-put :
    (k : ObjectKey) (i : String) (v : ObjectVersion)
    (versions versions' : Map VersionKey ObjectVersion)
    → Untouched k versions versions'
    → Untouched k versions (put (version_key k i) v versions')
Untouched-put k i v versions versions' same j id other =
    get-put_ne (version_key k i) (version_key j id) v versions' (other_version k j i id other)
    ∙ same j id other

pub Untouched-delete :
    (k : ObjectKey) (i : String) (versions versions' : Map VersionKey ObjectVersion)
    → Untouched k versions versions'
    → Untouched k versions (delete (version_key k i) versions')
Untouched-delete k i versions versions' same j id other =
    get-delete_ne (version_key k i) (version_key j id) versions' (other_version k j i id other)
    ∙ same j id other

module _ (heads : Map ObjectKey ObjectHead) (versions versions' : Map VersionKey ObjectVersion)
    (k : ObjectKey) (w : WellHeaded heads versions) (same : Untouched k versions versions')
    (named : AllNamed versions') where
  elsewhere :
      (j : ObjectKey) (head : ObjectHead)
      → (k == j) ≡ false
      → get j heads ≡ some head
      → Backed versions' j head
  elsewhere j head other there =
      let (v, stored, committed, agrees) = w.backed j head there in
      (v, same j head.version_id other ∙ stored, committed, agrees)

  pub WellHeaded-put :
      (head : ObjectHead) → Backed versions' k head → WellHeaded (put k head heads) versions'
  WellHeaded-put head new = record {
    named = named;
    backed = λ j other_head there. elim (Bool-cases (k == j)) [
      | inl here ↦
          let e = eq_of_beq k j here in
          let one_head : head ≡ other_head = cc (there, get-put_self k head heads, e) in
          rw (← e, ← one_head) new
      | inr other ↦ elsewhere j other_head other (ground (arith, get-put k j head heads))
    ];
  }

  pub WellHeaded-delete : WellHeaded (delete k heads) versions'
  WellHeaded-delete = record {
    named = named;
    backed = λ j head there. elim (Bool-cases (k == j)) [
      | inl here ↦ absurd (ground (arith, get-delete k j heads))
      | inr other ↦ elsewhere j head other (ground (arith, get-delete k j heads))
    ];
  }

  pub WellHeaded-keep :
      ((head : ObjectHead) → get k heads ≡ some head → Backed versions' k head)
      → WellHeaded heads versions'
  WellHeaded-keep still = record {
    named = named;
    backed = λ j head there. elim (Bool-cases (k == j)) [
      | inl here ↦ let e = eq_of_beq k j here in rw (← e) (still head (cc (there, e)))
      | inr other ↦ elsewhere j head other there
    ];
  }

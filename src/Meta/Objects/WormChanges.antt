-- ===== src/Meta/Objects/WormChanges.antt =====
-- Deletions and changes of tags, retention and legal hold, and versions under compliance retention
-- (internal/meta/memory/repository.go).
use namros.Base.{
  ℕ, ◌<◌, String, ◌≡◌, refl, subst, inl, inr, Bool, true, false, not, Option, none, some, arith,
  is_empty, if-cases, ◌==◌, string_equality,
}
use namros.Base.Maps.{Map, get, put}
use namros.Base.Exec.{Exec, Leaves, guard_then, gets_then, modify_then, modify_last, fail_then}
use namros.Meta.Model.Segment.{Time}
use namros.Meta.Model.Lock.{LegalHold, ObjectLockRetention}
use namros.Meta.Model.Object.{ObjectVersion, ObjectHead}
use namros.Meta.ObjectLock.{object_version_protected_by_object_lock, retention_update_blocked}
use namros.Meta.Repository.{Repository, Env, ObjectKey, VersionKey, object_key_eq, version_key_eq}
use namros.Meta.Objects.{DeleteObjectRequest, object_key, version_key, set_head}
use namros.Meta.Objects.Delete.{delete_object}
use namros.Meta.Objects.Tags.{
  ObjectTagsRequest, tag_head, tag_head_of, tag_version, put_version_tags, put_head_tags,
  put_object_tags,
}
use namros.Meta.Objects.Lock.{lock_head}
use namros.Meta.Objects.Ready.{HeadsAgree}
use namros.Meta.Objects.Holds.{held}
use namros.Meta.Objects.Retained.{delete_object_keeps_protected}
use namros.Meta.Objects.Buckets.{delete_object-SameBuckets}
use namros.Meta.Objects.Worm.{Kept, Stored, Worm, Stored-put}

-- Before the end of its retention, a kept version is protected, against the bypass too.
protected-Kept :
    (end now : Time) (v0 v : ObjectVersion) (bypass : Bool)
    → Kept end v0 v
    → now < end
    → object_version_protected_by_object_lock v now bypass ≡ true
unfolding object_version_protected_by_object_lock
protected-Kept end now v0 v bypass kept early = ground (arith, kept.marker, kept.mode, kept.until)

-- A retention update that is let through before the end keeps the version.
pub unblocked-Kept :
    (end now : Time) (v0 v : ObjectVersion) (next : ObjectLockRetention) (bypass : Bool)
    → Kept end v0 v
    → now < end
    → retention_update_blocked v.object_lock_retention next now bypass ≡ false
    → Kept end v0 (held v next v.object_lock_legal_hold)
unfolding retention_update_blocked
unblocked-Kept end now v0 v next bypass kept early allowed = record {
  committed = kept.committed;
  marker = kept.marker;
  mode = ground (arith, kept.mode, kept.until);
  until = ground (arith, kept.mode, kept.until);
  size = kept.size;
  etag = kept.etag;
  segment_ref = kept.segment_ref;
  segment_refs = kept.segment_refs;
}

tagged-Kept :
    (end : Time) (v0 v : ObjectVersion) (tags : Map String String)
    → Kept end v0 v
    → Kept end v0 (record v { tags = tags })
tagged-Kept end v0 v tags kept = record {
  committed = kept.committed;
  marker = kept.marker;
  mode = kept.mode;
  until = kept.until;
  size = kept.size;
  etag = kept.etag;
  segment_ref = kept.segment_ref;
  segment_refs = kept.segment_refs;
}

pub held-Kept :
    (end : Time) (v0 v : ObjectVersion) (hold : LegalHold)
    → Kept end v0 v
    → Kept end v0 (held v v.object_lock_retention hold)
held-Kept end v0 v hold kept = record {
  committed = kept.committed;
  marker = kept.marker;
  mode = kept.mode;
  until = kept.until;
  size = kept.size;
  etag = kept.etag;
  segment_ref = kept.segment_ref;
  segment_refs = kept.segment_refs;
}

-- What is read under the kept version's key is the kept version.
pub read-Kept :
    (end : Time) (vk : VersionKey) (v0 : ObjectVersion) (other : VersionKey) (u v : ObjectVersion)
    (m : Map VersionKey ObjectVersion)
    → get other m ≡ some u
    → other ≡ vk
    → get vk m ≡ some v
    → Kept end v0 v
    → Kept end v0 u
read-Kept end vk v0 other u v m at e there kept =
    let same : v ≡ u = cc (at, e, there) in subst (λ (x : ObjectVersion). Kept end v0 x) same kept

-- Writing a head changes neither the buckets nor the versions.
tag_head_of-Worm :
    (end : Time) (vk : VersionKey) (v0 : ObjectVersion) (r s : Repository) (k : ObjectKey)
    (id : String) (tags : Map String String) (o : Option ObjectHead)
    → Worm end vk v0 r s
    → Worm end vk v0 r (tag_head_of k id tags o s)
unfolding tag_head set_head
tag_head_of-Worm end vk v0 r s k id tags none w = w
tag_head_of-Worm end vk v0 r s k id tags (some head) w =
    if-cases (Worm end vk v0 r) (head.version_id == id) (tag_head k tags head s) s
      (λ _. record { buckets = w.buckets; stored = w.stored }) (λ _. w)

pub lock_head-Worm :
    (end : Time) (vk : VersionKey) (v0 : ObjectVersion) (r s : Repository) (k : ObjectKey)
    (v : ObjectVersion) (o : Option ObjectHead)
    → Worm end vk v0 r s
    → Worm end vk v0 r (lock_head k v o s)
unfolding set_head
lock_head-Worm end vk v0 r s k v none w = w
lock_head-Worm end vk v0 r s k v (some head) w =
    if-cases (Worm end vk v0 r) (head.version_id == v.version_id) _ s
      (λ _. record { buckets = w.buckets; stored = w.stored }) (λ _. w)

module _ (end : Time) (vk : VersionKey) (v0 : ObjectVersion) (env : Env) (r : Repository)
    (early : (n : ℕ) → env.now n < end) (w : Stored end vk v0 r.versions) where
  pub delete_object-Worm :
      (req : DeleteObjectRequest) → HeadsAgree r → Worm end vk v0 r (delete_object env req r).1
  delete_object-Worm req agree =
      let (v, there, kept) = w in
      let now = env.now r.clock_reads in
      let locked = protected-Kept end now v0 v false kept (early r.clock_reads) in
      record {
        buckets = (delete_object-SameBuckets env req r).holds;
        stored = elim (delete_object_keeps_protected env req r vk v agree there locked) [
          | inl still ↦ (v, still, kept)
          | inr (bucket, key, bypassed) ↦
              absurd
                (cc (bypassed.within, protected-Kept end now v0 v true kept (early r.clock_reads)))
        ];
      }

  -- The same version with other tags, where a version is read and written back.
  tagged-Stored :
      (other : VersionKey) (u : ObjectVersion) (tags : Map String String)
      → get other r.versions ≡ some u
      → Stored end vk v0 (put other (record u { tags = tags }) r.versions)
  tagged-Stored other u tags at = Stored-put end vk v0 other _ r.versions w λ v e there kept.
      tagged-Kept end v0 u tags (read-Kept end vk v0 other u v r.versions at e there kept)

  put_version_tags-Worm :
      (req : ObjectTagsRequest) (k : ObjectKey) (o : Option ObjectVersion)
      → get (version_key k req.version_id) r.versions ≡ o
      → Leaves (Worm end vk v0 r) (put_version_tags req k o) r
  put_version_tags-Worm req k none at = fail_then _ (record { buckets = refl; stored = w })
  put_version_tags-Worm req k (some u) at =
      guard_then _ (record { buckets = refl; stored = w })
        λ _. modify_then _ (
          modify_last _ (
            tag_head_of-Worm end vk v0 r _ k req.version_id req.tags (get k r.heads) (record {
              buckets = refl;
              stored = tagged-Stored (version_key k req.version_id) u req.tags at;
            })))

  tag_version-Worm :
      (k : ObjectKey) (tags : Map String String) (head : ObjectHead) (o : Option ObjectVersion)
      → get (version_key k head.version_id) r.versions ≡ o
      → Worm end vk v0 r
          (tag_version (version_key k head.version_id) tags o (tag_head k tags head r))
  unfolding tag_head set_head
  tag_version-Worm k tags head none at = record { buckets = refl; stored = w }
  tag_version-Worm k tags head (some u) at = record {
    buckets = refl;
    stored = tagged-Stored (version_key k head.version_id) u tags at;
  }

  put_head_tags-Worm :
      (req : ObjectTagsRequest) (k : ObjectKey) (o : Option ObjectHead)
      → Leaves (Worm end vk v0 r) (put_head_tags req k o) r
  unfolding tag_head set_head
  put_head_tags-Worm req k none = fail_then _ (record { buckets = refl; stored = w })
  put_head_tags-Worm req k (some head) = modify_then _ (
      modify_last _ (
        if-cases (Worm end vk v0 r) (is_empty head.version_id) _ _
          (λ _. record { buckets = refl; stored = w })
          (λ _.
            tag_version-Worm k req.tags head (get (version_key k head.version_id) r.versions)
              refl)))

  pub put_object_tags-Worm :
      (req : ObjectTagsRequest) → Leaves (Worm end vk v0 r) (put_object_tags req) r
  unfolding put_object_tags
  put_object_tags-Worm req =
      let k = object_key req.bucket_id req.key in
      guard_then _ (record { buckets = refl; stored = w })
        λ _. gets_then _ _ (
          gets_then _ _ (
            if-cases (λ (m : Exec Repository (Unit {0})). Leaves (Worm end vk v0 r) m r)
              (not (is_empty req.version_id)) _ _ (λ _. put_version_tags-Worm req k _ refl)
              (λ _. put_head_tags-Worm req k _)))

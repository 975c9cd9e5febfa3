-- ===== src/Meta/Objects/Worm.antt =====
-- Versions under compliance retention, and the writes of objects
-- (internal/meta/memory/repository.go).
use namros.Base.{
  ◌≤◌, String, ◌≡◌, ◌≢◌, refl, sym, ap, ◌∙◌, inl, inr, true, false, Option, none, some, arith,
  is_empty, if-cases, Bool-cases, eq_of_beq, ne_of_beq, ◌==◌, string_equality,
}
use namros.Base.Maps.{Map, get, put, get-put_self, get-put_ne, get-delete_ne}
use namros.Base.Exec.{
  Exec, Leaves, ok, guard_then, lift_then, lift_then_, gets_then, modify_then, pure_then, then_pure,
}
use namros.Meta.Model.Segment.{Time}
use namros.Meta.Model.Lock.{ObjectLockMode}
use namros.Meta.Model.Object.{Bucket, BucketVersioningState, ObjectVersion, ObjectHead}
use namros.Meta.Repository.{
  Repository, Env, ObjectKey, VersionKey, object_key_eq, version_key_eq, has, read_clock_then,
  draw_id_then,
}
use namros.Meta.Multipart.{found}
use namros.Meta.Objects.{
  BeginPutObjectRequest, CommitObjectVersionRequest, object_key, version_key, head_at, set_head,
  is_committed, is_versioning_enabled, delete_version_record, delete_protected_refs_for_version,
  sync_protected_refs,
}
use namros.Meta.Objects.Put.{
  begin_put_object, commit_object_version, put_object_version, publish, commit_found, drop_replaced,
  replaces, versioning_of,
}

-- The version is committed and under compliance retention until `end` at least, with the data of `v0`.
pub record Kept (end : Time) (v0 v : ObjectVersion) : Type 0 where
  pub committed : is_committed v.state ≡ true
  pub marker : v.delete_marker ≡ false
  pub mode : v.object_lock_retention.mode ≡ ObjectLockMode.compliance
  pub until : end ≤ v.object_lock_retention.retain_until_date
  pub size : v.size_bytes ≡ v0.size_bytes
  pub etag : v.etag ≡ v0.etag
  pub segment_ref : v.segment_ref ≡ v0.segment_ref
  pub segment_refs : v.segment_refs ≡ v0.segment_refs

-- The version stored under a key is kept.
abbrev pub Stored : Time → VersionKey → ObjectVersion → Map VersionKey ObjectVersion → Type 0
Stored end vk v0 versions = (v : ObjectVersion) × (get vk versions ≡ some v) × Kept end v0 v

bucket_found : (o : Option Bucket) (b : Bucket) → found o ≡ ok b → o ≡ some b
bucket_found none b h = cc h
bucket_found (some c) b h = ground arith

version_found : (o : Option ObjectVersion) (v : ObjectVersion) → found o ≡ ok v → o ≡ some v
version_found none v h = cc h
version_found (some u) v h = ground arith

pending_not_kept :
    (u v : ObjectVersion) → u ≡ v → is_committed u.state ≡ false → is_committed v.state ≢ true
pending_not_kept u v same pending done =
    cc (ap (λ (x : ObjectVersion). is_committed x.state) same, pending, done)

-- The buckets are as they were, and the version is kept.
pub record Worm (end : Time) (vk : VersionKey) (v0 : ObjectVersion) (r r' : Repository)
    : Type 0 where
  pub buckets : r'.buckets_by_id ≡ r.buckets_by_id
  pub stored : Stored end vk v0 r'.versions

taken_not_free :
    (other vk : VersionKey) (v : ObjectVersion) (m : Map VersionKey ObjectVersion)
    → has other m ≡ false
    → get vk m ≡ some v
    → other ≢ vk
taken_not_free other vk v m fresh there e = ground (arith, e)

module _ (end : Time) (vk : VersionKey) (v0 : ObjectVersion) where
  pub Stored-put :
      (other : VersionKey) (new : ObjectVersion) (m : Map VersionKey ObjectVersion)
      → Stored end vk v0 m
      → ((v : ObjectVersion) → other ≡ vk → get vk m ≡ some v → Kept end v0 v → Kept end v0 new)
      → Stored end vk v0 (put other new m)
  Stored-put other new m (v, there, kept) follow = elim (Bool-cases (other == vk)) [
    | inl hit ↦
        let e = eq_of_beq other vk hit in
        (
          new,
          ap (λ (x : VersionKey). get x (put other new m)) (sym e) ∙ get-put_self other new m,
          follow v e there kept,
        )
    | inr miss ↦ (v, get-put_ne other vk new m (ne_of_beq other vk miss) ∙ there, kept)
  ]

  -- An identifier that was not taken is not the kept version's.
  pub Stored-put_fresh :
      (other : VersionKey) (new : ObjectVersion) (m : Map VersionKey ObjectVersion)
      → Stored end vk v0 m
      → has other m ≡ false
      → Stored end vk v0 (put other new m)
  Stored-put_fresh other new m stored fresh =
      Stored-put other new m stored
        λ v e there kept. absurd (taken_not_free other vk v m fresh there e)

  -- A bucket that keeps versions drops none.
  drop_replaced-Stored :
      (k : ObjectKey) (versioning : BucketVersioningState) (head : ObjectHead) (id : String)
      (r : Repository)
      → Stored end vk v0 r.versions
      → (version_key k head.version_id ≡ vk → is_versioning_enabled versioning ≡ true)
      → Stored end vk v0 (drop_replaced k versioning head id r).versions
  unfolding drop_replaced delete_version_record delete_protected_refs_for_version
  drop_replaced-Stored k versioning head id r (v, there, kept) enabled =
      elim (Bool-cases (replaces versioning head id)) [
        | inl dropped ↦
            let named_id : is_empty head.version_id ≡ false = ground arith in
            let off : is_versioning_enabled versioning ≡ false = ground arith in
            rw dropped (
              rw named_id (
                v,
                get-delete_ne (version_key k head.version_id) vk r.versions
                      (λ e. cc (enabled e, off))
                    ∙ there,
                kept,
              ))
        | inr whole ↦ rw whole (v, there, kept)
      ]

  drop_replaced-buckets :
      (k : ObjectKey) (versioning : BucketVersioningState) (head : ObjectHead) (id : String)
      (r : Repository)
      → (drop_replaced k versioning head id r).buckets_by_id ≡ r.buckets_by_id
  unfolding drop_replaced delete_version_record delete_protected_refs_for_version
  drop_replaced-buckets k versioning head id r =
      if-cases (λ (s : Repository). s.buckets_by_id ≡ r.buckets_by_id) (replaces versioning head id)
        _ r (λ _. refl) (λ _. refl)

  publish-Worm :
      (env : Env) (r s : Repository) (k : ObjectKey) (v : ObjectVersion) (now : Time)
      → Worm end vk v0 r s
      → Leaves (Worm end vk v0 r) (publish env k v now) s
  unfolding set_head sync_protected_refs
  publish-Worm env r s k v now w = gets_then _ _ (
      modify_then _
        (modify_then _ (pure_then _ (record { buckets = w.buckets; stored = w.stored }))))

  module _ (env : Env) (r : Repository) (w : Stored end vk v0 r.versions)
      (enabled : is_versioning_enabled (versioning_of (get vk.bucket_id r.buckets_by_id))
        ≡ true) where
    pub begin_put_object-Worm :
        (req : BeginPutObjectRequest) → Leaves (Worm end vk v0 r) (begin_put_object env req) r
    unfolding begin_put_object
    begin_put_object-Worm req =
        let now : Worm end vk v0 r r = record { buckets = refl; stored = w } in
        let k = object_key req.bucket_id req.key in
        guard_then _ now λ _. lift_then_ now λ _ _. lift_then_ now λ _ _. gets_then _ _ (
          guard_then _ now λ _. gets_then _ _ (
            read_clock_then env _ (
              draw_id_then env _ _ _ _ (λ d. record { buckets = refl; stored = w })
                λ id d d' fresh drawn.
                  lift_then_ (record { buckets = refl; stored = w })
                    λ _ _. modify_then _ (
                      pure_then _ (record {
                        buckets = refl;
                        stored = Stored-put_fresh (version_key k id) _ r.versions w fresh;
                      })))))

    -- A request for the kept version's bucket finds that it keeps versions.
    bucket_enabled :
        (k : ObjectKey) (id : String)
        → version_key k id ≡ vk
        → is_versioning_enabled (versioning_of (get k.bucket_id r.buckets_by_id)) ≡ true
    bucket_enabled k id e =
        ap
          (λ (x : VersionKey).
            is_versioning_enabled (versioning_of (get x.bucket_id r.buckets_by_id)))
          e
        ∙ enabled

    pub put_object_version-Worm :
        (req : BeginPutObjectRequest) → Leaves (Worm end vk v0 r) (put_object_version env req) r
    unfolding put_object_version
    put_object_version-Worm req =
        let now : Worm end vk v0 r r = record { buckets = refl; stored = w } in
        let k = object_key req.bucket_id req.key in
        guard_then _ now λ _. lift_then_ now λ _ _. lift_then_ now λ _ _. gets_then _ _ (
          lift_then now λ bucket at. gets_then _ _ (
            read_clock_then env _ (
              draw_id_then env _ _ _ _ (λ d. record { buckets = refl; stored = w })
                λ id d d' fresh drawn.
                  lift_then_ (record { buckets = refl; stored = w })
                    λ _ _. modify_then _ (
                      modify_then _ (
                        then_pure _ _ (
                          publish-Worm env r _ k _ _ (record {
                            buckets =
                                drop_replaced-buckets k bucket.versioning_state (head_at k r) id _;
                            stored =
                                Stored-put (version_key k id) _ _
                                  (drop_replaced-Stored k bucket.versioning_state (head_at k r) id _
                                    w
                                    (λ e.
                                      ap
                                        (λ (o : Option Bucket).
                                          is_versioning_enabled (versioning_of o))
                                        (sym (bucket_found _ bucket at))
                                      ∙ bucket_enabled k _ e))
                                  λ v e there kept.
                                    absurd (taken_not_free _ vk w.0 r.versions fresh w.1 e);
                          })))))))

    commit_found-Worm :
        (k : ObjectKey) (versioning : BucketVersioningState) (head : ObjectHead) (id : String)
        (u : ObjectVersion)
        → get (version_key k id) r.versions ≡ some u
        → versioning ≡ versioning_of (get k.bucket_id r.buckets_by_id)
        → Leaves (Worm end vk v0 r) (commit_found env k versioning head id u) r
    commit_found-Worm k versioning head id u there of_bucket =
        if-cases (λ (m : Exec Repository ObjectHead). Leaves (Worm end vk v0 r) m r)
          (is_committed u.state) _ _ (λ done. pure_then _ (record { buckets = refl; stored = w }))
          (λ pending. read_clock_then env _ (
            modify_then _ (
              modify_then _ (
                publish-Worm env r _ k _ _ (record {
                  buckets = drop_replaced-buckets k versioning head _ _;
                  stored =
                      drop_replaced-Stored k versioning head _ _
                        (Stored-put (version_key k id) _ r.versions w λ v e at kept.
                          absurd (pending_not_kept u v (cc (there, at, e)) pending kept.committed))
                        (λ e.
                          ap (λ (x : BucketVersioningState). is_versioning_enabled x) of_bucket
                          ∙ bucket_enabled k _ e);
                })))))

    pub commit_object_version-Worm :
        (req : CommitObjectVersionRequest)
        → Leaves (Worm end vk v0 r) (commit_object_version env req) r
    unfolding commit_object_version
    commit_object_version-Worm req =
        let now : Worm end vk v0 r r = record { buckets = refl; stored = w } in
        guard_then _ now λ _. gets_then _ _ (
          gets_then _ _ (
            guard_then _ now λ _. gets_then _ _ (
              lift_then now λ u there.
                commit_found-Worm (object_key req.bucket_id req.key) _ _ req.version_id u
                  (version_found _ u there) refl)))

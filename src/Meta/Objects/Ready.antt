-- ===== src/Meta/Objects/Ready.antt =====
-- A version that is about to become the head, for the writes of internal/meta/memory/repository.go.
use namros.Base.{
  ℕ, String, ◌≡◌, ◌≢◌, refl, ◌∙◌, ◌⊎◌, inl, inr, true, false, some, arith, is_empty, Bool-cases,
  ne_of_beq, ap, ◌==◌, string_equality,
}
use namros.Base.Maps.{Map, get, delete, get-put_ne, get-delete_ne}
use namros.Base.Exec.{Leaves, guard_then, lift_then_, gets_then, modify_then, pure_then}
use namros.Meta.Model.Segment.{Time}
use namros.Meta.Model.Object.{BucketVersioningState, ObjectVersion, ObjectHead}
use namros.Meta.Repository.{
  Repository, Env, ObjectKey, VersionKey, object_key_eq, version_key_eq, has, read_clock_then,
  draw_id_then,
}
use namros.Meta.Objects.{
  BeginPutObjectRequest, object_key, version_key, head_from_version, revised, set_head,
  is_committed, delete_version_record, delete_protected_refs_for_version, sync_protected_refs,
}
use namros.Meta.Objects.Put.{new_version, begin_put_object, publish, drop_replaced, replaces}
use namros.Meta.Objects.Heads.{
  WellHeaded, AllNamed, Untouched, put-AllNamed, delete-AllNamed, Untouched-put, Untouched-delete,
  WellHeaded-put, WellHeaded-keep,
}

abbrev pub HeadsAgree : Repository → Type 0
HeadsAgree r = WellHeaded r.heads r.versions

-- The generator never draws the empty identifier.
abbrev pub DrawsNames : Env → Type 0
DrawsNames env = (n : ℕ) (id : String) → env.new_id n ≡ some id → is_empty id ≡ false

pub no_change : (k : ObjectKey) (m : Map VersionKey ObjectVersion) → Untouched k m m
no_change k m j id other = refl

-- An identifier that was not taken is no stored version's.
pub fresh_ne :
    (k : ObjectKey) (id i : String) (v : ObjectVersion) (m : Map VersionKey ObjectVersion)
    → has (version_key k id) m ≡ false
    → get (version_key k i) m ≡ some v
    → version_key k id ≢ version_key k i
fresh_ne k id i v m fresh there e = ground (arith, e)

-- What publishing needs of the versions: they changed at `k` only, and hold the new version.
pub record Ready (m : Map VersionKey ObjectVersion) (k : ObjectKey) (v : ObjectVersion)
    (r : Repository) : Type 0 where
  pub agreed : WellHeaded r.heads m
  pub untouched : Untouched k m r.versions
  pub named : AllNamed r.versions
  pub there : get (version_key k v.version_id) r.versions ≡ some v
  pub committed : is_committed v.state ≡ true

pub set_head-HeadsAgree :
    (m : Map VersionKey ObjectVersion) (k : ObjectKey) (v : ObjectVersion) (t : Time)
    (r : Repository)
    → Ready m k v r
    → HeadsAgree (set_head k (head_from_version v t) r)
unfolding set_head head_from_version
set_head-HeadsAgree m k v t r ready =
    WellHeaded-put r.heads m r.versions k ready.agreed ready.untouched ready.named
      (revised k (head_from_version v t) r) (v, ready.there, ready.committed, refl)

pub publish-HeadsAgree :
    (env : Env) (m : Map VersionKey ObjectVersion) (k : ObjectKey) (v : ObjectVersion) (now : Time)
    (r : Repository)
    → Ready m k v r
    → Leaves HeadsAgree (publish env k v now) r
unfolding sync_protected_refs
publish-HeadsAgree env m k v now r ready =
    gets_then _ _
      (modify_then _ (modify_then _ (pure_then _ (set_head-HeadsAgree m k v now r ready))))

-- What `drop_replaced` does to the two maps.
pub drop_replaced-cases :
    (k : ObjectKey) (versioning : BucketVersioningState) (head : ObjectHead) (id : String)
    (r : Repository)
    → let r' = drop_replaced k versioning head id r in
      (r'.heads ≡ r.heads)
      × ((r'.versions ≡ r.versions)
          ⊎ ((head.version_id == id ≡ false)
              × (r'.versions ≡ delete (version_key k head.version_id) r.versions)))
unfolding drop_replaced delete_version_record delete_protected_refs_for_version
drop_replaced-cases k versioning head id r = elim (Bool-cases (replaces versioning head id)) [
  | inl dropped ↦
      let named_id : is_empty head.version_id ≡ false = ground arith in
      rw dropped (rw named_id (refl, inr (ground arith, refl)))
  | inr kept ↦ rw kept (refl, inl refl)
]

-- The versions after `drop_replaced` are still named, and changed at `k` only.
pub drop_replaced-Untouched :
    (m : Map VersionKey ObjectVersion) (k : ObjectKey) (versioning : BucketVersioningState)
    (head : ObjectHead) (id : String) (r : Repository)
    → Untouched k m r.versions
    → AllNamed r.versions
    → let versions' = (drop_replaced k versioning head id r).versions in
      Untouched k m versions' × AllNamed versions'
drop_replaced-Untouched m k versioning head id r same named =
    let (heads, versions) = drop_replaced-cases k versioning head id r in
    elim versions [
      | inl kept ↦ rw kept (same, named)
      | inr (other, dropped) ↦ rw dropped (
        Untouched-delete k head.version_id m r.versions same,
        delete-AllNamed (version_key k head.version_id) r.versions named,
      )
    ]

-- Dropping the replaced version keeps the version that replaces it.
pub drop_replaced-Ready :
    (m : Map VersionKey ObjectVersion) (k : ObjectKey) (v : ObjectVersion)
    (versioning : BucketVersioningState) (head : ObjectHead) (r : Repository)
    → Ready m k v r
    → Ready m k v (drop_replaced k versioning head v.version_id r)
drop_replaced-Ready m k v versioning head r ready =
    let (heads, versions) = drop_replaced-cases k versioning head v.version_id r in
    let (same, named) =
      drop_replaced-Untouched m k versioning head v.version_id r ready.untouched ready.named in
    record {
      agreed = rw heads ready.agreed;
      untouched = same;
      named = named;
      there = elim versions [
        | inl kept ↦ rw kept ready.there
        | inr (other, dropped) ↦ rw dropped (
            get-delete_ne (version_key k head.version_id) (version_key k v.version_id) r.versions
              (λ e.
                ne_of_beq head.version_id v.version_id other
                  (ap (λ (x : VersionKey). x.version_id) e))
            ∙ ready.there)
      ];
      committed = ready.committed;
    }

pub begin_put_object-HeadsAgree :
    (env : Env) (req : BeginPutObjectRequest) (r : Repository)
    → DrawsNames env
    → HeadsAgree r
    → Leaves HeadsAgree (begin_put_object env req) r
unfolding begin_put_object new_version
begin_put_object-HeadsAgree env req r names w =
    let k = object_key req.bucket_id req.key in
    guard_then _ w λ _. lift_then_ w λ _ _. lift_then_ w λ _ _. gets_then _ _ (
      guard_then _ w λ _. gets_then _ _ (
        read_clock_then env _ (
          draw_id_then env _ _ _ _ (λ d. w)
            λ id d d' fresh drawn. lift_then_ w λ _ _. modify_then _ (
              pure_then _ (
                WellHeaded-keep r.heads r.versions _ k w
                  (Untouched-put k id _ r.versions r.versions (no_change k r.versions))
                  (put-AllNamed (version_key k id) _ r.versions w.named record {
                    bucket_id = refl;
                    key = refl;
                    version_id = refl;
                    id = names d' id drawn;
                  })
                  λ head there.
                    let (v, stored, committed, agrees) = w.backed k head there in
                    (
                      v,
                      get-put_ne (version_key k id) (version_key k head.version_id) _ r.versions
                            (fresh_ne k id head.version_id v r.versions fresh stored)
                          ∙ stored,
                      committed,
                      agrees,
                    ))))))

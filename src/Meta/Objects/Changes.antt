-- ===== src/Meta/Objects/Changes.antt =====
-- Changes of a version and of the head that shows it; the tags (internal/meta/memory/repository.go).
use namros.Base.{
  ℕ, String, ◌≡◌, ◌≢◌, refl, sym, subst, ◌∙◌, true, false, not, Option, none, some, is_empty,
  if-cases, eq_of_beq, ne_of_beq, ap, ◌==◌, string_equality,
}
use namros.Base.Maps.{Map, get, put, get-put_self, get-put_ne}
use namros.Base.Exec.{Exec, Leaves, guard_then, gets_then, modify_then, fail_then, modify_last}
use namros.Meta.Model.Segment.{Time}
use namros.Meta.Model.Object.{ObjectVersion, ObjectHead}
use namros.Meta.Repository.{Repository, ObjectKey, VersionKey, object_key_eq, version_key_eq}
use namros.Meta.Objects.{
  object_key, version_key, head_from_version, set_head, store_version, is_committed,
}
use namros.Meta.Objects.Tags.{
  ObjectTagsRequest, tag_head, tag_head_of, tag_version, put_version_tags, put_head_tags,
  put_object_tags,
}
use namros.Meta.Objects.Heads.{
  Named, Backed, WellHeaded, put-AllNamed, Untouched-put, WellHeaded-put, WellHeaded-keep,
}
use namros.Meta.Objects.Ready.{HeadsAgree, no_change}

abbrev shown : ObjectVersion → Time → ℕ → ObjectHead
shown v t revision = record (head_from_version v t) { revision = revision }

-- A version that keeps its names is named as before.
pub renamed :
    (vk : VersionKey) (v v' : ObjectVersion)
    → Named vk v
    → v'.bucket_id ≡ v.bucket_id
    → v'.key ≡ v.key
    → v'.version_id ≡ v.version_id
    → Named vk v'
renamed vk v v' old bucket key id = record {
  bucket_id = bucket ∙ old.bucket_id;
  key = key ∙ old.key;
  version_id = id ∙ old.version_id;
  id = old.id;
}

abbrev pub id_of : Option ObjectHead → String
id_of none = ""
id_of (some head) = head.version_id

module _ (r : Repository) (k : ObjectKey) (i : String) (v v' : ObjectVersion) (w : HeadsAgree r)
    (there : get (version_key k i) r.versions ≡ some v) (new : Named (version_key k i) v')
    (committed : is_committed v'.state ≡ true) where
  pub changed_other :
      ((head : ObjectHead) → get k r.heads ≡ some head → head.version_id ≢ i)
      → WellHeaded r.heads (put (version_key k i) v' r.versions)
  changed_other other =
      WellHeaded-keep r.heads r.versions (put (version_key k i) v' r.versions) k w
        (Untouched-put k i v' r.versions r.versions (no_change k r.versions))
        (put-AllNamed (version_key k i) v' r.versions w.named new)
        λ head at.
          let (u, stored, done, agrees) = w.backed k head at in
          (
            u,
            get-put_ne (version_key k i) (version_key k head.version_id) v' r.versions
                  (λ e. other head at (sym (ap (λ (x : VersionKey). x.version_id) e)))
                ∙ stored,
            done,
            agrees,
          )

  -- the version that a head shows, when it is the changed one
  one_version :
      (u : ObjectVersion) (j : String) → get (version_key k j) r.versions ≡ some u → j ≡ i → u ≡ v
  one_version u j stored e = cc (stored, there, e)

  shown-Backed : (t : Time) (n : ℕ) → Backed (put (version_key k i) v' r.versions) k (shown v' t n)
  unfolding head_from_version
  shown-Backed t n = (
    v',
    ap (λ (j : String). get (version_key k j) (put (version_key k i) v' r.versions)) new.version_id
        ∙ get-put_self (version_key k i) v' r.versions,
    committed,
    refl,
  )

  pub changed_head :
      (f : ObjectHead → ObjectHead) (n : ℕ) (head : ObjectHead)
      → ((t : Time) (m : ℕ) → f (shown v t m) ≡ shown v' t m)
      → get k r.heads ≡ some head
      → head.version_id ≡ i
      → WellHeaded
          (put k (record (f head) { revision = n }) r.heads)
          (put (version_key k i) v' r.versions)
  changed_head f n head follows at same =
      let (u, stored, done, agrees) = w.backed k head at in
      let shows : head ≡ shown v head.last_modified head.revision =
        agrees
        ∙ ap (λ (x : ObjectVersion). shown x head.last_modified head.revision)
            (one_version u head.version_id stored same) in
      let moved : f head ≡ shown v' head.last_modified head.revision =
        ap f shows ∙ follows head.last_modified head.revision in
      WellHeaded-put r.heads r.versions (put (version_key k i) v' r.versions) k w
        (Untouched-put k i v' r.versions r.versions (no_change k r.versions))
        (put-AllNamed (version_key k i) v' r.versions w.named new)
        (record (f head) { revision = n })
        (subst
          (λ (h : ObjectHead).
            Backed (put (version_key k i) v' r.versions) k (record h { revision = n }))
          (sym moved) (shown-Backed head.last_modified n))

-- The version that a request names is given new tags.
tag_head_of-HeadsAgree :
    (r : Repository) (k : ObjectKey) (i : String) (v : ObjectVersion) (tags : Map String String)
    (o : Option ObjectHead)
    → HeadsAgree r
    → get (version_key k i) r.versions ≡ some v
    → is_committed v.state ≡ true
    → get k r.heads ≡ o
    → HeadsAgree
        (tag_head_of k i tags o (store_version (version_key k i) (record v { tags = tags }) r))
unfolding tag_head set_head head_from_version
tag_head_of-HeadsAgree r k i v tags none w there done missing =
    changed_other r k i v (record v { tags = tags }) w there
      (renamed (version_key k i) v (record v { tags = tags }) (w.named.each _ v there) refl refl
        refl)
      done λ head at. cc (missing, at)
tag_head_of-HeadsAgree r k i v tags (some head) w there done at =
    let v' : ObjectVersion = record v { tags = tags } in
    let new =
      renamed (version_key k i) v v' (w.named.each (version_key k i) v there) refl refl refl in
    let stored : Repository = store_version (version_key k i) v' r in
    if-cases HeadsAgree (head.version_id == i) (tag_head k tags head stored) stored
      (λ same.
        changed_head r k i v v' w there new done (λ h. record h { tags = tags }) _ head
          (λ t n. refl) at (eq_of_beq head.version_id i same))
      (λ differs. changed_other r k i v v' w there new done λ other_head other_at e.
        ne_of_beq head.version_id i differs (ap id_of (sym at ∙ other_at) ∙ e))

put_version_tags-HeadsAgree :
    (req : ObjectTagsRequest) (k : ObjectKey) (o : Option ObjectVersion) (r : Repository)
    → HeadsAgree r
    → get (version_key k req.version_id) r.versions ≡ o
    → Leaves HeadsAgree (put_version_tags req k o) r
put_version_tags-HeadsAgree req k none r w missing = fail_then _ w
put_version_tags-HeadsAgree req k (some v) r w there = guard_then _ w λ done. modify_then _ (
    modify_last _
      (tag_head_of-HeadsAgree r k req.version_id v req.tags (get k r.heads) w there done refl))

-- The head and the version that it shows are given new tags.
tagged_head-HeadsAgree :
    (r : Repository) (k : ObjectKey) (tags : Map String String) (head : ObjectHead)
    (o : Option ObjectVersion)
    → HeadsAgree r
    → get k r.heads ≡ some head
    → get (version_key k head.version_id) r.versions ≡ o
    → HeadsAgree (tag_version (version_key k head.version_id) tags o (tag_head k tags head r))
unfolding tag_head set_head head_from_version
tagged_head-HeadsAgree r k tags head none w at missing =
    let (v, stored, done, agrees) = w.backed k head at in absurd (cc (missing, stored))
tagged_head-HeadsAgree r k tags head (some v) w at there =
    let v' : ObjectVersion = record v { tags = tags } in
    let (u, stored, done, agrees) = w.backed k head at in
    let same : u ≡ v = cc (stored, there) in
    changed_head r k head.version_id v v' w there
      (renamed (version_key k head.version_id) v v' (w.named.each _ v there) refl refl refl)
      (ap (λ (x : ObjectVersion). is_committed x.state) (sym same) ∙ done)
      (λ h. record h { tags = tags }) _ head (λ t n. refl) at refl

-- A head shows a version with a name, so the branch for a head without one is not taken.
head_named :
    (k : ObjectKey) (head : ObjectHead) (r : Repository)
    → HeadsAgree r
    → get k r.heads ≡ some head
    → is_empty head.version_id ≡ false
head_named k head r w at =
    let (v, stored, done, agrees) = w.backed k head at in
    (w.named.each (version_key k head.version_id) v stored).id

put_head_tags-HeadsAgree :
    (req : ObjectTagsRequest) (k : ObjectKey) (o : Option ObjectHead) (r : Repository)
    → HeadsAgree r
    → get k r.heads ≡ o
    → Leaves HeadsAgree (put_head_tags req k o) r
unfolding tag_head set_head
put_head_tags-HeadsAgree req k none r w missing = fail_then _ w
put_head_tags-HeadsAgree req k (some head) r w at = modify_then _ (
    modify_last _ (
      if-cases HeadsAgree (is_empty head.version_id) _ _
        (λ unnamed. absurd (cc (unnamed, head_named k head r w at)))
        (λ _.
          tagged_head-HeadsAgree r k req.tags head (get (version_key k head.version_id) r.versions)
            w at refl)))

pub put_object_tags-HeadsAgree :
    (req : ObjectTagsRequest) (r : Repository)
    → HeadsAgree r
    → Leaves HeadsAgree (put_object_tags req) r
unfolding put_object_tags
put_object_tags-HeadsAgree req r w =
    let k = object_key req.bucket_id req.key in
    guard_then _ w λ _. gets_then _ _ (
      gets_then _ _ (
        if-cases (λ (m : Exec Repository (Unit {0})). Leaves HeadsAgree m r)
          (not (is_empty req.version_id)) _ _ (λ _. put_version_tags-HeadsAgree req k _ r w refl)
          (λ _. put_head_tags-HeadsAgree req k _ r w refl)))

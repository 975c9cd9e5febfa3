-- ===== src/Meta/Objects/Promotion.antt =====
-- The head after a deletion (internal/meta/memory/repository.go).
use namros.Base.{
  String, ◌≡◌, ◌≢◌, refl, ◌∙◌, ◌⊎◌, inl, inr, Bool, true, false, Option, none, some, [], ◌∷◌, arith,
  is_empty, sym, if-cases, Bool-cases, Option-cases, eq_of_beq, ne_of_beq, beq_refl, ap, ◌==◌,
  string_equality, if◌then◌else◌, not, ◌||◌, eq_iff,
}
use namros.Base.Text.{text_ltb}
use namros.Base.Maps.{Map, get, delete, get-delete_ne, Unique}
use namros.Meta.Model.Object.{ObjectVersion, ObjectHead}
use namros.Meta.Model.Zero.{no_version}
use namros.Meta.Repository.{Repository, ObjectKey, VersionKey, object_key_eq, version_key_eq}
use namros.Meta.Objects.{version_key, is_committed, latest_committed_version, latest_from}
use namros.Meta.Objects.Delete.{promote, promote_if, promote_after}
use namros.Meta.Objects.Heads.{
  Backed, WellHeaded, AllNamed, Untouched, delete-AllNamed, Untouched-delete, WellHeaded-delete,
  WellHeaded-keep,
}
use namros.Meta.Objects.Ready.{HeadsAgree, no_change, set_head-HeadsAgree}

-- The search starts from the empty version, and takes committed versions of the object only.
abbrev is_foreign : ObjectKey → VersionKey → ObjectVersion → Bool
is_foreign k vk v =
    not (vk.bucket_id == k.bucket_id) || (not (vk.key == k.key) || not (is_committed v.state))

abbrev IsCandidate : ObjectKey → Map VersionKey ObjectVersion → ObjectVersion → Type 0
IsCandidate k m v =
    (v ≡ no_version)
    ⊎ ((id : String) × (get (version_key k id) m ≡ some v) × (is_committed v.state ≡ true))

rest_in_all :
    (vk : VersionKey) (v : ObjectVersion) (rest : Map VersionKey ObjectVersion)
    → Unique ((vk, v) ∷ rest)
    → (j : VersionKey) (w : ObjectVersion) → get j rest ≡ some w
    → get j ((vk, v) ∷ rest) ≡ some w
unfolding get
rest_in_all vk v rest u j w there = elim (Bool-cases (vk == j)) [
  | inl here ↦ cc (there, u.0, eq_of_beq vk j here)
  | inr other ↦ rw other there
]

own_candidate :
    (k : ObjectKey) (vk : VersionKey) (v : ObjectVersion) (rest m : Map VersionKey ObjectVersion)
    → is_foreign k vk v ≡ false
    → ((j : VersionKey) (w : ObjectVersion) → get j ((vk, v) ∷ rest) ≡ some w → get j m ≡ some w)
    → (id : String) × (get (version_key k id) m ≡ some v) × (is_committed v.state ≡ true)
unfolding get
own_candidate k vk v rest m own sub =
    let bucket : vk.bucket_id ≡ k.bucket_id = ground (arith, eq_iff vk.bucket_id k.bucket_id) in
    let key : vk.key ≡ k.key = ground (arith, eq_iff vk.key k.key) in
    let same : vk ≡ version_key k vk.version_id = cc (bucket, key) in
    (vk.version_id, rw (← same) (sub vk v (rw (beq_refl vk) refl)), ground arith)

latest_from-IsCandidate :
    (k : ObjectKey) (m rest : Map VersionKey ObjectVersion) (latest : ObjectVersion)
    → ((vk : VersionKey) (v : ObjectVersion) → get vk rest ≡ some v → get vk m ≡ some v)
    → Unique rest
    → IsCandidate k m latest
    → IsCandidate k m (latest_from k latest rest)
unfolding latest_from get
latest_from-IsCandidate k m [] latest sub u so_far = so_far
latest_from-IsCandidate k m ((vk, v) ∷ rest) latest sub u so_far =
    let sub' = λ (j : VersionKey) (w : ObjectVersion) (there : get j rest ≡ some w).
      sub j w (rest_in_all vk v rest u j w there) in
    let skip = latest_from-IsCandidate k m rest latest sub' u.1 so_far in
    elim (Bool-cases (is_foreign k vk v)) [
      | inl foreign ↦ rw foreign skip
      | inr own ↦
          elim (Bool-cases
            (is_empty latest.version_id || text_ltb latest.version_sort_key v.version_sort_key)) [
              | inl later ↦ rw own (
                  rw later (
                    latest_from-IsCandidate k m rest v sub' u.1
                      (inr (own_candidate k vk v rest m own sub))))
              | inr earlier ↦ rw own (rw earlier skip)
            ]
    ]

zero_is_empty : {v : ObjectVersion} → v ≡ no_version → is_empty v.version_id ≢ false
zero_is_empty p h = cc (ap (λ (w : ObjectVersion). is_empty w.version_id) p, h)

if_found :
    (latest v : ObjectVersion)
    → (if is_empty latest.version_id then none else some latest) ≡ some v
    → (latest ≡ v) × (is_empty latest.version_id ≡ false)
if_found latest v h = ground arith

latest_committed_version_stored :
    (k : ObjectKey) (v : ObjectVersion) (r : Repository)
    → Unique r.versions
    → latest_committed_version k r ≡ some v
    → (id : String) × (get (version_key k id) r.versions ≡ some v) × (is_committed v.state ≡ true)
unfolding latest_committed_version
latest_committed_version_stored k v r u found_it =
    let candidate =
      latest_from-IsCandidate k r.versions r.versions no_version (λ j w there. there) u
        (inl refl) in
    let (same, nonempty) = if_found (latest_from k no_version r.versions) v found_it in
    elim candidate [
      | inl zero ↦ absurd (zero_is_empty zero nonempty)
      | inr (id, there, committed) ↦ (id, rw (← same) there, rw (← same) committed)
    ]

promote-HeadsAgree :
    (m : Map VersionKey ObjectVersion) (k : ObjectKey) (r : Repository)
    → WellHeaded r.heads m
    → Untouched k m r.versions
    → AllNamed r.versions
    → HeadsAgree (promote k (latest_committed_version k r) r)
promote-HeadsAgree m k r w same named = elim (Option-cases (latest_committed_version k r)) [
  | inl none_left ↦ rw none_left (WellHeaded-delete r.heads m r.versions k w same named)
  | inr (v, latest) ↦
      let (id, there, committed) = latest_committed_version_stored k v r named.unique latest in
      let own = named.each (version_key k id) v there in
      rw latest (
        set_head-HeadsAgree m k v v.committed_at r record {
          agreed = w;
          untouched = same;
          named = named;
          there = ap (λ (i : String). get (version_key k i) r.versions) own.version_id ∙ there;
          committed = committed;
        })
]

abbrev id_of : Option ObjectHead → String
id_of none = ""
id_of (some head) = head.version_id

-- A head of another version is still backed.
still-Backed :
    (m m' : Map VersionKey ObjectVersion) (k : ObjectKey) (i : String) (head : ObjectHead)
    → m' ≡ delete (version_key k i) m
    → head.version_id ≢ i
    → Backed m k head
    → Backed m' k head
still-Backed m m' k i head deleted other (v, stored, committed, agrees) = (
  v,
  ap (λ (n : Map VersionKey ObjectVersion). get (version_key k head.version_id) n) deleted
      ∙ (get-delete_ne (version_key k i) (version_key k head.version_id) m
            (λ e. other (sym (ap (λ (x : VersionKey). x.version_id) e)))
          ∙ stored),
  committed,
  agrees,
)

module _ (m : Map VersionKey ObjectVersion) (k : ObjectKey) (i : String) (r : Repository)
    (w : WellHeaded r.heads m) (deleted : r.versions ≡ delete (version_key k i) m) where
  same_but_k : Untouched k m r.versions
  same_but_k = rw deleted (Untouched-delete k i m m (no_change k m))

  left_named : AllNamed r.versions
  left_named = rw deleted (delete-AllNamed (version_key k i) m w.named)

  headless-HeadsAgree : get k r.heads ≡ none → HeadsAgree r
  headless-HeadsAgree missing =
      WellHeaded-keep r.heads m r.versions k w same_but_k left_named
        λ head there. cc (missing, there)

  other_head-HeadsAgree :
      (head : ObjectHead) → get k r.heads ≡ some head → head.version_id ≢ i → HeadsAgree r
  other_head-HeadsAgree head there other =
      WellHeaded-keep r.heads m r.versions k w same_but_k left_named λ other_head at.
        still-Backed m r.versions k i other_head deleted
          (λ e. other (ap id_of (sym there ∙ at) ∙ e)) (w.backed k other_head at)

  promote_some-HeadsAgree :
      (head : ObjectHead) → get k r.heads ≡ some head → HeadsAgree (promote_if k i (some head) r)
  promote_some-HeadsAgree head there =
      if-cases HeadsAgree (head.version_id == i) (promote k (latest_committed_version k r) r) r
        (λ _. promote-HeadsAgree m k r w same_but_k left_named)
        (λ kept. other_head-HeadsAgree head there (ne_of_beq head.version_id i kept))

  promote_if-HeadsAgree :
      (o : Option ObjectHead) → get k r.heads ≡ o → HeadsAgree (promote_if k i o r)
  promote_if-HeadsAgree none missing = headless-HeadsAgree missing
  promote_if-HeadsAgree (some head) there = promote_some-HeadsAgree head there

-- The end of a deletion: `i` was deleted, and the head moves to the latest version that is left.
pub promote_after-HeadsAgree :
    (m : Map VersionKey ObjectVersion) (k : ObjectKey) (i : String) (r : Repository)
    → WellHeaded r.heads m
    → r.versions ≡ delete (version_key k i) m
    → HeadsAgree (promote_after k i r)
unfolding promote_after
promote_after-HeadsAgree m k i r w deleted =
    promote_if-HeadsAgree m k i r w deleted (get k r.heads) refl

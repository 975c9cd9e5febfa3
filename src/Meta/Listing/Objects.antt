-- ===== src/Meta/Listing/Objects.antt =====
-- The entries of `ListObjects` (internal/meta/memory/repository.go).
use namros.Base.{
  String, ◌≡◌, ◌≢◌, refl, sym, ◌∙◌, ◌⊎◌, ◌↔◌, inl, inr, true, not, List, [], subst, string_equality,
  eq_of_beq, beq_of_ne,
}
use namros.Base.Maps.{Unique}
use namros.Base.Text.{text_ltb}
use namros.Base.TextOrder.{text_ltb_trans, text_ltb_of_not}
use namros.Base.TextPrefix.{has_prefix}
use namros.Base.Sorting.{
  All, All-map, All-of, Pairwise, In, sort_slice, All-sort_slice, In-sort_slice,
  sort_slice-Pairwise,
}
use namros.Meta.Model.Object.{ObjectHead}
use namros.Meta.Model.Zero.{no_head}
use namros.Meta.Repository.{Repository, ObjectKey, object_key_eq}
use namros.Meta.Listing.{
  Entry, Scope, gather, object_listed, key_of_object, head_of, object_entry_less, list_entries,
}
use namros.Meta.Listing.Prefixes.{Matches, and_left, prefix-ne-empty}
use namros.Meta.Listing.Gather.{
  Origin, of_item, of_prefix, gather-Origin, gather-item, gather-prefix,
}
use namros.Meta.Listing.Distinct.{Apart, gather-Apart}

-- the names of two entries, in order
abbrev pub Ascends : Entry ObjectHead → Entry ObjectHead → Type 0
Ascends x y = text_ltb x.name y.name ≡ true

abbrev no_id : ObjectHead → String
no_id head = ""

names-Apart : (x y : Entry ObjectHead) → Apart no_id x y → x.name ≢ y.name
names-Apart x y (inl h) = h
names-Apart x y (inr h) = absurd (h.2 refl)

object_entry_less-ne :
    (x y : Entry ObjectHead) → x.name ≢ y.name → object_entry_less x y ≡ text_ltb x.name y.name
unfolding object_entry_less
object_entry_less-ne x y h = rw (beq_of_ne x.name y.name h) refl

one_key : (k k' : ObjectKey) → k.bucket_id ≡ k'.bucket_id → k.key ≡ k'.key → k ≡ k'
one_key k k' p q = λ i. record { bucket_id = p i; key = q i }

module _ (scope : Scope) where
  in_bucket :
      (k : ObjectKey) (v : ObjectHead)
      → Matches scope (object_listed scope) key_of_object k v
      → k.bucket_id ≡ scope.bucket_id
  in_bucket k v m =
      eq_of_beq k.bucket_id scope.bucket_id
        (and_left _ (not v.delete_marker) (and_left _ (has_prefix k.key scope.prefix) m))

  objects_apart :
      (k k' : ObjectKey) (v v' : ObjectHead)
      → k ≢ k'
      → Matches scope (object_listed scope) key_of_object k v
      → Matches scope (object_listed scope) key_of_object k' v'
      → (k.key ≢ k'.key) ⊎ (no_id v ≢ no_id v')
  objects_apart k k' v v' h m m' =
      inl λ same. h (one_key k k' (in_bucket k v m ∙ sym (in_bucket k' v' m')) same)

  -- The entries come in ascending order of their names.
  pub list_entries-Ascends :
      (r : Repository) → Unique r.heads → Pairwise Ascends (list_entries scope r)
  unfolding list_entries
  list_entries-Ascends r u =
      sort_slice-Pairwise object_entry_less Ascends (Apart no_id)
        (λ x y z p q. text_ltb_trans x.name y.name z.name p q)
        (λ x y s below. sym (object_entry_less-ne x y (names-Apart x y s)) ∙ below)
        (λ x y s above.
          text_ltb_of_not x.name y.name (names-Apart x y s)
            (sym (object_entry_less-ne x y (names-Apart x y s)) ∙ above))
        _
        (gather-Apart scope (object_listed scope) key_of_object head_of no_head no_id objects_apart
          [] r.heads u)

-- where an entry of the listing comes from
abbrev pub Shown : Scope → Repository → Entry ObjectHead → Type 0
Shown scope r = Origin scope (object_listed scope) key_of_object head_of no_head [] r.heads

-- The entries of a listing are, in ascending order of their names and each once, one for every object
-- of the bucket that is no delete marker, has the prefix and no delimiter after it, and one for every
-- common prefix that an object of the bucket goes under.
pub list_entries_exact :
    (scope : Scope) (r : Repository) (e : Entry ObjectHead)
    → Unique r.heads
    → Pairwise Ascends (list_entries scope r) × (In e (list_entries scope r) ↔ Shown scope r e)
unfolding list_entries
list_entries_exact scope r e u = (list_entries-Ascends scope r u, (forth, back))
  where
    found : List (Entry ObjectHead)
    found = gather scope (object_listed scope) key_of_object head_of no_head [] r.heads

    forth : In e (sort_slice object_entry_less found) → Shown scope r e
    forth i =
        All-of (Shown scope r) _ e
          (All-sort_slice object_entry_less (Shown scope r) found
            (gather-Origin scope (object_listed scope) key_of_object head_of no_head [] r.heads))
          i

    back : Shown scope r e → In e (sort_slice object_entry_less found)
    back (of_item k v i h c q) =
        subst (λ x. In x (sort_slice object_entry_less found)) q
          (In-sort_slice object_entry_less _ found (
            gather-item scope (object_listed scope) key_of_object head_of no_head [] r.heads k v i h
              c))
    back (of_prefix k v p i h c f q) =
        subst (λ x. In x (sort_slice object_entry_less found)) q
          (In-sort_slice object_entry_less _ found (
            gather-prefix scope (object_listed scope) key_of_object head_of no_head [] r.heads k v p
              i h c f))

-- no object has an empty key
abbrev pub HasKeys : Repository → Type 0
HasKeys r = All (λ (kv : ObjectKey × ObjectHead). kv.0.key ≢ "") r.heads

-- Then no entry has an empty name.
pub names_of_keys :
    (scope : Scope) (r : Repository)
    → HasKeys r
    → All (λ (e : Entry ObjectHead). e.name ≢ "") (list_entries scope r)
unfolding list_entries
names_of_keys scope r keys =
    All-sort_slice object_entry_less (λ (e : Entry ObjectHead). e.name ≢ "") _
      (All-map _ named
        (gather-Origin scope (object_listed scope) key_of_object head_of no_head [] r.heads))
  where
    named : (e : Entry ObjectHead) → Shown scope r e → e.name ≢ ""
    named e (of_item k v i h c q) =
        subst (λ (x : Entry ObjectHead). x.name ≢ "") q
          (All-of (λ (kv : ObjectKey × ObjectHead). kv.0.key ≢ "") r.heads (k, v) keys i)
    named e (of_prefix k v p i h c f q) =
        subst (λ (x : Entry ObjectHead). x.name ≢ "") q (prefix-ne-empty scope k.key p c)

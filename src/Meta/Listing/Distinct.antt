-- ===== src/Meta/Listing/Distinct.antt =====
-- Names and identifiers of the entries of a listing (internal/meta/memory/repository.go).

use namros.Base.{
  String, ◌≡◌, ◌≢◌, refl, sym, ap, ◌∙◌, ◌⊎◌, inl, inr, Bool, false, none, some, List, [], ◌∷◌,
  arith, Equality, string_equality, ne_of_beq, subst,
}
use namros.Base.Maps.{Map, get, Unique}
use namros.Base.Sorting.{All-map, Pairwise, In}
use namros.Meta.Listing.{Entry, Scope, common_prefix, prefix_entry, item_entry, gather}
use namros.Meta.Listing.Prefixes.{key-ne-prefix, not_member, Matches}
use namros.Meta.Listing.Gather.{Origin, of_item, of_prefix, gather-Origin, gather-cases}

-- Two entries that have different names, or are no common prefixes and have different identifiers.
abbrev pub Apart : {I : Type 0} → (I → String) → Entry I → Entry I → Type 0
Apart id x y =
    (x.name ≢ y.name) ⊎ ((x.prefix ≡ false) × (y.prefix ≡ false) × (id x.item ≢ id y.item))

free-cons :
    {K V : Type 0} ⦃e : Equality K⦄ (k j : K) (w : V) (m : Map K V)
    → get k ((j, w) ∷ m) ≡ none
    → (j ≢ k) × (get k m ≡ none)
unfolding get
free-cons k j w m free = (ne_of_beq j k (ground arith), ground arith)

key_at : {K V : Type 0} → K × V → K
key_at (k, v) = k

other_key :
    {K V : Type 0} ⦃e : Equality K⦄ (k k' : K) (v : V) (m : Map K V)
    → get k m ≡ none
    → In (k', v) m
    → k ≢ k'
unfolding key_at
other_key k k' v [] free i q = absurd i
other_key k k' v ((j, w) ∷ m) free (inl p) q = (free-cons k j w m free).0 (ap key_at p ∙ sym q)
other_key k k' v ((j, w) ∷ m) free (inr i) q = other_key k k' v m (free-cons k j w m free).1 i q

module _ {K V I : Type 0} ⦃eq : Equality K⦄ (scope : Scope) (listed : K → V → Bool)
    (key_of : K → String) (item_of : K → V → I) (zero_item : I) where
  -- No two entries have the same name and identifier, if the map's keys are distinct and its elements
  -- with one name have different identifiers.
  module _ (id : I → String)
      (apart : (k k' : K) (v v' : V)
        → k ≢ k'
        → Matches scope listed key_of k v
        → Matches scope listed key_of k' v'
        → (key_of k ≢ key_of k') ⊎ (id (item_of k v) ≢ id (item_of k' v'))) where
    item-Apart :
        (seen : List String) (m : Map K V) (k : K) (v : V) (x : Entry I)
        → get k m ≡ none
        → Matches scope listed key_of k v
        → common_prefix scope (key_of k) ≡ none
        → Origin scope listed key_of item_of zero_item seen m x
        → Apart id (item_entry (key_of k) (item_of k v)) x
    item-Apart seen m k v x free hit alone (of_item k' v' i h c e) =
        subst (Apart id _) e (elim (apart k k' v v' (other_key k k' v' m free i) hit h) [
          | inl names ↦ inl names
          | inr ids ↦ inr (refl, refl, ids)
        ])
    item-Apart seen m k v x free hit alone (of_prefix k' v' p i h c f e) =
        subst (Apart id _) e (inl (key-ne-prefix scope (key_of k) (key_of k') p alone c))

    prefix-Apart :
        (seen : List String) (m : Map K V) (k : K) (p : String) (x : Entry I)
        → common_prefix scope (key_of k) ≡ some p
        → Origin scope listed key_of item_of zero_item (p ∷ seen) m x
        → Apart id (prefix_entry zero_item p) x
    prefix-Apart seen m k p x below (of_item k' v' i h c e) =
        subst (Apart id _) e
          (inl (λ q. key-ne-prefix scope (key_of k') (key_of k) p c below (sym q)))
    prefix-Apart seen m k p x below (of_prefix k' v' p' i h c f e) =
        subst (Apart id _) e (inl (not_member p' p seen f).0)

    pub gather-Apart :
        (seen : List String) (m : Map K V)
        → Unique m
        → Pairwise (Apart id) (gather scope listed key_of item_of zero_item seen m)
    unfolding gather
    gather-Apart seen [] u = tt
    gather-Apart seen ((k, v) ∷ m) u =
        gather-cases scope listed key_of item_of zero_item (Pairwise (Apart id)) seen m k v
          (λ _. gather-Apart seen m u.1)
          (λ hit alone. (
            All-map (gather scope listed key_of item_of zero_item seen m)
                (λ x o. item-Apart seen m k v x u.0 hit alone o)
                (gather-Origin scope listed key_of item_of zero_item seen m),
            gather-Apart seen m u.1,
          ))
          (λ p hit below old. gather-Apart seen m u.1)
          (λ p hit below new. (
            All-map ((gather scope listed key_of item_of zero_item (p ∷ seen) m))
                (λ x o. prefix-Apart seen m k p x below o)
                (gather-Origin scope listed key_of item_of zero_item (p ∷ seen) m),
            gather-Apart (p ∷ seen) m u.1,
          ))

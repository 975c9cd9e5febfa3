-- ===== src/Meta/Listing/Gather.antt =====
-- What the loop of the listings gathers, from where (internal/meta/memory/repository.go).

use namros.Base.{
  String, ◌≡◌, refl, sym, ap, inl, inr, Bool, true, false, ◌&&◌, Bool-cases, Option-cases, none,
  some, List, [], ◌∷◌, Equality, string_equality, ◌==◌, eq_of_beq, subst,
}
use namros.Base.Maps.{Map}
use namros.Base.TextPrefix.{has_prefix}
use namros.Base.Sorting.{All, All-map, In}
use namros.Meta.Listing.{Entry, Scope, common_prefix, member, prefix_entry, item_entry, gather}
use namros.Meta.Listing.Prefixes.{Matches, not_member}

module _ {K V I : Type 0} ⦃eq : Equality K⦄ (scope : Scope) (listed : K → V → Bool)
    (key_of : K → String) (item_of : K → V → I) (zero_item : I) where
  -- where an entry comes from
  pub data Origin (seen : List String) (m : Map K V) (entry : Entry I) : Type 0 where
    of_item :
        (k : K) (v : V)
        → In (k, v) m
        → Matches scope listed key_of k v
        → common_prefix scope (key_of k) ≡ none
        → item_entry (key_of k) (item_of k v) ≡ entry
        → Origin seen m entry
    of_prefix :
        (k : K) (v : V) (p : String)
        → In (k, v) m
        → Matches scope listed key_of k v
        → common_prefix scope (key_of k) ≡ some p
        → member p seen ≡ false
        → prefix_entry zero_item p ≡ entry
        → Origin seen m entry

  Origin-later :
      (kv : K × V) (seen : List String) (m : Map K V) (x : Entry I)
      → Origin seen m x
      → Origin seen (kv ∷ m) x
  Origin-later kv seen m x (of_item k v i h c e) = of_item k v (inr i) h c e
  Origin-later kv seen m x (of_prefix k v p i h c f e) = of_prefix k v p (inr i) h c f e

  Origin-forgets :
      (q : String) (seen : List String) (m : Map K V) (x : Entry I)
      → Origin (q ∷ seen) m x
      → Origin seen m x
  Origin-forgets q seen m x (of_item k v i h c e) = of_item k v i h c e
  Origin-forgets q seen m x (of_prefix k v p i h c f e) =
      of_prefix k v p i h c (not_member p q seen f).1 e

  abbrev pub gathered : List String → Map K V → List (Entry I)
  gathered = gather scope listed key_of item_of zero_item

  -- What the loop does with an element.
  module _ (seen : List String) (m : Map K V) (k : K) (v : V) where
    gather-miss :
        (listed k v && has_prefix (key_of k) scope.prefix) ≡ false
        → gathered seen ((k, v) ∷ m) ≡ gathered seen m
    unfolding gather
    gather-miss miss = rw (miss, gather)

    gather-alone :
        Matches scope listed key_of k v
        → common_prefix scope (key_of k) ≡ none
        → gathered seen ((k, v) ∷ m) ≡ item_entry (key_of k) (item_of k v) ∷ gathered seen m
    unfolding gather
    gather-alone hit alone = rw (hit, gather) (rw (alone, gather))

    module _ (p : String) (hit : Matches scope listed key_of k v)
        (below : common_prefix scope (key_of k) ≡ some p) where
      gather-old : member p seen ≡ true → gathered seen ((k, v) ∷ m) ≡ gathered seen m
      unfolding gather
      gather-old old = rw (hit, gather) (rw (below, gather) (rw (old, gather)))

      gather-new :
          member p seen ≡ false
          → gathered seen ((k, v) ∷ m) ≡ prefix_entry zero_item p ∷ gathered (p ∷ seen) m
      unfolding gather
      gather-new new = rw (hit, gather) (rw (below, gather) (rw (new, gather)))

  -- A statement about what the loop gathers holds if it holds for each thing that the loop does.
  pub gather-cases {κ} :
      (P : List (Entry I) → Type κ) (seen : List String) (m : Map K V) (k : K) (v : V)
      → ((listed k v && has_prefix (key_of k) scope.prefix) ≡ false → P (gathered seen m))
      → (Matches scope listed key_of k v
          → common_prefix scope (key_of k) ≡ none
          → P (item_entry (key_of k) (item_of k v) ∷ gathered seen m))
      → ((p : String)
          → Matches scope listed key_of k v
          → common_prefix scope (key_of k) ≡ some p
          → member p seen ≡ true
          → P (gathered seen m))
      → ((p : String)
          → Matches scope listed key_of k v
          → common_prefix scope (key_of k) ≡ some p
          → member p seen ≡ false
          → P (prefix_entry zero_item p ∷ gathered (p ∷ seen) m))
      → P (gathered seen ((k, v) ∷ m))
  gather-cases P seen m k v if_miss if_alone if_old if_new =
      elim (Bool-cases (listed k v && has_prefix (key_of k) scope.prefix)) [
        | inr miss ↦ subst P (sym (gather-miss seen m k v miss)) (if_miss miss)
        | inl hit ↦ elim (Option-cases (common_prefix scope (key_of k))) [
          | inl alone ↦ subst P (sym (gather-alone seen m k v hit alone)) (if_alone hit alone)
          | inr (p, below) ↦ elim (Bool-cases (member p seen)) [
            | inl old ↦
                subst P (sym (gather-old seen m k v p hit below old)) (if_old p hit below old)
            | inr new ↦
                subst P (sym (gather-new seen m k v p hit below new)) (if_new p hit below new)
          ]
        ]
      ]

  -- Every entry comes from an element of the map.
  pub gather-Origin : (seen : List String) (m : Map K V) → All (Origin seen m) (gathered seen m)
  unfolding gather
  gather-Origin seen [] = tt
  gather-Origin seen ((k, v) ∷ m) =
      let later = All-map (gathered seen m) (Origin-later (k, v) seen m) (gather-Origin seen m) in
      gather-cases (All (Origin seen ((k, v) ∷ m))) seen m k v (λ _. later)
        (λ hit alone. (of_item k v (inl refl) hit alone refl, later)) (λ p hit below old. later)
        (λ p hit below new. (
          of_prefix k v p (inl refl) hit below new refl,
          All-map (gathered (p ∷ seen) m)
              (λ x o. Origin-later (k, v) seen m x (Origin-forgets p seen m x o))
              (gather-Origin (p ∷ seen) m),
        ))

  -- Every listed key under no common prefix has an entry.
  pub gather-item :
      (seen : List String) (m : Map K V) (k : K) (v : V)
      → In (k, v) m
      → Matches scope listed key_of k v
      → common_prefix scope (key_of k) ≡ none
      → In (item_entry (key_of k) (item_of k v)) (gathered seen m)
  unfolding gather
  gather-item seen [] k v i hit alone = absurd i
  gather-item seen ((j, w) ∷ m) k v (inl e) hit alone =
      let entry = item_entry (key_of k) (item_of k v) in
      subst (λ (x : K × V). In entry (gathered seen (x ∷ m))) (sym e)
        (subst (In entry) (sym (gather-alone seen m k v hit alone)) (inl refl))
  gather-item seen ((j, w) ∷ m) k v (inr i) hit alone =
      let later = λ (s : List String). gather-item s m k v i hit alone in
      gather-cases (In (item_entry (key_of k) (item_of k v))) seen m j w (λ _. later seen)
        (λ h c. inr (later seen)) (λ p h c old. later seen) (λ p h c new. inr (later (p ∷ seen)))

  -- Every common prefix of a listed key has an entry.
  pub gather-prefix :
      (seen : List String) (m : Map K V) (k : K) (v : V) (p : String)
      → In (k, v) m
      → Matches scope listed key_of k v
      → common_prefix scope (key_of k) ≡ some p
      → member p seen ≡ false
      → In (prefix_entry zero_item p) (gathered seen m)
  unfolding gather member
  gather-prefix seen [] k v p i hit below new = absurd i
  gather-prefix seen ((j, w) ∷ m) k v p (inl e) hit below new =
      let entry : Entry I = prefix_entry zero_item p in
      subst (λ (x : K × V). In entry (gathered seen (x ∷ m))) (sym e)
        (subst (In entry) (sym (gather-new seen m k v p hit below new)) (inl refl))
  gather-prefix seen ((j, w) ∷ m) k v p (inr i) hit below new =
      gather-cases (In (prefix_entry zero_item p)) seen m j w
        (λ _. gather-prefix seen m k v p i hit below new)
        (λ h c. inr (gather-prefix seen m k v p i hit below new))
        (λ q h c old. gather-prefix seen m k v p i hit below new)
        (λ q h c fresh. elim (Bool-cases (q == p)) [
          | inl same ↦ inl (ap (prefix_entry zero_item) (eq_of_beq q p same))
          | inr other ↦ inr (gather-prefix (q ∷ seen) m k v p i hit below (rw (other, member) new))
        ])

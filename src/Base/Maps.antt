-- ===== src/Base/Maps.antt =====
-- Go's `map[K]V` as an association list with distinct keys. Iteration order carries no meaning in
-- the program; `range` loops are recursions on the list.
use namros.Base.{
  sym, ap, ◌∙◌, ◌⊎◌, eq_of_beq, ne_of_beq, ◌≡◌, ◌≢◌, refl, inl, inr, Option, none, some, List, [],
  ◌∷◌, arith, Equality, ◌==◌, beq_refl, beq_of_ne, Bool-cases, if◌then◌else◌,
}

abbrev pub Map {ℓ κ} : Type ℓ → Type κ → Type (ℓ ⊔ κ)
Map K V = List (K × V)

pub some_injective {ℓ} : {A : Type ℓ} {x y : A} → some x ≡ some y → x ≡ y
some_injective p = cc p

module _ {ℓ κ} {K : Type ℓ} {V : Type κ} ⦃e : Equality K⦄ where
  -- `v, ok := m[k]`
  unfoldable pub get : K → Map K V → Option V
  get k [] = none
  get k ((j, v) ∷ m) = if j == k then some v else get k m

  -- `delete(m, k)`
  unfoldable pub delete : K → Map K V → Map K V
  delete k [] = []
  delete k ((j, v) ∷ m) = let rest = delete k m in if j == k then rest else (j, v) ∷ rest

  -- `m[k] = v`
  unfoldable pub put : K → V → Map K V → Map K V
  unfolding delete
  put k v m = (k, v) ∷ delete k m

  pub get-delete : (k j : K) (m : Map K V) → get j (delete k m) ≡ (if k == j then none else get j m)
  unfolding get delete
  get-delete k j [] = ground arith
  get-delete k j ((i, v) ∷ m) =
      ground (arith, get-delete k j m, e.same_iff i k, e.same_iff i j, e.same_iff k j)

  pub get-put :
      (k j : K) (v : V) (m : Map K V) → get j (put k v m) ≡ (if k == j then some v else get j m)
  unfolding get put
  get-put k j v m = elim (Bool-cases (k == j)) [
    | inl h ↦ rw h refl
    | inr h ↦ rw h (rw (get-delete k j m, h))
  ]

  pub get-put_self : (k : K) (v : V) (m : Map K V) → get k (put k v m) ≡ some v
  get-put_self k v m = rw (get-put k k v m, beq_refl k)

  pub get-put_ne : (k j : K) (v : V) (m : Map K V) → k ≢ j → get j (put k v m) ≡ get j m
  get-put_ne k j v m h = rw (get-put k j v m, beq_of_ne k j h)

  pub get-delete_self : (k : K) (m : Map K V) → get k (delete k m) ≡ none
  get-delete_self k m = rw (get-delete k k m, beq_refl k)

  pub get-delete_ne : (k j : K) (m : Map K V) → k ≢ j → get j (delete k m) ≡ get j m
  get-delete_ne k j m h = rw (get-delete k j m, beq_of_ne k j h)

  -- What is read after a write is the new value, or was there before under another key.
  pub get-put-cases :
      (k j : K) (v u : V) (m : Map K V)
      → get j (put k v m) ≡ some u
      → ((k ≡ j) × (v ≡ u)) ⊎ ((k ≢ j) × (get j m ≡ some u))
  get-put-cases k j v u m there = elim (Bool-cases (k == j)) [
    | inl hit ↦
        let e = eq_of_beq k j hit in
        inl (
          e,
          some_injective (sym (get-put_self k v m) ∙ ap (λ (x : K). get x (put k v m)) e ∙ there),
        )
    | inr miss ↦
        let other = ne_of_beq k j miss in inr (other, sym (get-put_ne k j v m other) ∙ there)
  ]

  pub get-delete-cases :
      (k j : K) (u : V) (m : Map K V) → get j (delete k m) ≡ some u → (k ≢ j) × (get j m ≡ some u)
  get-delete-cases k j u m there = elim (Bool-cases (k == j)) [
    | inl hit ↦
        let e = eq_of_beq k j hit in
        absurd (cc (sym (get-delete_self k m) ∙ ap (λ (x : K). get x (delete k m)) e ∙ there))
    | inr miss ↦ let other = ne_of_beq k j miss in (other, sym (get-delete_ne k j m other) ∙ there)
  ]

-- The keys are distinct, as in every Go map.
abbrev pub Unique {ℓ κ} : {K : Type ℓ} {V : Type κ} ⦃e : Equality K⦄ → Map K V → Type κ
Unique [] = Unit
Unique ((k, v) ∷ m) = (get k m ≡ none) × Unique m

module _ {ℓ κ} {K : Type ℓ} {V : Type κ} ⦃e : Equality K⦄ where
  pub delete-Unique : (k : K) (m : Map K V) → Unique m → Unique (delete k m)
  unfolding delete
  delete-Unique k [] u = tt
  delete-Unique k ((j, v) ∷ m) u = elim (Bool-cases (j == k)) [
    | inl h ↦ rw h (delete-Unique k m u.1)
    | inr h ↦ rw h (ground (arith, get-delete k j m), delete-Unique k m u.1)
  ]

  pub put-Unique : (k : K) (v : V) (m : Map K V) → Unique m → Unique (put k v m)
  unfolding put
  put-Unique k v m u = (get-delete_self k m, delete-Unique k m u)

pub ruleset map_laws = (get-put, get-delete, get-put_self, get-delete_self)

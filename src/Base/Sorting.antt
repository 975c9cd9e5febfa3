-- ===== src/Base/Sorting.antt =====
-- `sort.Slice` of Go's standard library, and predicates on lists.
use namros.Base.{
  ◌≡◌, ◌⊎◌, inl, inr, Bool, true, false, List, [], ◌∷◌, ◌++◌, if◌then◌else◌, if-cases, subst,
}

module _ {ℓ} {A : Type ℓ} (less : A → A → Bool) where
  insert : A → List A → List A
  insert x [] = x ∷ []
  insert x (y ∷ ys) = let later = insert x ys in if less x y then x ∷ (y ∷ ys) else y ∷ later

  -- `sort.Slice(xs, less)`. Where `less` leaves no ties, every way to sort gives this list.
  unfoldable pub sort_slice : List A → List A
  unfolding insert
  sort_slice [] = []
  sort_slice (x ∷ xs) = insert x (sort_slice xs)

abbrev pub All {ℓ κ} : {A : Type ℓ} → (A → Type κ) → List A → Type κ
All P [] = Unit
All P (x ∷ xs) = P x × All P xs

-- Every earlier element is related to every later one.
abbrev pub Pairwise {ℓ κ} : {A : Type ℓ} → (A → A → Type κ) → List A → Type κ
Pairwise R [] = Unit
Pairwise R (x ∷ xs) = All (R x) xs × Pairwise R xs

abbrev pub In : {A : Type 0} → A → List A → Type 0
In a [] = ⊥
In a (x ∷ xs) = (x ≡ a) ⊎ In a xs

pub All-map {ℓ κ κ'} :
    {A : Type ℓ} {P : A → Type κ} {Q : A → Type κ'} (xs : List A)
    → ((x : A) → P x → Q x)
    → All P xs
    → All Q xs
All-map [] f h = tt
All-map (x ∷ xs) f h = (f x h.0, All-map xs f h.1)

pub Pairwise-map {ℓ κ κ'} :
    {A : Type ℓ} {R : A → A → Type κ} {S : A → A → Type κ'} (xs : List A)
    → ((x y : A) → R x y → S x y)
    → Pairwise R xs
    → Pairwise S xs
Pairwise-map [] f h = tt
Pairwise-map (x ∷ xs) f h = (All-map xs (f x) h.0, Pairwise-map xs f h.1)

All-with {κ κ' κ''} :
    {A : Type 0} {P : A → Type κ} {Q : A → Type κ'} {R : A → Type κ''} (xs : List A)
    → ((x : A) → P x → Q x → R x)
    → All P xs
    → All Q xs
    → All R xs
All-with [] f h g = tt
All-with (x ∷ xs) f h g = (f x h.0 g.0, All-with xs f h.1 g.1)

-- A relation between elements that all have a property.
pub Pairwise-with :
    {A : Type 0} {R S : A → A → Type 0} {P : A → Type 0} (xs : List A)
    → ((x y : A) → R x y → P x → P y → S x y)
    → Pairwise R xs
    → All P xs
    → Pairwise S xs
Pairwise-with [] f h g = tt
Pairwise-with (x ∷ xs) f h g =
    (All-with xs (λ y r p. f x y r g.0 p) h.0 g.1, Pairwise-with xs f h.1 g.1)

pub All-of {κ} : {A : Type 0} (P : A → Type κ) (xs : List A) (a : A) → All P xs → In a xs → P a
All-of P [] a h i = absurd i
All-of P (x ∷ xs) a h (inl e) = subst P e h.0
All-of P (x ∷ xs) a h (inr i) = All-of P xs a h.1 i

module _ {A : Type 0} (a : A) where
  pub In-left : (xs ys : List A) → In a xs → In a (xs ++ ys)
  In-left [] ys i = absurd i
  In-left (x ∷ xs) ys (inl e) = inl e
  In-left (x ∷ xs) ys (inr i) = inr (In-left xs ys i)

  pub In-right : (xs ys : List A) → In a ys → In a (xs ++ ys)
  In-right [] ys i = i
  In-right (x ∷ xs) ys i = inr (In-right xs ys i)

  pub In-append : (xs ys : List A) → In a (xs ++ ys) → In a xs ⊎ In a ys
  In-append [] ys i = inr i
  In-append (x ∷ xs) ys (inl e) = inl (inl e)
  In-append (x ∷ xs) ys (inr i) = elim (In-append xs ys i) [ inl j ↦ inl (inr j) | inr j ↦ inr j ]

module _ {ℓ κ} {A : Type ℓ} (less : A → A → Bool) (P : A → Type κ) where
  All-insert : (x : A) (xs : List A) → P x → All P xs → All P (insert less x xs)
  unfolding insert
  All-insert x [] p h = (p, tt)
  All-insert x (y ∷ ys) p h =
      if-cases (All P) (less x y) (x ∷ (y ∷ ys)) (y ∷ insert less x ys) (λ _. (p, h))
        (λ _. (h.0, All-insert x ys p h.1))

  pub All-sort_slice : (xs : List A) → All P xs → All P (sort_slice less xs)
  unfolding sort_slice
  All-sort_slice [] h = tt
  All-sort_slice (x ∷ xs) h = All-insert x (sort_slice less xs) h.0 (All-sort_slice xs h.1)

module _ {A : Type 0} (less : A → A → Bool) (a : A) where
  In-insert : (x : A) (xs : List A) → (x ≡ a) ⊎ In a xs → In a (insert less x xs)
  unfolding insert
  In-insert x [] i = i
  In-insert x (y ∷ ys) i =
      let deeper : ((y ≡ a) ⊎ In a (insert less x ys)) = elim i [
        | inl e ↦ inr (In-insert x ys (inl e))
        | inr (inl e) ↦ inl e
        | inr (inr j) ↦ inr (In-insert x ys (inr j))
      ] in
      if-cases (In a) (less x y) (x ∷ (y ∷ ys)) (y ∷ insert less x ys) (λ _. i) (λ _. deeper)

  pub In-sort_slice : (xs : List A) → In a xs → In a (sort_slice less xs)
  unfolding sort_slice
  In-sort_slice [] i = i
  In-sort_slice (x ∷ xs) (inl e) = In-insert x (sort_slice less xs) (inl e)
  In-sort_slice (x ∷ xs) (inr i) = In-insert x (sort_slice less xs) (inr (In-sort_slice xs i))

-- Sorting puts elements that can be told apart in order: `R` is the order, and `S` says how two
-- elements of the input are told apart.
module _ {ℓ κ} {A : Type ℓ} (less : A → A → Bool) (R S : A → A → Type κ)
    (R_trans : (x y z : A) → R x y → R y z → R x z)
    (forward : (x y : A) → S x y → less x y ≡ true → R x y)
    (backward : (x y : A) → S x y → less x y ≡ false → R y x) where
  insert-Pairwise :
      (x : A) (xs : List A) → All (S x) xs → Pairwise R xs → Pairwise R (insert less x xs)
  unfolding insert
  insert-Pairwise x [] s h = (tt, tt)
  insert-Pairwise x (y ∷ ys) s h =
      if-cases (Pairwise R) (less x y) (x ∷ (y ∷ ys)) (y ∷ insert less x ys)
        (λ below.
          let r = forward x y s.0 below in ((r, All-map ys (λ z q. R_trans x y z r q) h.0), h))
        (λ above.
          (All-insert less (R y) x ys (backward x y s.0 above) h.0, insert-Pairwise x ys s.1 h.1))

  pub sort_slice-Pairwise : (xs : List A) → Pairwise S xs → Pairwise R (sort_slice less xs)
  unfolding sort_slice
  sort_slice-Pairwise [] s = tt
  sort_slice-Pairwise (x ∷ xs) s =
      insert-Pairwise x (sort_slice less xs) (All-sort_slice less (S x) xs s.0)
        (sort_slice-Pairwise xs s.1)

-- ===== src/Meta/Listing/Pages.antt =====
-- Pages of a list of entries, and the search after the last entry of a page.
use namros.Base.{
  ℕ, zero, suc, ◌<◌, ◌≡◌, refl, sym, ap, ◌∙◌, Bool, true, false, some, List, [], ◌∷◌, ◌++◌, length,
  get_elem?, take, arith, subst,
}
use mathlib.Core.List.{append_assoc}
use namros.Base.Sorting.{All, All-map, Pairwise}
use namros.Base.Searching.{search_from, search_from-append}

-- A list cut after its entry at `i`.
pub record Cut {A : Type 0} (i : ℕ) (xs : List A) : Type 0 where
  pub init : List A
  pub last : A
  pub rest : List A
  pub whole : xs ≡ init ++ (last ∷ rest)
  pub page : take (suc i) xs ≡ init ++ (last ∷ [])
  pub marker : get_elem? xs i ≡ some last
  pub shorter : length rest < length xs

module _ {A : Type 0} where
  pub Cut-at : (i : ℕ) (xs : List A) → i < length xs → Cut i xs
  Cut-at i [] h = absurd (omega arith)
  Cut-at zero (x ∷ xs) h = record {
    init = [];
    last = x;
    rest = xs;
    whole = refl;
    page = refl;
    marker = refl;
    shorter = omega arith;
  }
  Cut-at (suc i) (x ∷ xs) h =
      let c = Cut-at i xs (omega arith) in
      record {
        init = x ∷ c.init;
        last = c.last;
        rest = c.rest;
        whole = ap (◌∷◌ x) c.whole;
        page = ap (◌∷◌ x) c.page;
        marker = c.marker;
        shorter = omega (arith, c.shorter);
      }

  pub All-append : (P : A → Type 0) (xs ys : List A) → All P (xs ++ ys) → All P xs × All P ys
  All-append P [] ys h = (tt, h)
  All-append P (x ∷ xs) ys h = let (a, b) = All-append P xs ys h.1 in ((h.0, a), b)

  Pairwise-middle :
      (R : A → A → Type 0) (xs : List A) (x : A) (ys : List A)
      → Pairwise R (xs ++ (x ∷ ys))
      → All (λ y. R y x) xs × All (R x) ys
  Pairwise-middle R [] x ys h = (tt, h.0)
  Pairwise-middle R (z ∷ xs) x ys h =
      let (before, after) = Pairwise-middle R xs x ys h.1 in
      ((((All-append (R z) xs (x ∷ ys) h.0).1).0, before), after)

  pub snoc : (xs : List A) (x : A) (ys : List A) → (xs ++ (x ∷ [])) ++ ys ≡ xs ++ (x ∷ ys)
  snoc [] x ys = refl
  snoc (z ∷ xs) x ys = ap (◌∷◌ z) (snoc xs x ys)

  All-snoc : (P : A → Type 0) (xs : List A) (x : A) → All P xs → P x → All P (xs ++ (x ∷ []))
  All-snoc P [] x h p = (p, tt)
  All-snoc P (z ∷ xs) x h p = (h.0, All-snoc P xs x h.1 p)

  -- A cut of what follows a front is a cut of the whole.
  pub Cut-behind :
      (front : List A) (i : ℕ) (rest : List A) (c : Cut i rest)
      → front ++ rest ≡ (front ++ c.init) ++ (c.last ∷ c.rest)
  Cut-behind front i rest c =
      ap (λ (l : List A). front ++ l) c.whole ∙ sym (append_assoc front c.init (c.last ∷ c.rest))

  -- A test that tells what stands after an entry from what stands before it.
  abbrev pub Separates : (A → A → Bool) → A → A → Type 0
  Separates test x y = (test x y ≡ true) × (test y x ≡ false)

  -- The search after an entry of a list that is in order finds what follows it.
  pub search_after :
      (test : A → A → Bool) (xs : List A) (x : A) (ys : List A)
      → Pairwise (Separates test) (xs ++ (x ∷ ys))
      → test x x ≡ false
      → search_from (test x) (xs ++ (x ∷ ys)) ≡ ys
  search_after test xs x ys h self =
      let (before, after) = Pairwise-middle (Separates test) xs x ys h in
      subst (λ l. search_from (test x) l ≡ ys) (snoc xs x ys)
        (search_from-append (test x) (xs ++ (x ∷ [])) ys
          (All-snoc (λ y. test x y ≡ false) xs x (All-map xs (λ y s. s.1) before) self)
          (All-map ys (λ y s. s.0) after))

-- ===== src/Base/Searching.antt =====
-- `sort.Search` of Go's standard library over the entries of a slice: a binary search for the first
-- entry that a test accepts.
use namros.Base.{
  ℕ, zero, suc, ◌+◌, ◌/◌, ◌≤◌, ◌<◌, ◌≡◌, refl, ap, ◌∙◌, inl, inr, Bool-cases, Bool, true, false,
  ltb, none, some, List, [], ◌∷◌, ◌++◌, length, get_elem?, arith, if◌then◌else◌,
}
use namros.Base.Sorting.{All}

-- the loop of `sort.Search` from `i` to `j`, over the rounds left
search_loop : ℕ → (ℕ → Bool) → ℕ → ℕ → ℕ
search_loop zero f i j = i
search_loop (suc rounds) f i j =
    let h = (i + j) / 2 in
    let rest = search_loop rounds f (if f h then i else h + 1) (if f h then h else j) in
    if ltb i j then rest else i

-- The loop ends at the boundary of the test, if there is one in its range.
search_loop-finds :
    (rounds : ℕ) (f : ℕ → Bool) (i j t : ℕ)
    → i ≤ t
    → t ≤ j
    → j ≤ i + rounds
    → ((h : ℕ) → i ≤ h → h < t → f h ≡ false)
    → ((h : ℕ) → t ≤ h → h < j → f h ≡ true)
    → search_loop rounds f i j ≡ t
unfolding search_loop
search_loop-finds zero f i j t lo hi enough refused accepted = omega arith
search_loop-finds (suc rounds) f i j t lo hi enough refused accepted =
    let h : ℕ = (i + j) / 2 in
    elim (Bool-cases (ltb i j)) [
      | inl more ↦ elim (Bool-cases (f h)) [
        | inl hit ↦
            rw (more, hit)
              (search_loop-finds rounds f i h t lo (ground (arith, refused h)) (ground arith)
                refused (λ k above below. accepted k above (ground arith)))
        | inr miss ↦
            rw (more, miss)
              (search_loop-finds rounds f (h + 1) j t (ground (arith, accepted h)) hi (ground arith)
                (λ k above below. refused k (omega arith) below) accepted)
      ]
      | inr done ↦ ground arith
    ]

-- A range that the test refuses is passed over.
search_loop-passes :
    (rounds : ℕ) (f : ℕ → Bool) (i j : ℕ)
    → i ≤ j
    → j ≤ i + rounds
    → ((h : ℕ) → i ≤ h → h < j → f h ≡ false)
    → search_loop rounds f i j ≡ j
search_loop-passes rounds f i j le enough refused =
    search_loop-finds rounds f i j j le (omega arith) enough refused
      (λ h above below. absurd (omega arith))

-- The first probe is behind the only position that the test may accept.
search_loop-misses :
    (rounds : ℕ) (f : ℕ → Bool) (p j : ℕ)
    → p < j / 2
    → j ≤ suc rounds
    → ((h : ℕ) → p < h → h < j → f h ≡ false)
    → search_loop (suc rounds) f 0 j ≡ j
unfolding search_loop
search_loop-misses rounds f p j half enough refused =
    let h : ℕ = (0 + j) / 2 in
    let miss : f h ≡ false = refused h (omega arith) (omega arith) in
    let more : ltb 0 j ≡ true = ground arith in
    rw (more, miss)
      (search_loop-passes rounds f (h + 1) j (omega arith) (omega arith)
        (λ k above below. refused k (omega arith) below))

abbrev pub drop {ℓ} : {A : Type ℓ} → ℕ → List A → List A
drop zero xs = xs
drop (suc n) [] = []
drop (suc n) (x ∷ xs) = drop n xs

module _ {ℓ} {A : Type ℓ} where
  -- `test(entries[i])`
  abbrev pub at : (A → Bool) → List A → ℕ → Bool
  at test xs i = elim (get_elem? xs i) [ none ↦ false | some x ↦ test x ]

  -- `sort.Search(len(entries), func(i int) bool { return test(entries[i]) })`; each round halves the
  -- range, so a round for each entry is enough
  unfoldable pub search : (A → Bool) → List A → ℕ
  unfolding search_loop
  search test xs = search_loop (length xs) (at test xs) 0 (length xs)

  -- `entries[sort.Search(...):]`
  unfoldable pub search_from : (A → Bool) → List A → List A
  unfolding search
  search_from test xs = drop (search test xs) xs

  at-front :
      (test : A → Bool) (xs ys : List A) (h : ℕ)
      → All (λ x. test x ≡ false) xs
      → h < length xs
      → at test (xs ++ ys) h ≡ false
  at-front test [] ys h all lt = absurd (omega arith)
  at-front test (x ∷ xs) ys zero all lt = all.0
  at-front test (x ∷ xs) ys (suc h) all lt = at-front test xs ys h all.1 (omega arith)

  at-All :
      (test : A → Bool) (ys : List A) (h : ℕ)
      → All (λ x. test x ≡ true) ys
      → h < length ys
      → at test ys h ≡ true
  at-All test [] h all lt = absurd (omega arith)
  at-All test (y ∷ ys) zero all lt = all.0
  at-All test (y ∷ ys) (suc h) all lt = at-All test ys h all.1 (omega arith)

  at-back :
      (test : A → Bool) (xs ys : List A) (h : ℕ)
      → All (λ x. test x ≡ true) ys
      → length xs ≤ h
      → h < length (xs ++ ys)
      → at test (xs ++ ys) h ≡ true
  at-back test [] ys h all le lt = at-All test ys h all lt
  at-back test (x ∷ xs) ys zero all le lt = absurd (omega arith)
  at-back test (x ∷ xs) ys (suc h) all le lt = at-back test xs ys h all (omega arith) (omega arith)

  length-le-append : (xs ys : List A) → length xs ≤ length (xs ++ ys)
  length-le-append [] ys = omega arith
  length-le-append (x ∷ xs) ys = omega (arith, length-le-append xs ys)

  drop-append : (xs ys : List A) → drop (length xs) (xs ++ ys) ≡ ys
  drop-append [] ys = refl
  drop-append (x ∷ xs) ys = drop-append xs ys

  -- The search splits the entries at the boundary of the test.
  pub search_from-append :
      (test : A → Bool) (xs ys : List A)
      → All (λ x. test x ≡ false) xs
      → All (λ y. test y ≡ true) ys
      → search_from test (xs ++ ys) ≡ ys
  unfolding search_from
  search_from-append test xs ys refused accepted =
      ap (λ (n : ℕ). drop n (xs ++ ys))
        (search_loop-finds (length (xs ++ ys)) (at test (xs ++ ys)) 0 (length (xs ++ ys))
          (length xs) (omega arith) (length-le-append xs ys) (omega arith)
          (λ h _ lt. at-front test xs ys h refused lt)
          (λ h le lt. at-back test xs ys h accepted le lt))
      ∙ drop-append xs ys

  at-past :
      (test : A → Bool) (xs : List A) (x : A) (ys : List A) (h : ℕ)
      → All (λ y. test y ≡ false) ys
      → length xs < h
      → at test (xs ++ (x ∷ ys)) h ≡ false
  at-past test [] x ys zero after past = absurd (omega arith)
  at-past test [] x [] (suc h) after past = refl
  at-past test [] x (y ∷ ys) (suc zero) after past = after.0
  at-past test [] x (y ∷ ys) (suc (suc h)) after past =
      at-past test [] y ys (suc h) after.1 (omega arith)
  at-past test (z ∷ xs) x ys zero after past = absurd (omega arith)
  at-past test (z ∷ xs) x ys (suc h) after past = at-past test xs x ys h after (omega arith)

  length-middle :
      (xs : List A) (x : A) (ys : List A) → length (xs ++ (x ∷ ys)) ≡ suc (length xs + length ys)
  length-middle [] x ys = omega arith
  length-middle (z ∷ xs) x ys = omega (arith, length-middle xs x ys)

  drop_all : (xs : List A) → drop (length xs) xs ≡ []
  drop_all [] = refl
  drop_all (x ∷ xs) = drop_all xs

  -- The rounds are those of the length.
  search-past :
      (test : A → Bool) (xs : List A) (p n : ℕ)
      → length xs ≡ suc n
      → p < length xs / 2
      → ((h : ℕ) → p < h → at test xs h ≡ false)
      → search test xs ≡ length xs
  unfolding search
  search-past test xs p n long half refused =
      ap (λ (rounds : ℕ). search_loop rounds (at test xs) 0 (length xs)) long
      ∙ search_loop-misses n (at test xs) p (length xs) half (omega (arith, long))
          (λ h past below. refused h past)

  -- Where the test refuses every entry behind one in the first half, the search finds none.
  pub search_from-misses :
      (test : A → Bool) (front back : List A) (x : A)
      → All (λ y. test y ≡ false) back
      → length front < length back
      → search_from test (front ++ (x ∷ back)) ≡ []
  unfolding search_from
  search_from-misses test front back x after half =
      let xs = front ++ (x ∷ back) in
      let long = length-middle front x back in
      ap (λ (n : ℕ). drop n xs)
        (search-past test xs (length front) (length front + length back) long (omega (arith, long))
          (λ h past. at-past test front x back h after past))
      ∙ drop_all xs

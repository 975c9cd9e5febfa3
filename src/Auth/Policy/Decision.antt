-- ===== src/Auth/Policy/Decision.antt =====
-- About the decision of a policy document (internal/auth/policy.go, `Decide`).
use namros.Base.{
  String, ◌≡◌, ◌↔◌, inl, inr, refl, sym, ap, ◌∙◌, Bool, true, false, List, [], ◌∷◌, arith,
  Bool-cases, if◌then◌else◌, ◌&&◌, ◌||◌, subst,
}
use namros.Base.Sorting.{All, In}
use namros.Auth.Principal.{Principal, CaseTables, equal_fold}
use namros.Auth.Policy.{PolicyStatement, PolicyDocument, matches, decide_from, policy_decide}

allowed_parts : (d g : Bool) → (if d then false else false || g) ≡ true → (d ≡ false) × (g ≡ true)
allowed_parts true g h = cc h
allowed_parts false g h = (refl, h)

or_true : (b : Bool) → (b || true) ≡ true
or_true true = refl
or_true false = refl

module _ (tables : CaseTables) (principal : Principal) (action resource : String) where
  -- a statement that matches the request and has the effect
  abbrev pub Applies : String → PolicyStatement → Type 0
  Applies effect s =
      (matches tables s principal action resource ≡ true)
      × (equal_fold tables s.effect effect ≡ true)

  denied : List PolicyStatement → Bool
  denied [] = false
  denied (s ∷ statements) =
      (matches tables s principal action resource && equal_fold tables s.effect "Deny")
      || denied statements

  granted : List PolicyStatement → Bool
  granted [] = false
  granted (s ∷ statements) =
      (matches tables s principal action resource && equal_fold tables s.effect "Allow")
      || granted statements

  -- The loop answers by the two questions, in whatever order the statements stand.
  decide_from-allowed :
      (allowed : Bool) (sid : String) (statements : List PolicyStatement)
      → (decide_from tables allowed sid statements principal action resource).allowed
        ≡ (if denied statements then false else allowed || granted statements)
  unfolding decide_from denied granted
  decide_from-allowed allowed sid [] = elim (Bool-cases allowed) [
    | inl p ↦ rw p refl
    | inr p ↦ rw p refl
  ]
  decide_from-allowed allowed sid (s ∷ statements) =
      elim (Bool-cases (matches tables s principal action resource)) [
        | inr miss ↦ rw (miss, decide_from) (decide_from-allowed allowed sid statements)
        | inl hit ↦ elim (Bool-cases (equal_fold tables s.effect "Deny")) [
          | inl deny ↦ rw (hit, decide_from) (rw (deny, decide_from) refl)
          | inr other ↦ elim (Bool-cases (equal_fold tables s.effect "Allow")) [
            | inl allow ↦
                rw (hit, decide_from)
                  (rw (other, allow, decide_from)
                    (decide_from-allowed true s.sid statements
                      ∙ ap (λ (b : Bool). if denied statements then false else b)
                          (sym (or_true allowed))))
            | inr neither ↦
                rw (hit, decide_from)
                  (rw (other, neither, decide_from) (decide_from-allowed allowed sid statements))
          ]
        ]
      ]

  NotDenied-of :
      (statements : List PolicyStatement)
      → denied statements ≡ false
      → All (λ s. ¬ Applies "Deny" s) statements
  unfolding denied
  NotDenied-of [] h = tt
  NotDenied-of (s ∷ statements) h = ((λ a. ground arith), NotDenied-of statements (ground arith))

  denied-of :
      (statements : List PolicyStatement)
      → All (λ s. ¬ Applies "Deny" s) statements
      → denied statements ≡ false
  unfolding denied
  denied-of [] h = refl
  denied-of (s ∷ statements) h =
      elim (Bool-cases
        (matches tables s principal action resource && equal_fold tables s.effect "Deny")) [
          | inl both ↦ absurd (h.0 (ground arith, ground arith))
          | inr not_both ↦ rw not_both (denied-of statements h.1)
        ]

  granted-of :
      (statements : List PolicyStatement) (s : PolicyStatement)
      → In s statements
      → Applies "Allow" s
      → granted statements ≡ true
  unfolding granted
  granted-of [] s i h = absurd i
  granted-of (t ∷ statements) s (inl e) h =
      subst (λ (x : PolicyStatement). granted (x ∷ statements) ≡ true) (sym e) (rw (h.0, h.1) refl)
  granted-of (t ∷ statements) s (inr i) h = ground (arith, granted-of statements s i h)

  granting :
      (statements : List PolicyStatement)
      → granted statements ≡ true
      → (s : PolicyStatement) × In s statements × Applies "Allow" s
  unfolding granted
  granting [] h = cc h
  granting (s ∷ statements) h =
      elim (Bool-cases
        (matches tables s principal action resource && equal_fold tables s.effect "Allow")) [
          | inl both ↦ (s, inl refl, (ground arith, ground arith))
          | inr not_both ↦ let (t, i, a) = granting statements (ground arith) in (t, inr i, a)
        ]

  -- A policy allows a request exactly when some statement with the effect Allow matches it and none with
  -- the effect Deny does, in whatever order they stand.
  pub policy_decide_allowed_iff :
      (policy : PolicyDocument)
      → ((policy_decide tables policy principal action resource).allowed ≡ true) ↔ (
          ((s : PolicyStatement) × In s policy.statements × Applies "Allow" s)
          × All (λ s. ¬ Applies "Deny" s) policy.statements)
  unfolding policy_decide
  policy_decide_allowed_iff policy =
      let answer = decide_from-allowed false "" policy.statements in
      (
        λ h.
            let (let_through, given) =
              allowed_parts (denied policy.statements) (granted policy.statements)
                (sym answer ∙ h) in
            (granting policy.statements given, NotDenied-of policy.statements let_through),
        λ h.
            let (s, i, a) = h.0 in
            answer ∙ rw (denied-of policy.statements h.1, granted-of policy.statements s i a) refl,
      )

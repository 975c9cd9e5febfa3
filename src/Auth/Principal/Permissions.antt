-- ===== src/Auth/Principal/Permissions.antt =====
-- About what a principal may do by its own permissions (internal/auth/auth.go).
use namros.Base.{
  String, ◌≡◌, ◌≢◌, ◌↔◌, ◌⊎◌, inl, inr, refl, ap, true, List, [], ◌∷◌, Bool-cases, is_empty,
  string_equality, eq_of_beq, ne_of_beq,
}
use namros.Base.Text.{trim_space}
use namros.Base.Sorting.{In}
use namros.Auth.Principal.{
  Principal, CaseTables, action_matches, matches_any, evaluate_principal_action,
}

module _ (tables : CaseTables) where
  pub matches_any_iff :
      (patterns : List String) (value : String)
      → (matches_any tables patterns value ≡ true)
        ↔ ((p : String) × In p patterns × (action_matches tables p value ≡ true))
  unfolding matches_any
  matches_any_iff [] value = ((λ h. cc h), λ (p, i, m). absurd i)
  matches_any_iff (q ∷ patterns) value = elim (Bool-cases (action_matches tables q value)) [
    | inl hit ↦ ((λ h. (q, inl refl, hit)), λ h. rw hit refl)
    | inr miss ↦ (
      λ h. let (p, i, m) = (matches_any_iff patterns value).0 (rw miss at h) in (p, inr i, m),
      λ (p, i, m). elim i [
        | inl e ↦ cc (miss, ap (λ (x : String). action_matches tables x value) e, m)
        | inr j ↦ rw miss ((matches_any_iff patterns value).1 (p, j, m))
      ],
    )
  ]

  -- A principal may do an action by itself exactly when it is root, or the action is not blank and one of
  -- the permissions matches it; the resource does not matter.
  pub evaluate_principal_action_allowed_iff :
      (principal : Principal) (action resource : String)
      → ((evaluate_principal_action tables principal action resource).allowed ≡ true) ↔ (
          (principal.root ≡ true)
          ⊎ ((trim_space action ≢ "")
              × ((p : String) × In p principal.permissions
                  × (action_matches tables p (trim_space action) ≡ true))))
  unfolding evaluate_principal_action
  evaluate_principal_action_allowed_iff principal action resource =
      elim (Bool-cases principal.root) [
        | inl root ↦ ((λ h. inl root), λ h. rw root refl)
        | inr not_root ↦ elim (Bool-cases (is_empty (trim_space action))) [
          | inl blank ↦ (
            (λ h. cc (rw (not_root, blank) at h)),
            λ h. elim h [
              | inl r ↦ cc (not_root, r)
              | inr m ↦ absurd (m.0 (eq_of_beq (trim_space action) "" blank))
            ],
          )
          | inr named ↦
              elim (Bool-cases (matches_any tables principal.permissions (trim_space action))) [
                | inl hit ↦ (
                  λ h. inr (
                    ne_of_beq (trim_space action) "" named,
                    (matches_any_iff principal.permissions (trim_space action)).0 hit,
                  ),
                  λ h. rw (not_root, named, hit) refl,
                )
                | inr miss ↦ (
                  λ h. cc (rw (not_root, named, miss) at h),
                  λ h. elim h [
                    | inl r ↦ cc (not_root, r)
                    | inr m ↦
                        cc (miss, (matches_any_iff principal.permissions (trim_space action)).1 m.1)
                  ],
                )
              ]
        ]
      ]

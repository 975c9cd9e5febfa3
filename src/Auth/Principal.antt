-- ===== src/Auth/Principal.antt =====
-- Principals and their own permissions (internal/auth/auth.go).
pub mod Permissions
use namros.Base.{
  ℕ, String, Bool, true, false, List, [], ◌∷◌, nat_beq, is_empty, string_equality, ◌==◌,
  if◌then◌else◌, ◌&&◌, ◌||◌, not, Option, none, some,
}
use Prim.Native.Char.{Char, code}
use namros.Base.Text.{trim_space}
use namros.Base.TextPrefix.{has_prefix}

pub record Principal : Type 0 where
  pub tenant_id : String
  pub access_key_id : String
  pub display_name : String
  pub subject : String
  pub groups : List String
  pub roles : List String
  pub session_id : String
  pub external_issuer : String
  pub policy_version : String
  pub source_identity : String
  pub root : Bool
  pub permissions : List String

pub record PolicyDecision : Type 0 where
  pub allowed : Bool
  pub source : String
  pub reason : String
  pub action : String
  pub resource : String
  pub statement_sid : String
  pub principal : Principal
  pub policy_version : String

-- Unicode's tables for letter case: `unicode.ToLower`, and whether two characters fold to one, which
-- `strings.EqualFold` asks.
pub record CaseTables : Type 0 where
  pub to_lower : Char → Char
  pub same_fold : Char → Char → Bool

-- the decision that the evaluations return, with the fields that they all fill in one way
abbrev pub decide : Bool → String → String → String → String → String → Principal → PolicyDecision
decide allowed source reason action resource sid principal = record {
  allowed = allowed;
  source = source;
  reason = reason;
  action = action;
  resource = resource;
  statement_sid = sid;
  principal = principal;
  policy_version = principal.policy_version;
}

-- the text without a final `*`, if it has one: `strings.HasSuffix` and `strings.TrimSuffix`
unfoldable pub strip_star : String → Option String
strip_star String.[] = none
strip_star (String.◌∷◌ c String.[]) = if nat_beq (code c) b'*' then some "" else none
strip_star (String.◌∷◌ c (String.◌∷◌ d s)) =
    elim (strip_star (String.◌∷◌ d s)) as (λ _. Option String) [
      | none ↦ none
      | some rest ↦ some (String.◌∷◌ c rest)
    ]

module _ (tables : CaseTables) where
  -- `strings.ToLower`
  unfoldable pub to_lower : String → String
  to_lower String.[] = ""
  to_lower (String.◌∷◌ c s) = String.◌∷◌ (tables.to_lower c) (to_lower s)

  -- `strings.EqualFold`
  unfoldable pub equal_fold : String → String → Bool
  equal_fold String.[] String.[] = true
  equal_fold String.[] (String.◌∷◌ d t) = false
  equal_fold (String.◌∷◌ c s) String.[] = false
  equal_fold (String.◌∷◌ c s) (String.◌∷◌ d t) = tables.same_fold c d && equal_fold s t

  -- a pattern that ends in `*` and the texts it stands for
  abbrev pub star_matches : Option String → String → Bool
  star_matches none action = false
  star_matches (some prefix) action = has_prefix (to_lower action) (to_lower prefix)

  abbrev pub pattern_matches : String → String → Bool
  pattern_matches permission action =
      if is_empty permission
      then false
      else if permission == "*"
      then true
      else if equal_fold permission action
      then true
      else star_matches (strip_star permission) action

  -- `actionMatches`
  unfoldable pub action_matches : String → String → Bool
  action_matches permission action = pattern_matches (trim_space permission) action

  -- the loop of `EvaluatePrincipalAction`, and `matchesAny` of internal/auth/policy.go
  unfoldable pub matches_any : List String → String → Bool
  matches_any [] value = false
  matches_any (pattern ∷ patterns) value =
      let rest = matches_any patterns value in if action_matches pattern value then true else rest

  -- `EvaluatePrincipalAction`
  unfoldable pub evaluate_principal_action : Principal → String → String → PolicyDecision
  evaluate_principal_action principal action resource =
      let act : String = trim_space action in
      let res : String = trim_space resource in
      let own : String = "principal_permissions" in
      if principal.root
      then decide true "root_principal" "root principal allows all actions" act res "" principal
      else if is_empty act
      then decide false own "empty action" "" res "" principal
      else if matches_any principal.permissions act
      then decide true own "permission matched" act res "" principal
      else decide false own "no matching permission" act res "" principal

  -- `AllowsAction`
  unfoldable pub allows_action : Principal → String → Bool
  unfolding evaluate_principal_action
  allows_action principal action = (evaluate_principal_action principal action "").allowed

-- ===== src/Auth/Policy.antt =====
-- Policy documents (internal/auth/policy.go): which statements match, and the decision.
pub mod Decision
pub mod Parse
pub mod Canonical
mod Scenarios
use namros.Base.{
  String, Bool, true, false, List, [], ◌∷◌, ◌++◌, is_empty, string_equality, ◌==◌, if◌then◌else◌,
  ◌&&◌, ◌||◌, not,
}
use namros.Base.Text.{trim_space}
use namros.Base.Exec.{Result, ok, err, invalid_argument}
use namros.Auth.Principal.{Principal, PolicyDecision, CaseTables, decide, equal_fold, matches_any}

pub record PolicyStatement : Type 0 where
  pub sid : String
  pub effect : String
  pub principals : List String
  pub actions : List String
  pub resources : List String

pub record PolicyDocument : Type 0 where
  pub version : String
  pub statements : List PolicyStatement

-- `compactStrings`
unfoldable pub compact_strings : List String → List String
compact_strings [] = []
compact_strings (value ∷ values) =
    let rest = compact_strings values in
    if is_empty (trim_space value) then rest else trim_space value ∷ rest

-- `principalMatchCandidates`
unfoldable pub principal_match_candidates : Principal → List String
unfolding compact_strings
principal_match_candidates p = compact_strings (
    p.access_key_id
    ∷ p.tenant_id
    ∷ p.display_name
    ∷ p.subject
    ∷ p.session_id
    ∷ p.external_issuer
    ∷ p.source_identity
    ∷ (p.groups ++ p.roles))

unfoldable pub contains : List String → String → Bool
contains [] value = false
contains (v ∷ values) value = value == v || contains values value

-- the loop of `principalMatches`, with the candidates computed before
unfoldable pub names_principal : List String → List String → Bool
unfolding contains
names_principal candidates [] = false
names_principal candidates (name ∷ names) =
    let rest = names_principal candidates names in
    let candidate = trim_space name in
    if candidate == "*"
    then true
    else if not (is_empty candidate) && contains candidates candidate
    then true
    else rest

-- `principalMatches`
unfoldable pub principal_matches : List String → Principal → Bool
unfolding names_principal principal_match_candidates
principal_matches principals principal =
    names_principal (principal_match_candidates principal) principals

module _ (tables : CaseTables) where
  -- `PolicyStatement.matches`
  unfoldable pub matches : PolicyStatement → Principal → String → String → Bool
  matches s principal action resource =
      if not (principal_matches s.principals principal)
      then false
      else if not (matches_any tables s.actions action)
      then false
      else matches_any tables s.resources resource

  -- what is left after the loop of `Decide`: the last matching Allow, if there was one
  abbrev pub undenied : Bool → String → Principal → String → String → PolicyDecision
  undenied allowed allow_sid principal action resource =
      if allowed
      then decide true "policy_document" "allow matched" (trim_space action) (trim_space resource)
          allow_sid principal
      else decide false "policy_document" "no matching allow" (trim_space action)
          (trim_space resource) "" principal

  -- the loop of `Decide`, with its variables `allowed` and `allowSid`
  unfoldable pub decide_from :
      Bool → String → List PolicyStatement → Principal → String → String → PolicyDecision
  decide_from allowed allow_sid [] principal action resource =
      undenied allowed allow_sid principal action resource
  decide_from allowed allow_sid (s ∷ statements) principal action resource =
      let allows = equal_fold tables s.effect "Allow" in
      elim (matches s principal action resource) [
        | false ↦ decide_from allowed allow_sid statements principal action resource
        | true ↦ elim (equal_fold tables s.effect "Deny") [
          | true ↦
              decide false "policy_document" "explicit deny" (trim_space action)
                (trim_space resource) s.sid principal
          | false ↦
              decide_from (if allows then true else allowed) (if allows then s.sid else allow_sid)
                statements principal action resource
        ]
      ]

  -- `PolicyDocument.Decide`
  unfoldable pub policy_decide : PolicyDocument → Principal → String → String → PolicyDecision
  unfolding decide_from
  policy_decide p principal action resource =
      decide_from false "" p.statements principal action resource

-- ===== src/Auth/Policy/Scenarios.antt =====
-- Policies that allow and deny, with case tables that fold nothing.
use Prim.Native.Char.{code}
use namros.Base.{String, ◌≡◌, ◌≢◌, ◌↔◌, ◌⊎◌, refl, true, false, [], ◌∷◌, nat_beq, string_equality}
use namros.Base.Text.{trim_space}
use namros.Base.TextPrefix.{has_prefix}
use namros.Base.Sorting.{All, In}
use namros.Auth.Principal.{
  Principal, CaseTables, action_matches, equal_fold, matches_any, strip_star, to_lower,
  evaluate_principal_action,
}
use namros.Auth.Principal.Permissions.{evaluate_principal_action_allowed_iff}
use namros.Auth.Policy.{PolicyStatement, PolicyDocument, matches, principal_matches, policy_decide}
use namros.Auth.Policy.Decision.{Applies, policy_decide_allowed_iff}
use namros.Auth.Policy.Parse.{RawValue, RawPolicyStatement}

abbrev exact_case : CaseTables
exact_case = record { to_lower = λ c. c; same_fold = λ c d. nat_beq (code c) (code d) }

abbrev ann : Principal
ann = record {
  tenant_id = "t";
  access_key_id = "ak";
  display_name = "ann";
  subject = "";
  groups = [];
  roles = [];
  session_id = "";
  external_issuer = "";
  policy_version = "";
  source_identity = "";
  root = false;
  permissions = "s3:Get*" ∷ [];
}

abbrev readers : PolicyStatement
readers = record {
  sid = "readers";
  effect = "Allow";
  principals = "*" ∷ [];
  actions = "s3:Get*" ∷ [];
  resources = "*" ∷ [];
}

abbrev not_ann : PolicyStatement
not_ann = record {
  sid = "not-ann";
  effect = "Deny";
  principals = "ak" ∷ [];
  actions = "*" ∷ [];
  resources = "*" ∷ [];
}

abbrev library : PolicyDocument
library = record { version = ""; statements = readers ∷ (not_ann ∷ []) }

denied_all : (policy_decide exact_case library ann "s3:GetObject" "b/k").allowed ≡ false
unfolding policy_decide matches principal_matches matches_any action_matches equal_fold trim_space
    has_prefix strip_star to_lower
denied_all = refl

policy_decide_allowed_iff_example :
    ((policy_decide exact_case library ann "s3:GetObject" "b/k").allowed ≡ true) ↔ (
      ((s : PolicyStatement) × In s library.statements
        × Applies exact_case ann "s3:GetObject" "b/k" "Allow" s)
      × All (λ s. ¬ Applies exact_case ann "s3:GetObject" "b/k" "Deny" s) library.statements)
policy_decide_allowed_iff_example =
    policy_decide_allowed_iff exact_case ann "s3:GetObject" "b/k" library

evaluate_principal_action_allowed_iff_example :
    ((evaluate_principal_action exact_case ann "s3:GetObject" "b/k").allowed ≡ true) ↔ (
      (ann.root ≡ true)
      ⊎ ((trim_space "s3:GetObject" ≢ "")
          × ((p : String) × In p ann.permissions
              × (action_matches exact_case p (trim_space "s3:GetObject") ≡ true))))
evaluate_principal_action_allowed_iff_example =
    evaluate_principal_action_allowed_iff exact_case ann "s3:GetObject" "b/k"

-- a Deny for everyone, whose action is the empty text
abbrev raw_deny : RawPolicyStatement
raw_deny = record {
  sid = "deny";
  effect = "Deny";
  principal = RawValue.text "*";
  action = RawValue.text "";
  resource = RawValue.text "*";
}

abbrev read_deny : PolicyStatement
read_deny = record {
  sid = "deny";
  effect = "Deny";
  principals = "*" ∷ [];
  actions = [];
  resources = "*" ∷ [];
}

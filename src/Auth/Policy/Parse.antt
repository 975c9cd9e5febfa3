-- ===== src/Auth/Policy/Parse.antt =====
-- Reading policy documents (internal/auth/policy.go, `ParsePolicyDocument` and `normalize`), from the
-- values that the JSON decoder finds.
use namros.Base.{String, not, ◌&&◌, List, [], ◌∷◌, ◌++◌, string_equality, if◌then◌else◌}
use namros.Base.Text.{trim_space}
use namros.Base.Exec.{Result, ok, err, invalid_argument}
use namros.Auth.Principal.{CaseTables, equal_fold}
use namros.Auth.Policy.{PolicyStatement, PolicyDocument, compact_strings}

-- What a field of a statement may hold: `json.RawMessage`, by the ways in which the code decodes it. A
-- member of an object is a field again.
mutual
  pub data RawValue : Type 0 where
    absent null other : RawValue
    text : String → RawValue
    texts : List String → RawValue
    object : Members → RawValue

  pub data Members : Type 0 where
    end : Members
    member : String → RawValue → Members → Members

pub record RawPolicyStatement : Type 0 where
  pub sid : String
  pub effect : String
  pub principal : RawValue
  pub action : RawValue
  pub resource : RawValue

pub record RawPolicyDocument : Type 0 where
  pub version : String
  pub statements : List RawPolicyStatement

abbrev some_values : List String → Result (List String)
some_values [] = err invalid_argument
some_values (v ∷ values) = ok (v ∷ values)

-- `parseStringOrStringSlice`: a `null` is decoded as the empty text
unfoldable pub parse_string_or_string_slice : RawValue → Result (List String)
parse_string_or_string_slice RawValue.null = ok []
parse_string_or_string_slice (RawValue.text s) = ok (compact_strings (s ∷ []))
parse_string_or_string_slice (RawValue.texts values) = some_values (compact_strings values)
parse_string_or_string_slice _ = err invalid_argument

abbrev joined : Result (List String) → Result (List String) → Result (List String)
joined (ok values) (ok more) = ok (values ++ more)
joined (err e) more = err e
joined (ok values) (err e) = err e

-- the loop of `parsePrincipalValues` over the members of an object
unfoldable pub parse_members : Members → Result (List String)
parse_members Members.end = ok []
parse_members (Members.member name value members) =
    joined (parse_string_or_string_slice value) (parse_members members)

abbrev compacted : Result (List String) → Result (List String)
compacted (ok values) = ok (compact_strings values)
compacted (err e) = err e

-- `parsePrincipalValues`
unfoldable pub parse_principal_values : RawValue → Result (List String)
unfolding parse_members parse_string_or_string_slice
parse_principal_values (RawValue.object members) = compacted (parse_members members)
parse_principal_values value = parse_string_or_string_slice value

module _ (tables : CaseTables) where
  -- `canonicalEffect`
  unfoldable pub canonical_effect : String → String
  canonical_effect effect = if equal_fold tables effect "Deny" then "Deny" else "Allow"

  abbrev pub statement_of :
      String
      → String
      → Result (List String)
      → Result (List String)
      → Result (List String)
      → Result PolicyStatement
  statement_of sid effect (err e) actions resources = err e
  statement_of sid effect (ok []) actions resources = err invalid_argument
  statement_of sid effect (ok (p ∷ ps)) (err e) resources = err e
  statement_of sid effect (ok (p ∷ ps)) (ok actions) (err e) = err e
  statement_of sid effect (ok (p ∷ ps)) (ok actions) (ok resources) = ok (record {
    sid = sid;
    effect = canonical_effect effect;
    principals = p ∷ ps;
    actions = actions;
    resources = resources;
  })

  -- `rawPolicyStatement.normalize`
  unfoldable pub normalize_statement : RawPolicyStatement → Result PolicyStatement
  normalize_statement raw =
      let effect : String = trim_space raw.effect in
      if not (equal_fold tables effect "Allow") && not (equal_fold tables effect "Deny")
      then err invalid_argument
      else statement_of raw.sid effect (parse_principal_values raw.principal)
          (parse_string_or_string_slice raw.action) (parse_string_or_string_slice raw.resource)

  abbrev pub with_statement :
      Result PolicyStatement → Result (List PolicyStatement) → Result (List PolicyStatement)
  with_statement (ok s) (ok more) = ok (s ∷ more)
  with_statement (err e) more = err e
  with_statement (ok s) (err e) = err e

  unfoldable pub normalize_statements : List RawPolicyStatement → Result (List PolicyStatement)
  normalize_statements [] = ok []
  normalize_statements (raw ∷ raws) =
      with_statement (normalize_statement raw) (normalize_statements raws)

  abbrev pub document_of : String → Result (List PolicyStatement) → Result PolicyDocument
  document_of version (err e) = err e
  document_of version (ok []) = err invalid_argument
  document_of version (ok (s ∷ more)) = ok (record { version = version; statements = s ∷ more })

  -- `rawPolicyDocument.normalize`, and the check of `ParsePolicyDocument` for an empty document
  unfoldable pub normalize_document : RawPolicyDocument → Result PolicyDocument
  normalize_document raw = document_of raw.version (normalize_statements raw.statements)

-- ===== src/Auth/Policy/Canonical.antt =====
-- About the statements that the reading of a policy document accepts (internal/auth/policy.go).
use namros.Base.{◌≡◌, ◌≢◌, ◌⊎◌, [], string_equality}
use namros.Base.Exec.{Result, ok, err}
use namros.Auth.Principal.{Principal}
use namros.Auth.Policy.{PolicyStatement}

value_of : {A : Type 0} → A → Result A → A
value_of a (ok b) = b
value_of a (err e) = a

-- What the reading promises of a statement.
abbrev pub IsCanonical : PolicyStatement → Type 0
IsCanonical s = ((s.effect ≡ "Allow") ⊎ (s.effect ≡ "Deny")) × (s.principals ≢ [])

-- ===== src/Base/Exec.antt =====
-- A method of a Go type under its lock: it reads and writes the state and returns a value or an
-- error. What was written before an error stays written.
use namros.Base.{◌≡◌, refl, ◌⊎◌, inl, inr, Bool, true, false}

-- The sentinels of internal/meta/errors.go that the modelled methods return; messages are left out.
pub data Err : Type 0 where
  not_found already_exists bucket_not_empty cas_conflict invalid_argument : Err
  object_manifest_too_large object_locked kms_key_unavailable quota_exceeded unavailable : Err

pub data Result {ℓ} (A : Type ℓ) : Type ℓ where
  ok : A → Result A
  err : Err → Result A

pub Result-cases {ℓ} :
    {A : Type ℓ} (r : Result A) → ((e : Err) × (r ≡ err e)) ⊎ ((a : A) × (r ≡ ok a))
Result-cases (ok a) = inr (a, refl)
Result-cases (err e) = inl (e, refl)

abbrev pub Exec : Type 0 → Type 0 → Type 0
Exec S A = S → Result A × S

module _ {S A : Type 0} where
  unfoldable pub pure : A → Exec S A
  pure a s = (ok a, s)

  unfoldable pub fail : Err → Exec S A
  fail e s = (err e, s)

  unfoldable pub lift : Result A → Exec S A
  lift r s = (r, s)

  unfoldable pub gets : (S → A) → Exec S A
  gets f s = (ok (f s), s)

module _ {S : Type 0} where
  unfoldable pub modify : (S → S) → Exec S (Unit {0})
  modify f s = (ok tt, f s)

  -- `if !test { return err }`
  unfoldable pub guard : Bool → Err → Exec S (Unit {0})
  guard true e s = (ok tt, s)
  guard false e s = (err e, s)

module _ {S A B : Type 0} where
  abbrev pub continue : Result A → (A → Exec S B) → Exec S B
  continue (ok a) f s = f a s
  continue (err e) f s = (err e, s)

  infixl 5 ◌>>=◌ ◌>>◌
  -- Opening this opens the actions above too.
  unfoldable pub ◌>>=◌ : Exec S A → (A → Exec S B) → Exec S B
  unfolding pure fail lift gets modify guard
  ◌>>=◌ m f s = let (r, s') = m s in continue r f s'

  unfoldable pub ◌>>◌ : Exec S A → Exec S B → Exec S B
  unfolding pure fail lift gets modify guard
  ◌>>◌ m n s = let (r, s') = m s in continue r (λ _. n) s'

-- What a method leaves behind, whether it returns or fails: a rule for each way to build a method.
pub record Leaves {S A : Type 0} (Q : S → Type 0) (m : Exec S A) (s : S) : Type 0 where
  pub holds : Q (m s).1

module _ {S B : Type 0} {Q : S → Type 0} {s : S} where
  pub guard_then :
      {b : Bool} (e : Err) {n : Exec S B}
      → Q s
      → (b ≡ true → Leaves Q n s)
      → Leaves Q (guard b e >> n) s
  unfolding ◌>>◌
  guard_then {b = true} e stop go = record { holds = (go refl).holds }
  guard_then {b = false} e stop go = record { holds = stop }

  pub lift_then :
      {A : Type 0} {r : Result A} {f : A → Exec S B}
      → Q s
      → ((a : A) → r ≡ ok a → Leaves Q (f a) s)
      → Leaves Q (lift r >>= f) s
  unfolding ◌>>=◌
  lift_then {r = ok a} stop go = record { holds = (go a refl).holds }
  lift_then {r = err e} stop go = record { holds = stop }

  pub lift_then_ :
      {A : Type 0} {r : Result A} {n : Exec S B}
      → Q s
      → ((a : A) → r ≡ ok a → Leaves Q n s)
      → Leaves Q (lift r >> n) s
  unfolding ◌>>◌
  lift_then_ {r = ok a} stop go = record { holds = (go a refl).holds }
  lift_then_ {r = err e} stop go = record { holds = stop }

  pub gets_then :
      {A : Type 0} (g : S → A) (f : A → Exec S B) → Leaves Q (f (g s)) s → Leaves Q (gets g >>= f) s
  unfolding ◌>>=◌
  gets_then g f go = record { holds = go.holds }

  pub modify_then : (g : S → S) {n : Exec S B} → Leaves Q n (g s) → Leaves Q (modify g >> n) s
  unfolding ◌>>◌
  modify_then g go = record { holds = go.holds }

  pub pure_then : (a : B) → Q s → Leaves Q (pure a) s
  unfolding pure
  pure_then a go = record { holds = go }

  pub gets_last : (g : S → B) → Q s → Leaves Q (gets g) s
  unfolding gets
  gets_last g go = record { holds = go }

  pub fail_then : (e : Err) → Q s → Leaves Q (fail {A = B} e) s
  unfolding fail
  fail_then e go = record { holds = go }

continue-pure :
    {S A B : Type 0} (f : A → B) (r : Result A) (s : S) → (continue r (λ a. pure (f a)) s).1 ≡ s
unfolding pure
continue-pure f (ok a) s = refl
continue-pure f (err e) s = refl

continue_where :
    {S A B : Type 0} {Q : S → Type 0} (P : S → Type 0) (r : Result A) (n : Exec S B) (s : S)
    → P s
    → (P s → Q s)
    → (P s → Leaves Q n s)
    → Q (continue r (λ _. n) s).1
continue_where P (ok a) n s p stop go = (go p).holds
continue_where P (err e) n s p stop go = stop p

module _ {S A B : Type 0} {Q : S → Type 0} {s : S} where
  -- A value built from the result changes nothing.
  pub then_pure : (m : Exec S A) (f : A → B) → Leaves Q m s → Leaves Q (m >>= λ a. pure (f a)) s
  unfolding ◌>>=◌
  then_pure m f left = record { holds = rw (continue-pure f (m s).0 (m s).1) (left.holds) }

  -- What the first action leaves is enough for the rest.
  pub then_where :
      {P : S → Type 0} (m : Exec S A) (n : Exec S B)
      → Leaves P m s
      → ((s' : S) → P s' → Q s')
      → ((s' : S) → P s' → Leaves Q n s')
      → Leaves Q (m >> n) s
  unfolding ◌>>◌
  then_where {P} m n left stop go = record {
    holds = continue_where P (m s).0 n (m s).1 left.holds (stop (m s).1) (go (m s).1);
  }

pub modify_last :
    {S : Type 0} {Q : S → Type 0} {s : S} (g : S → S) → Q (g s) → Leaves Q (modify g) s
unfolding modify
modify_last g go = record { holds = go }

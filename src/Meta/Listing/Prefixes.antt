-- ===== src/Meta/Listing/Prefixes.antt =====
-- Prefixes and common prefixes of keys, for the listings of internal/meta/memory/repository.go.
use Prim.Native.String.{◌++◌}
use namros.Base.{
  String, ◌≡◌, ◌≢◌, refl, sym, ap, ◌∙◌, inl, inr, Bool, true, false, ◌&&◌, Bool-cases, Option, none,
  some, List, ◌∷◌, arith, string_equality, ne_of_beq, is_empty, subst,
}
use namros.Base.Maps.{some_injective}
use namros.Base.TextPrefix.{
  strip_prefix, has_prefix, cut_through, strip_prefix-append, cut_through-ne-none,
}
use namros.Meta.Listing.{Scope, under, trim_prefix, common_prefix, member}

under-cases :
    (prefix p : String) (o : Option String)
    → under prefix o ≡ some p
    → (cut : String) × (o ≡ some cut) × (prefix ++ cut ≡ p)
under-cases prefix p none h = cc h
under-cases prefix p (some cut) h = (cut, refl, some_injective h)

trim_prefix-append : (prefix s : String) → trim_prefix (prefix ++ s) prefix ≡ s
unfolding trim_prefix
trim_prefix-append prefix s = rw (strip_prefix-append prefix s, trim_prefix) refl

none-under : (prefix : String) (o : Option String) → under prefix o ≡ none → o ≡ none
none-under prefix none h = refl
none-under prefix (some cut) h = cc h

-- A common prefix goes under itself or a shorter one, so no key without one has its name.
common_prefix-ne-none :
    (scope : Scope) (key p : String)
    → common_prefix scope key ≡ some p
    → common_prefix scope p ≢ none
unfolding common_prefix
common_prefix-ne-none scope key p h none_there = elim (Bool-cases (is_empty scope.delimiter)) [
  | inl no_delimiter ↦ absurd (ground arith)
  | inr delimiter ↦
      let (cut, found, e) =
        under-cases scope.prefix p (cut_through scope.delimiter (trim_prefix key scope.prefix))
          (rw delimiter at h) in
      cut_through-ne-none scope.delimiter (trim_prefix key scope.prefix) cut found (
        subst (λ (t : String). cut_through scope.delimiter t ≡ none)
          (ap (λ (t : String). trim_prefix t scope.prefix) (sym e)
            ∙ trim_prefix-append scope.prefix cut)
          (none-under scope.prefix _ (rw delimiter at none_there)))
]

-- A key that goes under no common prefix is not the name of one.
pub key-ne-prefix :
    (scope : Scope) (key other p : String)
    → common_prefix scope key ≡ none
    → common_prefix scope other ≡ some p
    → key ≢ p
key-ne-prefix scope key other p h g e =
    common_prefix-ne-none scope other p g (ap (common_prefix scope) (sym e) ∙ h)

has_prefix-empty : (d : String) → is_empty d ≡ false → has_prefix "" d ≡ false
unfolding has_prefix
has_prefix-empty String.[] h = cc h
has_prefix-empty (String.◌∷◌ c d) h = refl

trim_prefix-empty : (prefix : String) → trim_prefix "" prefix ≡ ""
unfolding trim_prefix strip_prefix
trim_prefix-empty String.[] = refl
trim_prefix-empty (String.◌∷◌ c p) = refl

common_prefix-empty : (scope : Scope) → common_prefix scope "" ≡ none
unfolding common_prefix cut_through
common_prefix-empty scope = elim (Bool-cases (is_empty scope.delimiter)) [
  | inl p ↦ rw p refl
  | inr p ↦ rw (p, trim_prefix-empty scope.prefix, has_prefix-empty scope.delimiter p) refl
]

-- A common prefix is not empty.
pub prefix-ne-empty : (scope : Scope) (key p : String) → common_prefix scope key ≡ some p → p ≢ ""
prefix-ne-empty scope key p h e =
    common_prefix-ne-none scope key p h (ap (common_prefix scope) e ∙ common_prefix-empty scope)

pub and_left : (a b : Bool) → (a && b) ≡ true → a ≡ true
and_left true b h = refl
and_left false b h = cc h

-- the test that the loop makes before anything else
abbrev pub Matches : {K V : Type 0} → Scope → (K → V → Bool) → (K → String) → K → V → Type 0
Matches scope listed key_of k v = (listed k v && has_prefix (key_of k) scope.prefix) ≡ true

pub not_member :
    (p q : String) (seen : List String)
    → member p (q ∷ seen) ≡ false
    → (q ≢ p) × (member p seen ≡ false)
unfolding member
not_member p q seen h = (ne_of_beq q p (ground arith), ground arith)

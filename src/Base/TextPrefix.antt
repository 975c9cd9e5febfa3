-- ===== src/Base/TextPrefix.antt =====
-- `strings.HasPrefix`, `strings.TrimPrefix` and the slice up to `strings.Index`.
use Prim.Native.Char.{Char, code}
use Prim.Native.String.{◌++◌}
use text.Mathlib.TextLemmas.{cons-append, nil-append}
use namros.Base.{
  String, ◌≡◌, ◌≢◌, refl, Bool, true, false, nat_beq, arith, if◌then◌else◌, Option, none, some, ◌⊎◌,
  inl, inr, subst,
}

-- What follows the prefix, where the text has it: `HasPrefix` and `TrimPrefix` in one.
unfoldable pub strip_prefix : String → String → Option String
strip_prefix String.[] s = some s
strip_prefix (String.◌∷◌ c p) String.[] = none
strip_prefix (String.◌∷◌ c p) (String.◌∷◌ d s) =
    let rest = strip_prefix p s in if nat_beq (code c) (code d) then rest else none

-- `strings.HasPrefix(s, p)`
unfoldable pub has_prefix : String → String → Bool
unfolding strip_prefix
has_prefix s p = elim (strip_prefix p s) [ none ↦ false | some rest ↦ true ]

abbrev pub prepend : Char → Option String → Option String
prepend c none = none
prepend c (some x) = some (String.◌∷◌ c x)

-- `s[:strings.Index(s, delimiter)+len(delimiter)]`, where the delimiter occurs
unfoldable pub cut_through : String → String → Option String
unfolding has_prefix
cut_through delimiter String.[] = if has_prefix "" delimiter then some delimiter else none
cut_through delimiter (String.◌∷◌ c s) =
    let later = prepend c (cut_through delimiter s) in
    if has_prefix (String.◌∷◌ c s) delimiter then some delimiter else later

pub strip_prefix-append : (p s : String) → strip_prefix p (p ++ s) ≡ some s
unfolding strip_prefix
strip_prefix-append String.[] s = rw (nil-append s)
strip_prefix-append (String.◌∷◌ c p) s =
    rw (cons-append c p s) (ground (arith, strip_prefix-append p s))

has_prefix_self : (s : String) → has_prefix s s ≡ true
unfolding has_prefix
has_prefix_self String.[] = refl
has_prefix_self (String.◌∷◌ c s) = ground (arith, has_prefix_self s)

cut_through_self : (d : String) → cut_through d d ≢ none
unfolding cut_through
cut_through_self String.[] h = cc h
cut_through_self (String.◌∷◌ c d) h = ground (arith, has_prefix_self (String.◌∷◌ c d))

cut_through-cons :
    (d : String) (c : Char) (x : String)
    → cut_through d x ≢ none
    → cut_through d (String.◌∷◌ c x) ≢ none
unfolding cut_through
cut_through-cons d c x some_x h = ground (arith, some_x)

if_some :
    (b : Bool) (y x : String) (o : Option String)
    → (if b then some y else o) ≡ some x
    → (y ≡ x) ⊎ (o ≡ some x)
if_some true y x o h = inl (cc h)
if_some false y x o h = inr h

prepended :
    (c : Char) (o : Option String) (x : String)
    → prepend c o ≡ some x
    → (y : String) × (o ≡ some y) × (String.◌∷◌ c y ≡ x)
prepended c none x h = cc h
prepended c (some y) x h = (y, refl, cc h)

abbrev Has : String → String → Type 0
Has d s = cut_through d s ≢ none

-- The text up to a delimiter has the delimiter.
pub cut_through-ne-none : (d s x : String) → cut_through d s ≡ some x → cut_through d x ≢ none
unfolding cut_through
cut_through-ne-none d String.[] x h = elim (if_some (has_prefix "" d) d x none h) [
  | inl e ↦ subst (Has d) e (cut_through_self d)
  | inr impossible ↦ cc impossible
]
cut_through-ne-none d (String.◌∷◌ c s) x h =
    elim (if_some (has_prefix (String.◌∷◌ c s) d) d x (prepend c (cut_through d s)) h) [
      | inl e ↦ subst (Has d) e (cut_through_self d)
      | inr later ↦
          let (y, cut, e) = prepended c (cut_through d s) x later in
          subst (Has d) e (cut_through-cons d c y (cut_through-ne-none d s y cut))
    ]

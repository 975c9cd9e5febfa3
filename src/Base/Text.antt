-- ===== src/Base/Text.antt =====
-- What the program uses of Go's `strings` and of the order of strings. A text is a list of code
-- points; for valid UTF-8 the order of bytes is the order of code points.
use Prim.Native.Char.{Char, code}
use namros.Base.{
  ℕ, String, ◌≡◌, refl, Bool, true, false, ◌&&◌, ◌||◌, ltb, leb, nat_beq, Bool-cases, inl, inr,
  if◌then◌else◌,
}

-- `unicode.IsSpace`
is_space : ℕ → Bool
is_space c =
    (leb 9 c && leb c 13)
    || nat_beq c 0x20
    || nat_beq c 0x85
    || nat_beq c 0xa0
    || nat_beq c 0x1680
    || (leb 0x2000 c && leb c 0x200a)
    || nat_beq c 0x2028
    || nat_beq c 0x2029
    || nat_beq c 0x202f
    || nat_beq c 0x205f
    || nat_beq c 0x3000

-- `strings.TrimLeftFunc(s, unicode.IsSpace)`
trim_left : String → String
unfolding is_space
trim_left String.[] = ""
trim_left (String.◌∷◌ c s) =
    let rest = trim_left s in if is_space (code c) then rest else String.◌∷◌ c s

-- One more character before a text that is trimmed on the right: a space before nothing goes.
cons_trimmed : Char → String → String
unfolding is_space
cons_trimmed c String.[] = if is_space (code c) then "" else String.◌∷◌ c ""
cons_trimmed c (String.◌∷◌ d s) = String.◌∷◌ c (String.◌∷◌ d s)

trim_right : String → String
unfolding cons_trimmed
trim_right String.[] = ""
trim_right (String.◌∷◌ c s) = cons_trimmed c (trim_right s)

-- `strings.TrimSpace`
unfoldable pub trim_space : String → String
unfolding trim_left trim_right
trim_space s = trim_left (trim_right s)

trims : trim_space "  a b  " ≡ "a b"
unfolding trim_space
trims = refl

trim_right-cons_trimmed :
    (c : Char) (s : String) → trim_right s ≡ s → trim_right (cons_trimmed c s) ≡ cons_trimmed c s
unfolding trim_right
trim_right-cons_trimmed c String.[] h = elim (Bool-cases (is_space (code c))) [
  | inl p ↦ rw p
  | inr p ↦ rw (p, p)
]
trim_right-cons_trimmed c (String.◌∷◌ d s) h = rw h

trim_right-trim_right : (s : String) → trim_right (trim_right s) ≡ trim_right s
unfolding trim_right
trim_right-trim_right String.[] = refl
trim_right-trim_right (String.◌∷◌ c s) =
    trim_right-cons_trimmed c (trim_right s) (trim_right-trim_right s)

trim_left-trim_left : (s : String) → trim_left (trim_left s) ≡ trim_left s
unfolding trim_left
trim_left-trim_left String.[] = refl
trim_left-trim_left (String.◌∷◌ c s) = elim (Bool-cases (is_space (code c))) [
  | inl p ↦ rw p (trim_left-trim_left s)
  | inr p ↦ rw (p, p)
]

trim_left-cons_trimmed :
    (c : Char) (s : String)
    → trim_left (cons_trimmed c s) ≡ (if is_space (code c) then trim_left s else cons_trimmed c s)
unfolding trim_left cons_trimmed
trim_left-cons_trimmed c String.[] = elim (Bool-cases (is_space (code c))) [
  | inl p ↦ rw p
  | inr p ↦ rw (p, p)
]
trim_left-cons_trimmed c (String.◌∷◌ d s) = refl

trim_right-trim_left : (s : String) → trim_right (trim_left s) ≡ trim_left (trim_right s)
unfolding trim_left trim_right
trim_right-trim_left String.[] = refl
trim_right-trim_left (String.◌∷◌ c s) = elim (Bool-cases (is_space (code c))) [
  | inl p ↦ rw (trim_left-cons_trimmed c (trim_right s), p) (trim_right-trim_left s)
  | inr p ↦ rw (trim_left-cons_trimmed c (trim_right s), p)
]

pub trim_space-trim_space : (s : String) → trim_space (trim_space s) ≡ trim_space s
unfolding trim_space
trim_space-trim_space s =
    rw (trim_right-trim_left (trim_right s), trim_right-trim_right s)
      (trim_left-trim_left (trim_right s))

-- `<` on strings.
unfoldable pub text_ltb : String → String → Bool
text_ltb String.[] String.[] = false
text_ltb String.[] (String.◌∷◌ d t) = true
text_ltb (String.◌∷◌ c s) String.[] = false
text_ltb (String.◌∷◌ c s) (String.◌∷◌ d t) =
    let rest = text_ltb s t in if nat_beq (code c) (code d) then rest else ltb (code c) (code d)

-- ===== src/Base/TextOrder.antt =====
-- Laws of the order of strings.
use Prim.Native.Char.{Char, code}
use text.Mathlib.TextEquality.{Char-path}
use namros.Base.{
  String, ◌≡◌, refl, ap, ◌∙◌, inl, inr, true, false, nat_beq, nat_beq_iff, Bool-cases, arith, ◌≢◌,
}
use namros.Base.Text.{text_ltb}

pub text_ltb_irrefl : (s : String) → text_ltb s s ≡ false
unfolding text_ltb
text_ltb_irrefl String.[] = refl
text_ltb_irrefl (String.◌∷◌ c s) = ground (arith, text_ltb_irrefl s)

pub text_ltb_trans :
    (s t u : String) → text_ltb s t ≡ true → text_ltb t u ≡ true → text_ltb s u ≡ true
unfolding text_ltb
text_ltb_trans String.[] String.[] u p q = q
text_ltb_trans String.[] (String.◌∷◌ d t) String.[] p q = cc q
text_ltb_trans String.[] (String.◌∷◌ d t) (String.◌∷◌ e u) p q = refl
text_ltb_trans (String.◌∷◌ c s) String.[] u p q = cc p
text_ltb_trans (String.◌∷◌ c s) (String.◌∷◌ d t) String.[] p q = cc q
text_ltb_trans (String.◌∷◌ c s) (String.◌∷◌ d t) (String.◌∷◌ e u) p q =
    ground (arith, text_ltb_trans s t u)

same_code :
    (c d : Char) (s t : String)
    → nat_beq (code c) (code d) ≡ true
    → s ≡ t
    → String.◌∷◌ c s ≡ String.◌∷◌ d t
same_code c d s t h e =
    ap (λ (x : Char). String.◌∷◌ x s) (Char-path c d ((nat_beq_iff (code c) (code d)).0 h))
    ∙ ap (String.◌∷◌ d) e

-- Of two texts that are not below one another each is the other.
pub text_ltb_total : (s t : String) → text_ltb s t ≡ false → text_ltb t s ≡ false → s ≡ t
unfolding text_ltb
text_ltb_total String.[] String.[] p q = refl
text_ltb_total String.[] (String.◌∷◌ d t) p q = cc p
text_ltb_total (String.◌∷◌ c s) String.[] p q = cc q
text_ltb_total (String.◌∷◌ c s) (String.◌∷◌ d t) p q =
    elim (Bool-cases (nat_beq (code c) (code d))) [
      | inl same ↦ same_code c d s t same (text_ltb_total s t (ground arith) (ground arith))
      | inr differ ↦ absurd (ground arith)
    ]

pub text_ltb_asym : (s t : String) → text_ltb s t ≡ true → text_ltb t s ≡ false
text_ltb_asym s t p = elim (Bool-cases (text_ltb t s)) [
  | inl q ↦ absurd (cc (text_ltb_trans s t s p q, text_ltb_irrefl s))
  | inr q ↦ q
]

pub text_ltb_of_not : (s t : String) → s ≢ t → text_ltb s t ≡ false → text_ltb t s ≡ true
text_ltb_of_not s t ne p = elim (Bool-cases (text_ltb t s)) [
  | inl q ↦ q
  | inr q ↦ absurd (ne (text_ltb_total s t p q))
]

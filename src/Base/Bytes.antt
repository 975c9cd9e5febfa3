-- ===== src/Base/Bytes.antt =====
-- Go strings as bytes, where a program looks at them one by one.
use Prim.Native.Char.{code}
use namros.Base.{ℕ, String, Bool, true, false, List, [], ◌∷◌, nat_beq, ltb, if◌then◌else◌}

abbrev pub Bytes : Type 0
Bytes = List ℕ

-- The bytes of an ASCII text.
abbrev pub text : String → Bytes
text String.[] = []
text (String.◌∷◌ c s) = code c ∷ text s

-- `strings.HasPrefix(s, p)`
unfoldable pub starts_with : Bytes → Bytes → Bool
starts_with s [] = true
starts_with [] (c ∷ p) = false
starts_with (d ∷ s) (c ∷ p) = let rest = starts_with s p in if nat_beq d c then rest else false

-- `s < t`
unfoldable pub bytes_ltb : Bytes → Bytes → Bool
bytes_ltb s [] = false
bytes_ltb [] (d ∷ t) = true
bytes_ltb (c ∷ s) (d ∷ t) = let rest = bytes_ltb s t in if nat_beq c d then rest else ltb c d

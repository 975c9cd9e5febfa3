-- ===== src/Meta/Keyspace.antt =====
-- Key encoding of the key-value repository (internal/meta/keyspace/keyspace.go): escaping of names into
-- path segments, and the keys (Keys).
pub mod Keys
pub mod Escape
pub mod Separate
mod Scenarios
use namros.Base.{
  ℕ, zero, suc, ◌+◌, ◌-◌, ◌*◌, ◌/◌, ◌%◌, Bool, true, false, ◌&&◌, ◌||◌, Option, none, some, List,
  [], ◌∷◌, ◌++◌, nat_beq, ltb, leb, length, if◌then◌else◌,
}
use namros.Base.Bytes.{Bytes, text}

abbrev pub is_nil : Bytes → Bool
is_nil [] = true
is_nil (c ∷ s) = false

-- `isSafe`
unfoldable pub is_safe : ℕ → Bool
is_safe c =
    (leb b'A' c && leb c b'Z')
    || ((leb b'a' c && leb c b'z')
        || ((leb b'0' c && leb c b'9')
            || (nat_beq c b'-' || (nat_beq c b'_' || (nat_beq c b'.' || nat_beq c b'~')))))

-- a digit of `strings.ToUpper(hex.EncodeToString(...))`
abbrev pub hex_digit : ℕ → ℕ
hex_digit n = if ltb n 10 then 48 + n else 55 + n

-- what `escape` writes for a byte
abbrev pub escape_byte : ℕ → Bytes
escape_byte c =
    if is_safe c then c ∷ [] else b'%' ∷ (hex_digit (c / 16) ∷ (hex_digit (c % 16) ∷ []))

-- `escape`, which `EscapeObjectKey` and `EscapePathSegment` call
unfoldable pub escape : Bytes → Bytes
escape [] = []
escape (c ∷ s) = escape_byte c ++ escape s

-- a digit that `hex.DecodeString` reads
unfoldable pub unhex_digit : ℕ → Option ℕ
unhex_digit c =
    if leb 48 c && leb c 57
    then some (c - 48)
    else if leb 65 c && leb c 70
    then some (c - 55)
    else if leb 97 c && leb c 102
    then some (c - 87)
    else none

abbrev pub digits : Option ℕ → Option ℕ → Option ℕ
digits (some a) (some b) = some (a * 16 + b)
digits _ _ = none

abbrev pub prepend : Option ℕ → Option Bytes → Option Bytes
prepend (some c) (some s) = some (c ∷ s)
prepend _ _ = none

-- `unescape`, which `UnescapeObjectKey` calls; `none` is an error
unfoldable pub unescape : Bytes → Option Bytes
unfolding unhex_digit
unescape [] = some []
unescape (c ∷ []) = if nat_beq c b'%' then none else some (c ∷ [])
unescape (c ∷ (a ∷ [])) =
    let rest = unescape (a ∷ []) in if nat_beq c b'%' then none else prepend (some c) rest
unescape (c ∷ (a ∷ (b ∷ s))) = elim (nat_beq c b'%') [
  | true ↦ prepend (digits (unhex_digit a) (unhex_digit b)) (unescape s)
  | false ↦ prepend (some c) (unescape (a ∷ (b ∷ s)))
]

zeros : ℕ → Bytes
zeros zero = []
zeros (suc n) = b'0' ∷ zeros n

-- `leftPadInt`; `itoa` stands for `strconv.Itoa`
unfoldable pub left_pad_int : (ℕ → Bytes) → ℕ → ℕ → Bytes
unfolding zeros
left_pad_int itoa value width =
    if leb width (length (itoa value))
    then itoa value
    else zeros (width - length (itoa value)) ++ itoa value

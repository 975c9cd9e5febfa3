-- ===== src/Meta/Keyspace/Escape.antt =====
-- About escaping: undoing it, slashes, and prefixes (internal/meta/keyspace/keyspace.go).
use namros.Base.{
  ℕ, ◌/◌, ◌%◌, ◌<◌, ◌≡◌, ◌≢◌, refl, sym, ap, ◌∙◌, true, false, some, [], ◌∷◌, ◌++◌, nat_beq, arith,
  Bool-cases, inl, inr, nat_beq_iff, subst, ne_of_beq, nat_equality,
}
use namros.Base.Maps.{some_injective}
use namros.Base.Sorting.{All}
use namros.Base.Bytes.{Bytes, starts_with}
use namros.Meta.Keyspace.{
  is_safe, hex_digit, escape_byte, escape, unhex_digit, digits, prepend, unescape,
}

-- the bytes of a Go string
abbrev pub AreBytes : Bytes → Type 0
AreBytes s = All (λ c. c < 256) s

unhex_digit-hex_digit : (n : ℕ) → n < 16 → unhex_digit (hex_digit n) ≡ some n
unfolding unhex_digit
unhex_digit-hex_digit n h = ground arith

unescape-plain :
    (c : ℕ) (s : Bytes) → nat_beq c 37 ≡ false → unescape (c ∷ s) ≡ prepend (some c) (unescape s)
unfolding unescape
unescape-plain c [] h = rw h refl
unescape-plain c (a ∷ []) h = rw h refl
unescape-plain c (a ∷ (b ∷ s)) h = rw (h, unescape) refl

unescape-escaped :
    (a b : ℕ) (s : Bytes)
    → unescape (37 ∷ (a ∷ (b ∷ s))) ≡ prepend (digits (unhex_digit a) (unhex_digit b)) (unescape s)
unfolding unescape
unescape-escaped a b s = refl

is_safe-ne : (c d : ℕ) → is_safe c ≡ true → is_safe d ≡ false → nat_beq c d ≡ false
is_safe-ne c d p q = elim (Bool-cases (nat_beq c d)) [
  | inr differ ↦ differ
  | inl same ↦ cc (p, q, ap is_safe ((nat_beq_iff c d).0 same))
]

unescape-escape_byte :
    (c : ℕ) (s : Bytes) → c < 256 → unescape (escape_byte c ++ s) ≡ prepend (some c) (unescape s)
unfolding is_safe
unescape-escape_byte c s h = elim (Bool-cases (is_safe c)) [
  | inl safe ↦ rw safe (unescape-plain c s (is_safe-ne c 37 safe refl))
  | inr unsafe ↦ rw unsafe (
      unescape-escaped (hex_digit (c / 16)) (hex_digit (c % 16)) s
      ∙ rw
          (
            unhex_digit-hex_digit (c / 16) (omega arith),
            unhex_digit-hex_digit (c % 16) (omega arith),
          )
          (ap (λ (n : ℕ). prepend (some n) (unescape s)) (omega arith)))
]

-- `unescape` undoes `escape` on every string of bytes.
pub unescape-escape : (s : Bytes) → AreBytes s → unescape (escape s) ≡ some s
unfolding escape unescape
unescape-escape [] h = refl
unescape-escape (c ∷ s) h =
    unescape-escape_byte c (escape s) h.0 ∙ ap (prepend (some c)) (unescape-escape s h.1)

-- a byte that is not the slash
abbrev pub NoSlash : ℕ → Type 0
NoSlash c = c ≢ 47

hex_digit-NoSlash : (n : ℕ) → n < 16 → NoSlash (hex_digit n)
hex_digit-NoSlash n h e = ground arith

escape_byte-NoSlash :
    (c : ℕ) (s : Bytes) → c < 256 → All NoSlash s → All NoSlash (escape_byte c ++ s)
unfolding is_safe
escape_byte-NoSlash c s h rest = elim (Bool-cases (is_safe c)) [
  | inl safe ↦ rw safe ((λ e. cc (safe, ap is_safe e)), rest)
  | inr unsafe ↦ rw unsafe (
    λ e. omega arith,
    (hex_digit-NoSlash (c / 16) (omega arith), (hex_digit-NoSlash (c % 16) (omega arith), rest)),
  )
]

pub escape-NoSlash : (s : Bytes) → AreBytes s → All NoSlash (escape s)
unfolding escape
escape-NoSlash [] h = tt
escape-NoSlash (c ∷ s) h = escape_byte-NoSlash c (escape s) h.0 (escape-NoSlash s h.1)

-- Escaped names can be told apart.
pub escape-injective : (s t : Bytes) → AreBytes s → AreBytes t → escape s ≡ escape t → s ≡ t
escape-injective s t hs ht e =
    some_injective (sym (unescape-escape s hs) ∙ ap unescape e ∙ unescape-escape t ht)

starts_with-same : (c d : ℕ) (s p : Bytes) → c ≡ d → starts_with (c ∷ s) (d ∷ p) ≡ starts_with s p
unfolding starts_with
starts_with-same c d s p e = ground (arith, nat_beq_iff c d)

starts_with-differ : (c d : ℕ) (s p : Bytes) → c ≢ d → starts_with (c ∷ s) (d ∷ p) ≡ false
unfolding starts_with
starts_with-differ c d s p ne = ground (arith, nat_beq_iff c d)

starts_with-escape_byte_self :
    (c : ℕ) (s p : Bytes) → starts_with (escape_byte c ++ s) (escape_byte c ++ p) ≡ starts_with s p
starts_with-escape_byte_self c s p = elim (Bool-cases (is_safe c)) [
  | inl safe ↦ rw safe (starts_with-same c c s p refl)
  | inr unsafe ↦
      let hi : ℕ = hex_digit (c / 16) in
      let lo : ℕ = hex_digit (c % 16) in
      rw unsafe (
        starts_with-same 37 37 (hi ∷ (lo ∷ s)) (hi ∷ (lo ∷ p)) refl
        ∙ starts_with-same hi hi (lo ∷ s) (lo ∷ p) refl
        ∙ starts_with-same lo lo s p refl)
]

hex_digit-injective : (m n : ℕ) → m < 16 → n < 16 → m ≢ n → hex_digit m ≢ hex_digit n
hex_digit-injective m n hm hn ne e = ground arith

starts_with-digits :
    (d c : ℕ) (s p : Bytes)
    → d < 256
    → c < 256
    → d ≢ c
    → starts_with
        (37 ∷ (hex_digit (d / 16) ∷ (hex_digit (d % 16) ∷ s)))
        (37 ∷ (hex_digit (c / 16) ∷ (hex_digit (c % 16) ∷ p)))
      ≡ false
starts_with-digits d c s p hd hc ne =
    let dh : ℕ = hex_digit (d / 16) in
    let dl : ℕ = hex_digit (d % 16) in
    let ch : ℕ = hex_digit (c / 16) in
    let cl : ℕ = hex_digit (c % 16) in
    starts_with-same 37 37 (dh ∷ (dl ∷ s)) (ch ∷ (cl ∷ p)) refl
    ∙ elim (Bool-cases (nat_beq (d / 16) (c / 16))) [
      | inr high ↦ starts_with-differ dh ch (dl ∷ s) (cl ∷ p) (
          hex_digit-injective (d / 16) (c / 16) (omega arith) (omega arith)
            (ne_of_beq (d / 16) (c / 16) high))
      | inl same ↦
          let e : (d / 16 ≡ c / 16) = (nat_beq_iff (d / 16) (c / 16)).0 same in
          starts_with-same dh ch (dl ∷ s) (cl ∷ p) (ap hex_digit e)
          ∙ starts_with-differ dl cl s p (
              hex_digit-injective (d % 16) (c % 16) (omega arith) (omega arith)
                (λ f. ne (omega arith)))
    ]

starts_with_nothing : (c : ℕ) (p : Bytes) → starts_with [] (escape_byte c ++ p) ≡ false
unfolding starts_with
starts_with_nothing c p = elim (Bool-cases (is_safe c)) [
  | inl safe ↦ rw safe refl
  | inr unsafe ↦ rw unsafe refl
]

-- The escapes of different bytes differ, and neither begins the other.
starts_with-escape_byte_ne :
    (d c : ℕ) (s p : Bytes)
    → d < 256
    → c < 256
    → d ≢ c
    → starts_with (escape_byte d ++ s) (escape_byte c ++ p) ≡ false
unfolding is_safe
starts_with-escape_byte_ne d c s p hd hc ne = elim (Bool-cases (is_safe d)) [
  | inl d_safe ↦ elim (Bool-cases (is_safe c)) [
    | inl c_safe ↦ rw (d_safe, c_safe) (starts_with-differ d c s p ne)
    | inr c_unsafe ↦
        rw (d_safe, c_unsafe) (starts_with-differ d 37 s _ (λ e. cc (d_safe, ap is_safe e)))
  ]
  | inr d_unsafe ↦ elim (Bool-cases (is_safe c)) [
    | inl c_safe ↦
        rw (d_unsafe, c_safe) (starts_with-differ 37 c _ p (λ e. cc (c_safe, ap is_safe e)))
    | inr c_unsafe ↦ rw (d_unsafe, c_unsafe) (starts_with-digits d c s p hd hc ne)
  ]
]

-- Escaping keeps prefixes, and makes none.
pub starts_with-escape :
    (s p : Bytes) → AreBytes s → AreBytes p → starts_with (escape s) (escape p) ≡ starts_with s p
unfolding escape starts_with
starts_with-escape s [] hs hp = refl
starts_with-escape [] (c ∷ p) hs hp = starts_with_nothing c (escape p)
starts_with-escape (d ∷ s) (c ∷ p) hs hp = elim (Bool-cases (nat_beq d c)) [
  | inl same ↦ rw same (
      subst
        (λ (x : ℕ).
          starts_with (escape_byte d ++ escape s) (escape_byte x ++ escape p) ≡ starts_with s p)
        ((nat_beq_iff d c).0 same)
        (starts_with-escape_byte_self d (escape s) (escape p) ∙ starts_with-escape s p hs.1 hp.1))
  | inr differ ↦ rw differ (
      starts_with-escape_byte_ne d c (escape s) (escape p) hs.0 hp.0
        (λ e. cc (differ, (nat_beq_iff d c).1 e)))
]

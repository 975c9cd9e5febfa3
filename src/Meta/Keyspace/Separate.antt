-- ===== src/Meta/Keyspace/Separate.antt =====
-- About the keys of different records, and scans by an escaped prefix (internal/meta/keyspace/keyspace.go).
use namros.Base.{ℕ, ◌≡◌, ◌↔◌, refl, sym, ap, ◌∙◌, true, [], ◌∷◌, ◌++◌, arith}
use namros.Base.Sorting.{All}
use namros.Base.Bytes.{Bytes, starts_with, bytes_ltb, text}
use mathlib.Core.List.{append_assoc}
use namros.Meta.Keyspace.{escape, escape_byte, is_safe}
use namros.Meta.Keyspace.Escape.{
  AreBytes, NoSlash, escape-NoSlash, escape-injective, starts_with-escape,
}
use namros.Meta.Keyspace.Keys.{namespace, object_version, list_object}

tail_of : Bytes → Bytes
tail_of [] = []
tail_of (c ∷ s) = s

head_of : Bytes → ℕ
head_of [] = 0
head_of (c ∷ s) = c

-- Two segments that a slash ends are equal if what they begin is.
split_at_slash :
    (s t a b : Bytes)
    → All NoSlash s
    → All NoSlash t
    → s ++ (47 ∷ a) ≡ t ++ (47 ∷ b)
    → (s ≡ t) × (a ≡ b)
unfolding head_of tail_of
split_at_slash [] [] a b hs ht e = (refl, ap tail_of e)
split_at_slash [] (d ∷ t) a b hs ht e = absurd (ht.0 (sym (ap head_of e)))
split_at_slash (c ∷ s) [] a b hs ht e = absurd (hs.0 (ap head_of e))
split_at_slash (c ∷ s) (d ∷ t) a b hs ht e =
    let (p, q) = split_at_slash s t a b hs.1 ht.1 (ap tail_of e) in ((λ i. head_of (e i) ∷ p i), q)

cancel : (p s t : Bytes) → p ++ s ≡ p ++ t → s ≡ t
unfolding tail_of
cancel [] s t e = e
cancel (c ∷ p) s t e = cancel p s t (ap tail_of e)

starts_with-cancel : (p s t : Bytes) → starts_with (p ++ s) (p ++ t) ≡ starts_with s t
unfolding starts_with
starts_with-cancel [] s t = refl
starts_with-cancel (c ∷ p) s t = ground (arith, starts_with-cancel p s t)

module _ (bucket bucket' : Bytes) (hb : AreBytes bucket) (hb' : AreBytes bucket') where
  -- Two version records have one key exactly when they have the same bucket, object key and sort key.
  pub object_version-injective :
      (key key' sort_key sort_key' : Bytes)
      → AreBytes key
      → AreBytes key'
      → AreBytes sort_key
      → AreBytes sort_key'
      → (object_version bucket key sort_key ≡ object_version bucket' key' sort_key')
        ↔ ((bucket ≡ bucket') × (key ≡ key') × (sort_key ≡ sort_key'))
  unfolding object_version
  object_version-injective key key' sort_key sort_key' hk hk' hs hs' = (
    λ e.
        let e1 = cancel (namespace ++ text "/buckets/") _ _ e in
        let (b, e2) =
          split_at_slash (escape bucket) (escape bucket') _ _ (escape-NoSlash bucket hb)
            (escape-NoSlash bucket' hb') e1 in
        let e3 = cancel (text "versions/") _ _ e2 in
        let (k, e4) =
          split_at_slash (escape key) (escape key') _ _ (escape-NoSlash key hk)
            (escape-NoSlash key' hk') e3 in
        (
          escape-injective bucket bucket' hb hb' b,
          escape-injective key key' hk hk' k,
          escape-injective sort_key sort_key' hs hs' e4,
        ),
    λ h. λ i. object_version (h.0 i) (h.1 i) (h.2 i),
  )

-- The list entry of an object lies in the scan of a prefix exactly when the object key has the prefix.
pub list_object-prefix :
    (bucket key prefix : Bytes)
    → AreBytes key
    → AreBytes prefix
    → starts_with (list_object bucket key) (list_object bucket prefix) ≡ starts_with key prefix
unfolding list_object
list_object-prefix bucket key prefix hk hp =
    starts_with-cancel (namespace ++ text "/buckets/") _ _
    ∙ starts_with-cancel (escape bucket) _ _
    ∙ starts_with-cancel (text "/list/") _ _
    ∙ starts_with-escape key prefix hk hp

bytes_ltb-cancel : (p s t : Bytes) → bytes_ltb (p ++ s) (p ++ t) ≡ bytes_ltb s t
unfolding bytes_ltb
bytes_ltb-cancel [] s t = refl
bytes_ltb-cancel (c ∷ p) s t = ground (arith, bytes_ltb-cancel p s t)

escape-append : (s t : Bytes) → escape (s ++ t) ≡ escape s ++ escape t
unfolding escape
escape-append [] t = refl
escape-append (c ∷ s) t =
    ap (λ (x : Bytes). escape_byte c ++ x) (escape-append s t)
    ∙ sym (append_assoc (escape_byte c) (escape s) (escape t))

list_object-append :
    (bucket p s : Bytes) → list_object bucket (p ++ s) ≡ list_object bucket p ++ escape s
unfolding list_object
list_object-append bucket p s =
    ap (λ (x : Bytes). namespace ++ (text "/buckets/" ++ x))
      (ap (λ (x : Bytes). escape bucket ++ (text "/list/" ++ x)) (escape-append p s)
        ∙ sym (append_assoc (escape bucket) (text "/list/" ++ escape p) (escape s)))

-- Keys that first differ in a hyphen and a slash are stored in the order opposite to their own: the
-- hyphen is written as it is, the slash as an escape, and the percent sign comes before the hyphen.
pub list_object_reverses :
    (bucket p s t : Bytes)
    → (bytes_ltb (p ++ (b'-' ∷ s)) (p ++ (b'/' ∷ t)) ≡ true)
      × (bytes_ltb (list_object bucket (p ++ (b'/' ∷ t))) (list_object bucket (p ++ (b'-' ∷ s)))
          ≡ true)
unfolding bytes_ltb escape is_safe
list_object_reverses bucket p s t = (
  bytes_ltb-cancel p (b'-' ∷ s) (b'/' ∷ t),
  rw (list_object-append bucket p (b'/' ∷ t), list_object-append bucket p (b'-' ∷ s))
      (bytes_ltb-cancel (list_object bucket p) (escape (b'/' ∷ t)) (escape (b'-' ∷ s))),
)

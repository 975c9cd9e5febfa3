-- ===== src/Meta/Keyspace/Scenarios.antt =====
-- Keys of concrete records.
use namros.Base.{◌≡◌, ◌↔◌, refl, true, some, ◌∷◌, ◌++◌, arith}
use namros.Base.Bytes.{text, starts_with, bytes_ltb}
use namros.Meta.Keyspace.{escape, unescape, is_safe}
use namros.Meta.Keyspace.Escape.{unescape-escape}
use namros.Meta.Keyspace.Keys.{object_version, list_object}
use namros.Meta.Keyspace.Separate.{
  object_version-injective, list_object-prefix, list_object_reverses,
}

escaped : escape (text "a/b 7") ≡ text "a%2Fb%207"
unfolding escape is_safe
escaped = refl

version_key :
    object_version (text "b") (text "a/b") (text "v") ≡ text "/namros/v1/buckets/b/versions/a%2Fb/v"
unfolding object_version escape is_safe
version_key = refl

unescape-escape_example : unescape (escape (text "a/b")) ≡ some (text "a/b")
unescape-escape_example = unescape-escape (text "a/b") (omega arith)

object_version-injective_example :
    (object_version (text "b") (text "a/b") (text "v")
      ≡ object_version (text "b") (text "a") (text "b/v"))
    ↔ ((text "b" ≡ text "b") × (text "a/b" ≡ text "a") × (text "v" ≡ text "b/v"))
object_version-injective_example =
    object_version-injective (text "b") (text "b") (omega arith) (omega arith) (text "a/b")
      (text "a") (text "v") (text "b/v") (omega arith) (omega arith) (omega arith) (omega arith)

list_object-prefix_example :
    starts_with (list_object (text "b") (text "a/b")) (list_object (text "b") (text "a/"))
    ≡ starts_with (text "a/b") (text "a/")
list_object-prefix_example =
    list_object-prefix (text "b") (text "a/b") (text "a/") (omega arith) (omega arith)

list_object_reverses_example :
    (bytes_ltb (text "a" ++ (b'-' ∷ text "b")) (text "a" ++ (b'/' ∷ text "b")) ≡ true)
    × (bytes_ltb
          (list_object (text "b") (text "a" ++ (b'/' ∷ text "b")))
          (list_object (text "b") (text "a" ++ (b'-' ∷ text "b")))
        ≡ true)
list_object_reverses_example = list_object_reverses (text "b") (text "a") (text "b") (text "b")

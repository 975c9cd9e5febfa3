-- ===== src/Meta/Objects/Tags.antt =====
-- Object tags: `GetObjectTags`, `PutObjectTags` and `DeleteObjectTags`
-- (internal/meta/memory/repository.go).
use namros.Base.{
  String, not, ◌||◌, Option, none, some, [], is_empty, string_equality, ◌==◌, if◌then◌else◌,
}
use namros.Base.Maps.{Map, get}
use namros.Base.Exec.{
  Result, ok, err, Exec, fail, gets, modify, guard, ◌>>=◌, ◌>>◌, invalid_argument, not_found,
}
use namros.Meta.Model.Object.{ObjectVersion, ObjectHead}
use namros.Meta.Repository.{Repository, ObjectKey, VersionKey, object_key_eq, version_key_eq}
use namros.Meta.Objects.{object_key, version_key, set_head, store_version, is_committed}

pub record ObjectTagsRequest : Type 0 where
  pub bucket_id : String
  pub key : String
  pub version_id : String
  pub tags : Map String String

-- `GetObjectTags`
abbrev pub tags_of_version : Option ObjectVersion → Result (Map String String)
tags_of_version none = err not_found
tags_of_version (some v) = if is_committed v.state then ok v.tags else err not_found

abbrev pub tags_of_head : Option ObjectHead → Result (Map String String)
tags_of_head none = err not_found
tags_of_head (some head) = ok head.tags

unfoldable pub get_object_tags : ObjectTagsRequest → Repository → Result (Map String String)
get_object_tags req r =
    let k = object_key req.bucket_id req.key in
    if is_empty req.bucket_id || is_empty req.key
    then err invalid_argument
    else if not (is_empty req.version_id)
    then tags_of_version (get (version_key k req.version_id) r.versions)
    else tags_of_head (get k r.heads)

-- `version.Tags = tags; r.versions[vkey] = version`
abbrev pub tag_version :
    VersionKey → Map String String → Option ObjectVersion → Repository → Repository
tag_version vk tags none r = r
tag_version vk tags (some v) r = store_version vk (record v { tags = tags }) r

-- `head.Tags = tags; r.setHeadLocked(headKey, head)`
unfoldable pub tag_head : ObjectKey → Map String String → ObjectHead → Repository → Repository
unfolding set_head
tag_head k tags head r = set_head k (record head { tags = tags }) r

abbrev pub tag_head_of :
    ObjectKey → String → Map String String → Option ObjectHead → Repository → Repository
unfolding tag_head
tag_head_of k version_id tags none r = r
tag_head_of k version_id tags (some head) r =
    if head.version_id == version_id then tag_head k tags head r else r

-- `PutObjectTags` with a version id
abbrev pub put_version_tags :
    ObjectTagsRequest → ObjectKey → Option ObjectVersion → Exec Repository (Unit {0})
put_version_tags req k none = fail not_found
put_version_tags req k (some v) = do
  guard (is_committed v.state) not_found
  modify (store_version (version_key k req.version_id) (record v { tags = req.tags }))
  modify (λ r. tag_head_of k req.version_id req.tags (get k r.heads) r)

-- `PutObjectTags` without a version id
abbrev pub put_head_tags :
    ObjectTagsRequest → ObjectKey → Option ObjectHead → Exec Repository (Unit {0})
put_head_tags req k none = fail not_found
put_head_tags req k (some head) = do
  modify (tag_head k req.tags head)
  modify λ r.
      if is_empty head.version_id
      then r
      else tag_version (version_key k head.version_id) req.tags
          (get (version_key k head.version_id) r.versions) r

abbrev pub put_tags_to :
    ObjectTagsRequest
    → ObjectKey
    → Option ObjectVersion
    → Option ObjectHead
    → Exec Repository (Unit {0})
put_tags_to req k version head =
    if not (is_empty req.version_id)
    then put_version_tags req k version
    else put_head_tags req k head

-- `PutObjectTags`; `DeleteObjectTags` calls it without tags
unfoldable pub put_object_tags : ObjectTagsRequest → Exec Repository (Unit {0})
put_object_tags req = do
  guard (not (is_empty req.bucket_id || is_empty req.key)) invalid_argument
  let k = object_key req.bucket_id req.key
  version ← gets (λ r. get (version_key k req.version_id) r.versions)
  head ← gets (λ r. get k r.heads)
  put_tags_to req k version head

-- `DeleteObjectTags`
unfoldable pub delete_object_tags : ObjectTagsRequest → Exec Repository (Unit {0})
unfolding put_object_tags
delete_object_tags req = put_object_tags (record req { tags = [] })

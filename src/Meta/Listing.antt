-- ===== src/Meta/Listing.antt =====
-- Listings: `ListObjects`, `ListObjectVersions` and `ListMultipartUploads` of the in-memory repository
-- (internal/meta/memory/repository.go), with the entries that they sort, search and cut into pages.
pub mod Prefixes
pub mod Gather
pub mod Distinct
pub mod Pages
pub mod Objects
pub mod Following
pub mod Tokens
pub mod Versions
pub mod Uploads
mod Scenarios
use namros.Base.{
  ℕ, ◌-◌, String, Bool, true, false, not, ◌&&◌, ◌||◌, Option, none, some, List, [], ◌∷◌, length,
  get_elem?, take, ltb, is_empty, string_equality, ◌==◌, if◌then◌else◌,
}
use Prim.Native.String.{◌++◌}
use namros.Base.Maps.{Map, get}
use namros.Base.Int64.{is_positive}
use namros.Base.Text.{text_ltb}
use namros.Base.TextPrefix.{strip_prefix, has_prefix, cut_through}
use namros.Base.Sorting.{sort_slice}
use namros.Base.Searching.{search_from}
use namros.Base.Exec.{Exec, pure, gets, guard, ◌>>=◌, ◌>>◌, invalid_argument, not_found}
use namros.Meta.Model.Object.{ObjectVersion, ObjectHead}
use namros.Meta.Model.Multipart.{MultipartUpload, MultipartUploadState}
use namros.Meta.Model.Zero.{no_version, no_head}
use namros.Meta.Repository.{Repository, ObjectKey, VersionKey, UploadKey, object_key_eq, has}
use namros.Meta.Objects.{is_committed, object_key}

-- `listEntry`, `versionListEntry` and `multipartUploadEntry`: a name, whether it is a common prefix, and
-- the rest, which is zero for a common prefix.
pub record Entry (I : Type 0) : Type 0 where
  pub name : String
  pub prefix : Bool
  pub item : I

-- what the three requests share
pub record Scope : Type 0 where
  pub bucket_id : String
  pub prefix : String
  pub delimiter : String

pub record ListObjectsRequest : Type 0 where
  pub scope : Scope
  pub continuation_token : String
  pub max_keys : ℕ

pub record ListObjectVersionsRequest : Type 0 where
  pub scope : Scope
  pub key_marker : String
  pub version_id_marker : String
  pub max_keys : ℕ

pub record ListMultipartUploadsRequest : Type 0 where
  pub scope : Scope
  pub key_marker : String
  pub upload_id_marker : String
  pub max_uploads : ℕ

pub record ListObjectsResult : Type 0 where
  pub contents : List ObjectHead
  pub common_prefixes : List String
  pub is_truncated : Bool
  pub next_continuation_token : String

pub record ObjectVersionEntry : Type 0 where
  pub version : ObjectVersion
  pub is_latest : Bool

pub record ListObjectVersionsResult : Type 0 where
  pub versions : List ObjectVersionEntry
  pub delete_markers : List ObjectVersionEntry
  pub common_prefixes : List String
  pub is_truncated : Bool
  pub next_key_marker : String
  pub next_version_id_marker : String

pub record ListMultipartUploadsResult : Type 0 where
  pub uploads : List MultipartUpload
  pub common_prefixes : List String
  pub is_truncated : Bool
  pub next_key_marker : String
  pub next_upload_id_marker : String

-- `strings.TrimPrefix(key, prefix)`
trim_prefix : String → String → String
trim_prefix key prefix = elim (strip_prefix prefix key) [ none ↦ key | some rest ↦ rest ]

abbrev pub under : String → Option String → Option String
under prefix none = none
under prefix (some cut) = some (prefix ++ cut)

-- the common prefix that a key goes under, if it has the delimiter after the prefix
unfoldable pub common_prefix : Scope → String → Option String
unfolding trim_prefix
common_prefix scope key =
    if is_empty scope.delimiter
    then none
    else under scope.prefix (cut_through scope.delimiter (trim_prefix key scope.prefix))

-- `_, ok := commonPrefixes[commonPrefix]`
unfoldable pub member : String → List String → Bool
member p [] = false
member p (q ∷ seen) = q == p || member p seen

abbrev pub prefix_entry : {I : Type 0} → I → String → Entry I
prefix_entry zero_item p = record { name = p; prefix = true; item = zero_item }

abbrev pub item_entry : {I : Type 0} → String → I → Entry I
item_entry key item = record { name = key; prefix = false; item = item }

-- The loop over a map that the three listings share: what does not match is left out, a key under a
-- common prefix gives one entry for the prefix, any other an entry of its own.
module _ {K V I : Type 0} (scope : Scope) (listed : K → V → Bool) (key_of : K → String)
    (item_of : K → V → I) (zero_item : I) where
  unfoldable pub gather : List String → Map K V → List (Entry I)
  gather seen [] = []
  gather seen ((k, v) ∷ m) = elim (listed k v && has_prefix (key_of k) scope.prefix) [
    | false ↦ gather seen m
    | true ↦ elim (common_prefix scope (key_of k)) [
      | none ↦ item_entry (key_of k) (item_of k v) ∷ gather seen m
      | some p ↦ elim (member p seen) [
        | true ↦ gather seen m
        | false ↦ prefix_entry zero_item p ∷ gather (p ∷ seen) m
      ]
    ]
  ]

abbrev pub key_of_object : ObjectKey → String
key_of_object k = k.key

abbrev pub key_of_version : VersionKey → String
key_of_version k = k.key

abbrev pub key_of_upload : UploadKey → String
key_of_upload k = k.key

-- `key.bucketID != req.BucketID || head.DeleteMarker`, negated
abbrev pub object_listed : Scope → ObjectKey → ObjectHead → Bool
object_listed scope k head = k.bucket_id == scope.bucket_id && not head.delete_marker

abbrev pub head_of : ObjectKey → ObjectHead → ObjectHead
head_of k head = head

-- the order that `listEntries` sorts by
unfoldable pub object_entry_less : Entry ObjectHead → Entry ObjectHead → Bool
object_entry_less x y =
    if x.name == y.name then not x.prefix && y.prefix else text_ltb x.name y.name

-- `listEntries`
unfoldable pub list_entries : Scope → Repository → List (Entry ObjectHead)
list_entries scope r =
    sort_slice object_entry_less
      (gather scope (object_listed scope) key_of_object head_of no_head [] r.heads)

-- `entriesAfter`
unfoldable pub entries_after : List (Entry ObjectHead) → String → List (Entry ObjectHead)
entries_after entries token = search_from (λ e. text_ltb token e.name) entries

-- `maxKeys`, with the default
abbrev pub page_size : ℕ → ℕ
page_size requested = if is_positive requested then requested else 1000

-- `entries[n-1]`, for the page's next marker
abbrev pub last_of {ℓ} : {A : Type ℓ} → ℕ → List A → Option A
last_of n entries = get_elem? entries (n - 1)

-- `entries[:n]`, if there are more
abbrev pub page_of {ℓ} : {A : Type ℓ} → ℕ → List A → List A
page_of n entries = if ltb n (length entries) then take n entries else entries

abbrev pub name_of : {I : Type 0} → Option (Entry I) → String
name_of none = ""
name_of (some e) = e.name

-- the last loop of a listing: what the entries show
unfoldable pub contents_of : List (Entry ObjectHead) → List ObjectHead
contents_of [] = []
contents_of (e ∷ entries) =
    let rest = contents_of entries in if e.prefix then rest else e.item ∷ rest

unfoldable pub prefixes_of : {I : Type 0} → List (Entry I) → List String
prefixes_of [] = []
prefixes_of (e ∷ entries) =
    let rest = prefixes_of entries in if e.prefix then e.name ∷ rest else rest

-- the result of `ListObjects`, from the entries after the token
unfoldable pub objects_page : ℕ → List (Entry ObjectHead) → ListObjectsResult
objects_page n entries = record {
  contents = contents_of (page_of n entries);
  common_prefixes = prefixes_of (page_of n entries);
  is_truncated = ltb n (length entries);
  next_continuation_token = if ltb n (length entries) then name_of (last_of n entries) else "";
}

-- `ListObjects`
unfoldable pub list_objects : ListObjectsRequest → Exec Repository ListObjectsResult
list_objects req = do
  guard (not (is_empty req.scope.bucket_id)) invalid_argument
  there ← gets (λ r. has req.scope.bucket_id r.buckets_by_id)
  guard there not_found
  entries ← gets (list_entries req.scope)
  let later =
      if is_empty req.continuation_token
      then entries
      else entries_after entries req.continuation_token
  pure (objects_page (page_size req.max_keys) later)

-- ===== src/Meta/Listing/Versions.antt =====
-- `ListObjectVersions` of the in-memory repository (internal/meta/memory/repository.go), and the search
-- for the version after which a page begins.
use namros.Base.{
  ℕ, ◌<◌, String, ◌≡◌, ◌≢◌, ap, Bool, true, false, not, ◌&&◌, Option, none, some, List, [], ◌∷◌,
  ◌++◌, length, arith, ltb, is_empty, string_equality, ◌==◌, if◌then◌else◌, beq_of_ne, beq_refl,
}
use namros.Base.Maps.{get}
use namros.Base.Text.{text_ltb}
use namros.Base.Sorting.{All, All-map, sort_slice}
use namros.Base.Searching.{search_from, search_from-misses}
use namros.Base.Exec.{Exec, pure, gets, guard, ◌>>=◌, ◌>>◌, invalid_argument, not_found}
use namros.Meta.Model.Object.{ObjectVersion}
use namros.Meta.Model.Zero.{no_version}
use namros.Meta.Repository.{Repository, VersionKey, object_key_eq, has}
use namros.Meta.Objects.{is_committed, object_key}
use namros.Meta.Listing.{
  Entry, Scope, ListObjectVersionsRequest, ObjectVersionEntry, ListObjectVersionsResult, gather,
  key_of_version, page_size, last_of, page_of, prefixes_of, name_of,
}

-- what `versionListEntry` holds besides the name
pub record VersionItem : Type 0 where
  pub version_id : String
  pub sort_key : String
  pub is_latest : Bool
  pub version : ObjectVersion

abbrev pub no_item : VersionItem
no_item = record { version_id = ""; sort_key = ""; is_latest = false; version = no_version }

-- `r.heads[...].VersionID`, the empty text where there is no head
head_version_id : Repository → VersionKey → String
head_version_id r k = elim (get (object_key k.bucket_id k.key) r.heads) [
  | none ↦ ""
  | some head ↦ head.version_id
]

abbrev version_listed : Scope → VersionKey → ObjectVersion → Bool
version_listed scope k version = k.bucket_id == scope.bucket_id && is_committed version.state

unfoldable pub version_item : Repository → VersionKey → ObjectVersion → VersionItem
unfolding head_version_id
version_item r k version = record {
  version_id = version.version_id;
  sort_key = version.version_sort_key;
  is_latest = head_version_id r k == version.version_id;
  version = version;
}

-- the order of `sortVersionEntries`: by name, prefixes first, then the newest version first
unfoldable pub version_entry_less : Entry VersionItem → Entry VersionItem → Bool
version_entry_less x y =
    if not (x.name == y.name)
    then text_ltb x.name y.name
    else if (if x.prefix then not y.prefix else y.prefix)
    then x.prefix
    else text_ltb y.item.sort_key x.item.sort_key

-- `versionEntries`
unfoldable pub version_entries : Scope → Repository → List (Entry VersionItem)
version_entries scope r =
    sort_slice version_entry_less
      (gather scope (version_listed scope) key_of_version (version_item r) no_item [] r.versions)

-- the test that `versionEntriesAfter` searches by
unfoldable pub version_marker_test : String → String → Entry VersionItem → Bool
version_marker_test key_marker version_id_marker e =
    if not (e.name == key_marker)
    then text_ltb key_marker e.name
    else if is_empty version_id_marker
    then text_ltb key_marker e.name
    else e.item.version_id == version_id_marker

-- `index++` where the marker was found
unfoldable pub skip_marker : String → String → List (Entry VersionItem) → List (Entry VersionItem)
skip_marker key_marker version_id_marker [] = []
skip_marker key_marker version_id_marker (e ∷ entries) =
    if e.name == key_marker && e.item.version_id == version_id_marker then entries else e ∷ entries

-- `versionEntriesAfter`
unfoldable pub version_entries_after :
    List (Entry VersionItem) → String → String → List (Entry VersionItem)
unfolding skip_marker
version_entries_after entries key_marker version_id_marker =
    skip_marker key_marker version_id_marker
      (search_from (version_marker_test key_marker version_id_marker) entries)

abbrev version_entry : VersionItem → ObjectVersionEntry
version_entry i = record { version = i.version; is_latest = i.is_latest }

-- the last loop of `ListObjectVersions`, for versions and for delete markers
unfoldable pub shown_versions : Bool → List (Entry VersionItem) → List ObjectVersionEntry
shown_versions markers [] = []
shown_versions markers (e ∷ entries) =
    let rest = shown_versions markers entries in
    let wanted =
      if markers then e.item.version.delete_marker else not e.item.version.delete_marker in
    if not e.prefix && wanted then version_entry e.item ∷ rest else rest

abbrev version_id_of : Option (Entry VersionItem) → String
version_id_of none = ""
version_id_of (some e) = e.item.version_id

-- the result of `ListObjectVersions`, from the entries after the markers
unfoldable pub versions_page : ℕ → List (Entry VersionItem) → ListObjectVersionsResult
versions_page n entries = record {
  versions = shown_versions false (page_of n entries);
  delete_markers = shown_versions true (page_of n entries);
  common_prefixes = prefixes_of (page_of n entries);
  is_truncated = ltb n (length entries);
  next_key_marker = if ltb n (length entries) then name_of (last_of n entries) else "";
  next_version_id_marker = if ltb n (length entries) then version_id_of (last_of n entries) else "";
}

-- `ListObjectVersions`
unfoldable pub list_object_versions :
    ListObjectVersionsRequest → Exec Repository ListObjectVersionsResult
list_object_versions req = do
  guard (not (is_empty req.scope.bucket_id)) invalid_argument
  there ← gets (λ r. has req.scope.bucket_id r.buckets_by_id)
  guard there not_found
  entries ← gets (version_entries req.scope)
  let later =
      if is_empty req.key_marker
      then entries
      else version_entries_after entries req.key_marker req.version_id_marker
  pure (versions_page (page_size req.max_keys) later)

-- a version of the key other than the marker
abbrev OtherVersion : String → String → Entry VersionItem → Type 0
OtherVersion key version_id e = (e.name ≡ key) × (e.item.version_id ≢ version_id)

other-refused :
    (key id : String) (e : Entry VersionItem)
    → id ≢ ""
    → OtherVersion key id e
    → version_marker_test key id e ≡ false
unfolding version_marker_test
other-refused key id e some_id h =
    ground (arith, beq_refl key, beq_of_ne id "" some_id, beq_of_ne e.item.version_id id h.1)

-- Where a listing shows versions of one key only and the version that the last page ended with stands in
-- the first half, `versionEntriesAfter` finds nothing, whatever versions follow.
pub versions_lost :
    (key id : String) (front back : List (Entry VersionItem)) (marker : Entry VersionItem)
    → id ≢ ""
    → All (OtherVersion key id) back
    → length front < length back
    → version_entries_after (front ++ (marker ∷ back)) key id ≡ []
unfolding version_entries_after skip_marker
versions_lost key id front back marker some_id after first_half = ap (skip_marker key id) (
    search_from-misses (version_marker_test key id) front back marker
      (All-map back (λ e h. other-refused key id e some_id h) after) first_half)

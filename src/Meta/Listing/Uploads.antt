-- ===== src/Meta/Listing/Uploads.antt =====
-- `ListMultipartUploads` of the in-memory repository (internal/meta/memory/repository.go), and the search
-- for the upload after which a page begins.
pub mod Resume
use namros.Base.{
  ℕ, String, ◌≡◌, ◌≢◌, refl, sym, ap, ◌∙◌, ◌⊎◌, inl, inr, Bool, true, false, not, ◌&&◌, Option,
  none, some, List, [], ◌∷◌, ◌++◌, length, arith, ltb, is_empty, string_equality, ◌==◌,
  if◌then◌else◌, beq_of_ne, beq_refl, subst, eq_of_beq, ne_of_beq, Bool-cases,
}
use namros.Base.Maps.{Map, Unique}
use namros.Base.Text.{text_ltb}
use namros.Base.TextOrder.{text_ltb_irrefl, text_ltb_trans, text_ltb_asym, text_ltb_of_not}
use namros.Base.TextPrefix.{has_prefix}
use namros.Base.Sorting.{
  All, All-map, Pairwise, Pairwise-with, In, All-of, sort_slice, All-sort_slice,
  sort_slice-Pairwise,
}
use namros.Base.Searching.{search_from}
use namros.Base.Exec.{Exec, pure, gets, guard, ◌>>=◌, ◌>>◌, invalid_argument, not_found}
use namros.Meta.Model.Multipart.{MultipartUpload, MultipartUploadState}
use namros.Meta.Repository.{Repository, UploadKey, upload_key_eq, has}
use namros.Meta.Listing.{
  Entry, Scope, ListMultipartUploadsRequest, ListMultipartUploadsResult, gather, key_of_upload,
  page_size, last_of, page_of, prefixes_of, name_of,
}

-- what `multipartUploadEntry` holds besides the name; a common prefix has no upload
pub record UploadItem : Type 0 where
  pub upload_id : String
  pub upload : Option MultipartUpload

abbrev pub no_item : UploadItem
no_item = record { upload_id = ""; upload = none }

abbrev pub is_active : MultipartUploadState → Bool
is_active MultipartUploadState.active = true
is_active _ = false

abbrev pub upload_listed : Scope → UploadKey → MultipartUpload → Bool
upload_listed scope k upload = k.bucket_id == scope.bucket_id && is_active upload.state

abbrev pub upload_item : UploadKey → MultipartUpload → UploadItem
upload_item k upload = record { upload_id = k.upload_id; upload = some upload }

-- the order that `multipartUploadEntries` sorts by
unfoldable pub upload_entry_less : Entry UploadItem → Entry UploadItem → Bool
upload_entry_less x y =
    if not (x.name == y.name)
    then text_ltb x.name y.name
    else if (if x.prefix then not y.prefix else y.prefix)
    then x.prefix
    else text_ltb x.item.upload_id y.item.upload_id

abbrev pub found_uploads : Scope → Repository → List (Entry UploadItem)
found_uploads scope r =
    gather scope (upload_listed scope) key_of_upload upload_item no_item [] r.uploads

-- `multipartUploadEntries`
unfoldable pub multipart_upload_entries : Scope → Repository → List (Entry UploadItem)
multipart_upload_entries scope r = sort_slice upload_entry_less (found_uploads scope r)

-- the test that `multipartEntriesAfter` searches by
unfoldable pub upload_marker_test : String → String → Entry UploadItem → Bool
upload_marker_test key_marker upload_id_marker e =
    if not (e.name == key_marker)
    then text_ltb key_marker e.name
    else if is_empty upload_id_marker
    then text_ltb key_marker e.name
    else text_ltb upload_id_marker e.item.upload_id

-- `multipartEntriesAfter`
unfoldable pub multipart_entries_after :
    List (Entry UploadItem) → String → String → List (Entry UploadItem)
multipart_entries_after entries key_marker upload_id_marker =
    search_from (upload_marker_test key_marker upload_id_marker) entries

abbrev with_upload : Option MultipartUpload → List MultipartUpload → List MultipartUpload
with_upload none uploads = uploads
with_upload (some upload) uploads = upload ∷ uploads

-- the last loop of `ListMultipartUploads`
unfoldable pub shown_uploads : List (Entry UploadItem) → List MultipartUpload
shown_uploads [] = []
shown_uploads (e ∷ entries) =
    let rest = shown_uploads entries in if e.prefix then rest else with_upload e.item.upload rest

abbrev upload_id_of : Option (Entry UploadItem) → String
upload_id_of none = ""
upload_id_of (some e) = e.item.upload_id

-- the result of `ListMultipartUploads`, from the entries after the markers
unfoldable pub uploads_page : ℕ → List (Entry UploadItem) → ListMultipartUploadsResult
uploads_page n entries = record {
  uploads = shown_uploads (page_of n entries);
  common_prefixes = prefixes_of (page_of n entries);
  is_truncated = ltb n (length entries);
  next_key_marker = if ltb n (length entries) then name_of (last_of n entries) else "";
  next_upload_id_marker = if ltb n (length entries) then upload_id_of (last_of n entries) else "";
}

-- `ListMultipartUploads`
unfoldable pub list_multipart_uploads :
    ListMultipartUploadsRequest → Exec Repository ListMultipartUploadsResult
list_multipart_uploads req = do
  guard (not (is_empty req.scope.bucket_id)) invalid_argument
  there ← gets (λ r. has req.scope.bucket_id r.buckets_by_id)
  guard there not_found
  entries ← gets (multipart_upload_entries req.scope)
  let later =
      if is_empty req.key_marker
      then entries
      else multipart_entries_after entries req.key_marker req.upload_id_marker
  pure (uploads_page (page_size req.max_uploads) later)

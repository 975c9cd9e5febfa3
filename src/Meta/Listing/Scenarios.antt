-- ===== src/Meta/Listing/Scenarios.antt =====
-- Listings of small buckets.
use namros.Base.{string_equality, ne_of_beq, ◌≡◌, refl, false, some, [], ◌∷◌, arith, String, ◌↔◌}
use namros.Base.Maps.{get, Unique}
use namros.Base.Text.{text_ltb}
use namros.Base.TextPrefix.{cut_through, has_prefix}
use namros.Base.Sorting.{Pairwise, In, sort_slice}
use namros.Meta.Model.Object.{ObjectHead}
use namros.Meta.Model.Zero.{no_head}
use namros.Meta.Model.Multipart.{MultipartUpload}
use namros.Meta.Multipart.{new_upload}
use namros.Meta.Repository.{Repository, UploadKey, upload_key_eq, object_key_eq}
use namros.Meta.Samples.{a_repository, standard, plain, no_retention}
use namros.Meta.Model.Lock.{LegalHold}
use namros.Meta.Listing.{
  Entry, Scope, common_prefix, gather, list_entries, contents_of, prefixes_of, member,
  object_entry_less,
}
use namros.Meta.Listing.Objects.{Ascends, Shown, list_entries_exact}
use namros.Meta.Listing.Following.{follow_tokens, ShowsAll, request}
use namros.Meta.Listing.Tokens.{follow_tokens-ShowsAll}
use namros.Meta.Listing.Versions.{
  VersionItem, no_item as no_version_item, version_entries_after, versions_lost,
}
use namros.Meta.Listing.Uploads.{
  UploadItem, upload_entry_less, multipart_upload_entries, multipart_entries_after,
}
use namros.Meta.Listing.Uploads.Resume.{multipart_entries_resume}

abbrev head_at : String → ObjectHead
head_at key = record no_head { bucket_id = "b"; key = key; version_id = "v" }

-- three objects, two of them under one common prefix
abbrev stored : Repository
stored = record a_repository {
  heads =
      (record { bucket_id = "b"; key = "b/2" }, head_at "b/2")
      ∷ (record { bucket_id = "b"; key = "c" }, head_at "c")
      ∷ (record { bucket_id = "b"; key = "b/1" }, head_at "b/1")
      ∷ [];
}

abbrev by_slash : Scope
by_slash = record { bucket_id = "b"; prefix = ""; delimiter = "/" }

abbrev the_entry : Entry ObjectHead
the_entry = record { name = "c"; prefix = false; item = head_at "c" }

listed : contents_of (list_entries by_slash stored) ≡ head_at "c" ∷ []
unfolding contents_of list_entries gather common_prefix cut_through has_prefix sort_slice
    object_entry_less member text_ltb
listed = refl

grouped : prefixes_of (list_entries by_slash stored) ≡ "b/" ∷ []
unfolding prefixes_of list_entries gather common_prefix cut_through has_prefix sort_slice
    object_entry_less member text_ltb
grouped = refl

listed_Unique : Unique stored.heads
unfolding get
listed_Unique = (refl, (refl, (refl, tt)))

follow_tokens-ShowsAll_example :
    ShowsAll (follow_tokens 9 (request by_slash 1 "") stored) (list_entries by_slash stored)
unfolding get list_entries gather common_prefix cut_through has_prefix sort_slice object_entry_less
    member text_ltb
follow_tokens-ShowsAll_example =
    follow_tokens-ShowsAll by_slash 1 9 stored refl refl listed_Unique
      (λ p. cc p, (λ p. cc p, (λ p. cc p, tt))) (omega arith)

list_entries_exact_example :
    Pairwise Ascends (list_entries by_slash stored)
    × (In the_entry (list_entries by_slash stored) ↔ Shown by_slash stored the_entry)
list_entries_exact_example = list_entries_exact by_slash stored the_entry listed_Unique

abbrev version_at : String → Entry VersionItem
version_at id = record {
  name = "c";
  prefix = false;
  item = record no_version_item { version_id = id };
}

-- A key with three versions, listed one at a time: after the first version nothing is found.
versions_lost_example :
    version_entries_after (version_at "3" ∷ version_at "2" ∷ version_at "1" ∷ []) "c" "3" ≡ []
versions_lost_example =
    versions_lost "c" "3" [] (version_at "2" ∷ version_at "1" ∷ []) (version_at "3")
      (ne_of_beq "3" "" refl) ((refl, ne_of_beq "2" "3" refl), ((refl, ne_of_beq "1" "3" refl), tt))
      (omega arith)

abbrev upload_at : String → MultipartUpload
upload_at id =
    new_upload
      (record {
        bucket_id = "b";
        key = "c";
        content_type = "";
        storage_class = standard;
        server_side_encryption = plain;
        user_metadata = [];
        tags = [];
        object_lock_retention = no_retention;
        object_lock_legal_hold = LegalHold.unset;
      })
      id 1

abbrev upload_key : String → UploadKey
upload_key id = record { bucket_id = "b"; key = "c"; upload_id = id }

-- two uploads of one key
abbrev with_uploads : Repository
with_uploads = record a_repository {
  uploads = (upload_key "u2", upload_at "u2") ∷ (upload_key "u1", upload_at "u1") ∷ [];
}

abbrev entry_at : String → Entry UploadItem
entry_at id = record {
  name = "c";
  prefix = false;
  item = record { upload_id = id; upload = some (upload_at id) };
}

multipart_entries_resume_example :
    multipart_entries_after (multipart_upload_entries by_slash with_uploads) "c" "u1"
    ≡ entry_at "u2" ∷ []
unfolding get new_upload multipart_upload_entries gather common_prefix cut_through has_prefix
    sort_slice upload_entry_less member text_ltb
multipart_entries_resume_example =
    multipart_entries_resume by_slash with_uploads [] (entry_at "u2" ∷ []) (entry_at "u1")
      (refl, (refl, tt)) (λ p. cc p, (λ p. cc p, tt)) refl

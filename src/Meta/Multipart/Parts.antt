-- ===== src/Meta/Multipart/Parts.antt =====
-- Parts of a multipart upload: `PutMultipartPart`, `ListMultipartParts`, `GetMultipartParts` and the
-- listings under the lock (internal/meta/memory/repository.go), and
-- `ValidateMultipartPartNumberSelection` (internal/meta/scale.go).
use namros.Base.{
  ℕ, Bool, true, false, not, ◌&&◌, ◌||◌, Option, none, some, List, [], ◌∷◌, nat_beq, ltb, is_empty,
  length, take, if◌then◌else◌,
}
use namros.Base.Maps.{Map, get, put}
use namros.Base.Int64.{signed_ltb}
use namros.Base.Exec.{
  Result, ok, err, Exec, pure, lift, gets, modify, guard, ◌>>=◌, ◌>>◌, invalid_argument,
}
use namros.Meta.Model.Segment.{Time}
use namros.Meta.Model.Multipart.{MultipartUpload, MultipartPart}
use namros.Meta.Repository.{
  Repository, Env, UploadKey, PartKey, upload_key_eq, upload_key_beq, part_key_eq, read_clock,
}
use namros.Meta.Multipart.{
  PutMultipartPartRequest, is_part_number, max_multipart_parts, get_active_upload,
  apply_multipart_part_summary, store_upload,
}

-- the part that `PutMultipartPart` stores; the first upload of a part keeps its date
abbrev pub created_or : Option MultipartPart → Time → Time
created_or none now = now
created_or (some previous) now = previous.created_at

unfoldable pub new_part : PutMultipartPartRequest → Option MultipartPart → Time → MultipartPart
new_part req previous now = record {
  upload_id = req.upload.upload_id;
  part_number = req.part_number;
  size_bytes = req.size_bytes;
  etag = req.etag;
  segment_ref = req.segment_ref;
  created_at = created_or previous now;
  updated_at = now;
}

abbrev pub part_key : PutMultipartPartRequest → PartKey
part_key req = record { upload = req.upload; part_number = req.part_number }

-- what `PutMultipartPart` writes once the upload is known to be active
unfoldable pub store_part :
    PutMultipartPartRequest → MultipartUpload → Time → Repository → Repository
unfolding new_part
store_part req upload now r =
    let previous = get (part_key req) r.parts in
    let part = new_part req previous now in
    store_upload req.upload (apply_multipart_part_summary upload part previous now)
      (record r { parts = put (part_key req) part r.parts })

-- `PutMultipartPart`
unfoldable pub put_multipart_part :
    Env → PutMultipartPartRequest → Exec Repository (MultipartPart × Option MultipartPart)
put_multipart_part env req = do
  guard
      (not (
          is_empty req.upload.bucket_id
          || (is_empty req.upload.key || is_empty req.upload.upload_id))
        && is_part_number req.part_number)
      invalid_argument
  active ← gets (get_active_upload req.upload)
  upload ← lift active
  previous ← gets (λ r. get (part_key req) r.parts)
  now ← read_clock env
  modify (store_part req upload now)
  pure (new_part req previous now, previous)

-- the entries of an upload, in the order of their part numbers
unfoldable pub insert_part :
    PartKey → MultipartPart → Map PartKey MultipartPart → Map PartKey MultipartPart
insert_part k p [] = (k, p) ∷ []
insert_part k p ((j, q) ∷ rest) =
    let later = insert_part k p rest in
    if signed_ltb k.part_number j.part_number then (k, p) ∷ ((j, q) ∷ rest) else (j, q) ∷ later

unfoldable pub parts_of : UploadKey → Map PartKey MultipartPart → Map PartKey MultipartPart
unfolding insert_part
parts_of upload [] = []
parts_of upload ((k, p) ∷ parts) =
    let rest = parts_of upload parts in
    if upload_key_beq k.upload upload then insert_part k p rest else rest

abbrev pub parts_only : Map PartKey MultipartPart → List MultipartPart
parts_only [] = []
parts_only ((k, p) ∷ parts) = p ∷ parts_only parts

abbrev pub keys_only : Map PartKey MultipartPart → List PartKey
keys_only [] = []
keys_only ((k, p) ∷ parts) = k ∷ keys_only parts

-- `listPartsLocked`
unfoldable pub list_parts : UploadKey → Repository → List MultipartPart
unfolding parts_of
list_parts upload r = parts_only (parts_of upload r.parts)

-- `partKeysForCleanupLocked`
unfoldable pub part_keys_for_cleanup : UploadKey → ℕ → Repository → List PartKey
unfolding parts_of
part_keys_for_cleanup upload limit r =
    let keys = keys_only (parts_of upload r.parts) in
    if ltb 0 limit && ltb limit (length keys) then take limit keys else keys

-- `ListMultipartParts`
unfoldable pub list_multipart_parts : UploadKey → Exec Repository (List MultipartPart)
list_multipart_parts upload = do
  active ← gets (get_active_upload upload)
  lift active
  gets (list_parts upload)

member : ℕ → List ℕ → Bool
member n [] = false
member n (m ∷ ns) = nat_beq m n || member n ns

-- the loop of `ValidateMultipartPartNumberSelection`, with the numbers seen so far
select_from : List ℕ → List ℕ → Bool
unfolding member
select_from seen [] = true
select_from seen (n ∷ ns) =
    let rest = select_from (n ∷ seen) ns in is_part_number n && (not (member n seen) && rest)

-- `ValidateMultipartPartNumberSelection`
unfoldable pub validate_multipart_part_number_selection : List ℕ → Result (Unit {0})
unfolding select_from
validate_multipart_part_number_selection numbers =
    if ltb (length numbers) 1 || ltb max_multipart_parts (length numbers)
    then err invalid_argument
    else if select_from [] numbers
    then ok tt
    else err invalid_argument

-- the loop of `GetMultipartParts`: a missing part is skipped
unfoldable pub collect_parts : UploadKey → List ℕ → Map PartKey MultipartPart → List MultipartPart
collect_parts upload [] parts = []
collect_parts upload (n ∷ ns) parts =
    let rest = collect_parts upload ns parts in
    elim (get (record { upload = upload; part_number = n }) parts) [
      | none ↦ rest
      | some part ↦ part ∷ rest
    ]

-- `GetMultipartParts`
unfoldable pub get_multipart_parts : UploadKey → List ℕ → Exec Repository (List MultipartPart)
get_multipart_parts upload numbers = do
  guard (not (is_empty upload.bucket_id || (is_empty upload.key || is_empty upload.upload_id)))
      invalid_argument
  lift (validate_multipart_part_number_selection numbers)
  active ← gets (get_active_upload upload)
  lift active
  gets (λ r. collect_parts upload numbers r.parts)

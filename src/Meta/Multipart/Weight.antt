-- ===== src/Meta/Multipart/Weight.antt =====
-- Sums over the stored parts of one upload, and how writes and deletions change them.
use namros.Base.{
  ℕ, ◌+◌, zero, suc, ◌≡◌, ◌∙◌, ◌&&◌, refl, ap, inl, inr, false, Option, none, some, List, [], ◌∷◌,
  arith, Bool-cases, take, eq_of_beq, if◌then◌else◌, ltb, length,
}
use namros.Base.Maps.{Map, get, put, delete, Unique, get-delete, delete-Unique}
use namros.Base.Int64.{signed_ltb}
use namros.Meta.Model.Multipart.{MultipartPart}
use namros.Meta.Repository.{
  Repository, UploadKey, PartKey, upload_key_eq, part_key_eq, upload_key_beq, upload_key_beq_iff,
  part_key_beq,
}
use namros.Meta.Multipart.Parts.{parts_of, insert_part, keys_only, part_keys_for_cleanup}
use namros.Meta.Multipart.Lifecycle.{delete_parts}

module _ (f : MultipartPart → ℕ) (k : UploadKey) where
  -- The sum of `f` over the parts of upload `k`.
  unfoldable pub weight : Map PartKey MultipartPart → ℕ
  weight [] = 0
  weight ((j, p) ∷ parts) =
      let rest = weight parts in if upload_key_beq j.upload k then f p + rest else rest

  -- What the entry at one key adds to the sum.
  abbrev pub share : PartKey → Option MultipartPart → ℕ
  share j none = 0
  share j (some p) = if upload_key_beq j.upload k then f p else 0

  delete_absent :
      (j : PartKey) (parts : Map PartKey MultipartPart)
      → get j parts ≡ none
      → delete j parts ≡ parts
  unfolding get delete
  delete_absent j [] h = refl
  delete_absent j ((i, p) ∷ parts) h = ground (arith, delete_absent j parts)

  pub weight-delete :
      (j : PartKey) (parts : Map PartKey MultipartPart)
      → Unique parts
      → weight parts ≡ share j (get j parts) + weight (delete j parts)
  unfolding weight get delete
  weight-delete j [] u = omega arith
  weight-delete j ((i, p) ∷ parts) u = elim (Bool-cases (part_key_beq i j)) [
    | inl same ↦
        let e = eq_of_beq i j same in
        rw same
          (ground (arith, delete_absent j parts (rw e at (u.0)), ap (λ (x : PartKey). x.upload) e))
    | inr other ↦ rw other (ground (arith, weight-delete j parts u.1))
  ]

  -- A write replaces the old share by the new one.
  pub weight-put :
      (j : PartKey) (p : MultipartPart) (parts : Map PartKey MultipartPart)
      → Unique parts
      → weight (put j p parts) + share j (get j parts) ≡ weight parts + share j (some p)
  unfolding weight put
  weight-put j p parts u = ground (arith, weight-delete j parts u)

  -- Deleting parts of another upload changes nothing.
  pub weight-delete_ne :
      (j : PartKey) (parts : Map PartKey MultipartPart)
      → Unique parts
      → upload_key_beq j.upload k ≡ false
      → weight (delete j parts) ≡ weight parts
  weight-delete_ne j parts u other = ground (arith, weight-delete j parts u)

  pub weight-put_ne :
      (j : PartKey) (p : MultipartPart) (parts : Map PartKey MultipartPart)
      → Unique parts
      → upload_key_beq j.upload k ≡ false
      → weight (put j p parts) ≡ weight parts
  weight-put_ne j p parts u other = ground (arith, weight-put j p parts u)

  -- An upload of which no part is stored weighs nothing.
  pub weight_absent :
      (parts : Map PartKey MultipartPart)
      → Unique parts
      → ((n : ℕ) → get (record { upload = k; part_number = n }) parts ≡ none)
      → weight parts ≡ 0
  unfolding weight get
  weight_absent [] u h = refl
  weight_absent ((j, p) ∷ parts) u h = elim (Bool-cases (upload_key_beq j.upload k)) [
    | inl mine ↦ ground (arith, h j.part_number)
    | inr other ↦ rw other (weight_absent parts u.1 λ n. ground (arith, h n))
  ]

-- All keys of a list belong to one upload.
abbrev pub Own : UploadKey → List PartKey → Type 0
Own k [] = Unit
Own k (j ∷ keys) = (j.upload ≡ k) × Own k keys

insert_part-Own :
    (k : UploadKey) (j : PartKey) (p : MultipartPart) (parts : Map PartKey MultipartPart)
    → j.upload ≡ k
    → Own k (keys_only parts)
    → Own k (keys_only (insert_part j p parts))
unfolding insert_part
insert_part-Own k j p [] e own = (e, tt)
insert_part-Own k j p ((i, q) ∷ rest) e own =
    elim (Bool-cases (signed_ltb j.part_number i.part_number)) [
      | inl before ↦ rw before (e, own)
      | inr after ↦ rw after (own.0, insert_part-Own k j p rest e own.1)
    ]

parts_of-Own :
    (k : UploadKey) (parts : Map PartKey MultipartPart) → Own k (keys_only (parts_of k parts))
unfolding parts_of
parts_of-Own k [] = tt
parts_of-Own k ((j, p) ∷ parts) = elim (Bool-cases (upload_key_beq j.upload k)) [
  | inl mine ↦ rw mine (
      insert_part-Own k j p (parts_of k parts) ((upload_key_beq_iff j.upload k).0 mine)
        (parts_of-Own k parts))
  | inr other ↦ rw other (parts_of-Own k parts)
]

pub take-Own : (n : ℕ) (k : UploadKey) (keys : List PartKey) → Own k keys → Own k (take n keys)
take-Own zero k keys own = tt
take-Own (suc n) k [] own = tt
take-Own (suc n) k (j ∷ keys) own = (own.0, take-Own n k keys own.1)

pub part_keys_for_cleanup-Own :
    (k : UploadKey) (limit : ℕ) (r : Repository) → Own k (part_keys_for_cleanup k limit r)
unfolding part_keys_for_cleanup
part_keys_for_cleanup-Own k limit r =
    elim (Bool-cases (ltb 0 limit && ltb limit (length (keys_only (parts_of k r.parts))))) [
      | inl cut ↦ rw cut (take-Own limit k _ (parts_of-Own k r.parts))
      | inr whole ↦ rw whole (parts_of-Own k r.parts)
    ]

pub delete_parts-Unique :
    (keys : List PartKey) (parts : Map PartKey MultipartPart)
    → Unique parts
    → Unique (delete_parts keys parts)
unfolding delete_parts
delete_parts-Unique [] parts u = u
delete_parts-Unique (j ∷ keys) parts u =
    delete_parts-Unique keys (delete j parts) (delete-Unique j parts u)

pub delete_parts_absent :
    (keys : List PartKey) (i : PartKey) (parts : Map PartKey MultipartPart)
    → get i parts ≡ none
    → get i (delete_parts keys parts) ≡ none
unfolding delete_parts
delete_parts_absent [] i parts h = h
delete_parts_absent (j ∷ keys) i parts h =
    delete_parts_absent keys i (delete j parts) (ground (arith, get-delete j i parts))

pub weight-delete_parts_ne :
    (f : MultipartPart → ℕ) (k j : UploadKey) (keys : List PartKey)
    (parts : Map PartKey MultipartPart)
    → Unique parts
    → Own k keys
    → upload_key_beq k j ≡ false
    → weight f j (delete_parts keys parts) ≡ weight f j parts
unfolding delete_parts
weight-delete_parts_ne f k j [] parts u own other = refl
weight-delete_parts_ne f k j (i ∷ keys) parts u own other =
    weight-delete_parts_ne f k j keys (delete i parts) (delete-Unique i parts u) own.1 other
    ∙ weight-delete_ne f j i parts u (rw (own.0) other)

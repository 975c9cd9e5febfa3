-- ===== src/Meta/Listing/Uploads/Resume.antt =====
-- The order of the entries of `ListMultipartUploads`, and where its pages resume
-- (internal/meta/memory/repository.go).
use namros.Base.{
  String, ◌≡◌, ◌≢◌, refl, sym, ◌∙◌, ◌⊎◌, inl, inr, Bool, true, false, List, [], ◌∷◌, ◌++◌, arith,
  string_equality, ◌==◌, beq_of_ne, beq_refl, subst, eq_of_beq, ne_of_beq, Bool-cases,
}
use namros.Base.Maps.{Unique}
use namros.Base.Text.{text_ltb}
use namros.Base.TextOrder.{text_ltb_irrefl, text_ltb_trans, text_ltb_asym, text_ltb_of_not}
use namros.Base.TextPrefix.{has_prefix}
use namros.Base.Sorting.{
  All, All-map, Pairwise, Pairwise-with, All-of, All-sort_slice, sort_slice-Pairwise,
}
use namros.Meta.Model.Multipart.{MultipartUpload}
use namros.Meta.Repository.{Repository, UploadKey, upload_key_eq}
use namros.Meta.Listing.{Entry, Scope, key_of_upload}
use namros.Meta.Listing.Prefixes.{Matches, and_left}
use namros.Meta.Listing.Gather.{Origin, of_item, of_prefix, gather-Origin}
use namros.Meta.Listing.Distinct.{Apart, gather-Apart}
use namros.Meta.Listing.Pages.{search_after, Separates}
use namros.Meta.Listing.Uploads.{
  UploadItem, no_item, is_active, upload_listed, upload_item, upload_entry_less, found_uploads,
  multipart_upload_entries, upload_marker_test, multipart_entries_after,
}

-- an entry of an upload has its identifier
abbrev HasId : Entry UploadItem → Type 0
HasId e = (e.prefix ≡ true) ⊎ (e.item.upload_id ≢ "")

-- the order of the entries
abbrev ComesBefore : Entry UploadItem → Entry UploadItem → Type 0
ComesBefore x y =
    (text_ltb x.name y.name ≡ true)
    ⊎ ((x.name ≡ y.name)
        × (x.prefix ≡ false)
        × (y.prefix ≡ false)
        × (text_ltb x.item.upload_id y.item.upload_id ≡ true))

ComesBefore-trans : (x y z : Entry UploadItem) → ComesBefore x y → ComesBefore y z → ComesBefore x z
ComesBefore-trans x y z (inl p) (inl q) = inl (text_ltb_trans x.name y.name z.name p q)
ComesBefore-trans x y z (inl p) (inr q) = inl (subst (λ n. text_ltb x.name n ≡ true) q.0 p)
ComesBefore-trans x y z (inr p) (inl q) = inl (subst (λ n. text_ltb n z.name ≡ true) (sym p.0) q)
ComesBefore-trans x y z (inr p) (inr q) =
    inr (
      p.0 ∙ q.0,
      p.1,
      q.2,
      text_ltb_trans x.item.upload_id y.item.upload_id z.item.upload_id p.3 q.3,
    )

abbrev upload_id : UploadItem → String
upload_id i = i.upload_id

less-ne :
    (x y : Entry UploadItem) → x.name ≢ y.name → upload_entry_less x y ≡ text_ltb x.name y.name
unfolding upload_entry_less
less-ne x y h = rw (beq_of_ne x.name y.name h) refl

less-eq :
    (x y : Entry UploadItem)
    → x.name ≡ y.name
    → x.prefix ≡ false
    → y.prefix ≡ false
    → upload_entry_less x y ≡ text_ltb x.item.upload_id y.item.upload_id
unfolding upload_entry_less
less-eq x y h p q = rw (h, beq_refl y.name, p, q) refl

-- Two entries that are apart have different names, or one name and two uploads.
Apart-cases :
    (x y : Entry UploadItem)
    → Apart upload_id x y
    → (x.name ≢ y.name)
      ⊎ ((x.name ≡ y.name)
          × (x.prefix ≡ false)
          × (y.prefix ≡ false)
          × (x.item.upload_id ≢ y.item.upload_id))
Apart-cases x y (inl names) = inl names
Apart-cases x y (inr items) = elim (Bool-cases (x.name == y.name)) [
  | inl same ↦ inr (eq_of_beq x.name y.name same, items.0, items.1, items.2)
  | inr differ ↦ inl (ne_of_beq x.name y.name differ)
]

upload_entry_less-forward :
    (x y : Entry UploadItem) → Apart upload_id x y → upload_entry_less x y ≡ true → ComesBefore x y
upload_entry_less-forward x y s below = elim (Apart-cases x y s) [
  | inl names ↦ inl (sym (less-ne x y names) ∙ below)
  | inr (same, p, q, ids) ↦ inr (same, p, q, sym (less-eq x y same p q) ∙ below)
]

upload_entry_less-backward :
    (x y : Entry UploadItem) → Apart upload_id x y → upload_entry_less x y ≡ false → ComesBefore y x
upload_entry_less-backward x y s above = elim (Apart-cases x y s) [
  | inl names ↦ inl (text_ltb_of_not x.name y.name names (sym (less-ne x y names) ∙ above))
  | inr (same, p, q, ids) ↦ inr (
    sym same,
    q,
    p,
    text_ltb_of_not x.item.upload_id y.item.upload_id ids (sym (less-eq x y same p q) ∙ above),
  )
]

abbrev marker_test : Entry UploadItem → Entry UploadItem → Bool
marker_test x y = upload_marker_test x.name x.item.upload_id y

text_ltb-ne : (s t : String) → text_ltb s t ≡ true → s ≢ t
text_ltb-ne s t p e = cc (text_ltb_irrefl t, subst (λ (u : String). text_ltb u t ≡ true) e p)

id_of_item : (x : Entry UploadItem) → HasId x → x.prefix ≡ false → x.item.upload_id ≢ ""
id_of_item x (inl p) q = cc (p, q)
id_of_item x (inr h) q = h

-- Within a key the test compares the identifiers.
marker_test-same :
    (x y : Entry UploadItem)
    → x.name ≡ y.name
    → x.item.upload_id ≢ ""
    → marker_test x y ≡ text_ltb x.item.upload_id y.item.upload_id
unfolding upload_marker_test
marker_test-same x y same h = rw (sym same, beq_refl x.name, beq_of_ne x.item.upload_id "" h) refl

marker_test-differ :
    (x y : Entry UploadItem) → x.name ≢ y.name → marker_test x y ≡ text_ltb x.name y.name
unfolding upload_marker_test
marker_test-differ x y h = rw (beq_of_ne y.name x.name (λ e. h (sym e))) refl

-- The search after an entry accepts what comes later and refuses what comes before.
ComesBefore-Separates :
    (x y : Entry UploadItem) → ComesBefore x y → HasId x → HasId y → Separates marker_test x y
ComesBefore-Separates x y (inl p) hx hy =
    let names = text_ltb-ne x.name y.name p in
    (
      marker_test-differ x y names ∙ p,
      marker_test-differ y x (λ e. names (sym e)) ∙ text_ltb_asym x.name y.name p,
    )
ComesBefore-Separates x y (inr (same, p, q, below)) hx hy = (
  marker_test-same x y same (id_of_item x hx p) ∙ below,
  marker_test-same y x (sym same) (id_of_item y hy q)
      ∙ text_ltb_asym x.item.upload_id y.item.upload_id below,
)

marker_test_irrefl : (x : Entry UploadItem) → marker_test x x ≡ false
unfolding upload_marker_test
marker_test_irrefl x =
    ground (arith, beq_refl x.name, text_ltb_irrefl x.name, text_ltb_irrefl x.item.upload_id)

same_bucket_upload :
    (k k' : UploadKey)
    → k.bucket_id ≡ k'.bucket_id
    → k.key ≡ k'.key
    → k.upload_id ≡ k'.upload_id
    → k ≡ k'
same_bucket_upload k k' p q s = λ i. record { bucket_id = p i; key = q i; upload_id = s i }

module _ (scope : Scope) (r : Repository) where
  in_bucket :
      (k : UploadKey) (v : MultipartUpload)
      → Matches scope (upload_listed scope) key_of_upload k v
      → k.bucket_id ≡ scope.bucket_id
  in_bucket k v m =
      eq_of_beq k.bucket_id scope.bucket_id
        (and_left _ (is_active v.state) (and_left _ (has_prefix k.key scope.prefix) m))

  uploads_apart :
      (k k' : UploadKey) (v v' : MultipartUpload)
      → k ≢ k'
      → Matches scope (upload_listed scope) key_of_upload k v
      → Matches scope (upload_listed scope) key_of_upload k' v'
      → (k.key ≢ k'.key) ⊎ (k.upload_id ≢ k'.upload_id)
  uploads_apart k k' v v' h m m' = elim (Bool-cases (k.key == k'.key)) [
    | inr differ ↦ inl (ne_of_beq k.key k'.key differ)
    | inl same ↦ inr λ ids. h (
        same_bucket_upload k k' (in_bucket k v m ∙ sym (in_bucket k' v' m'))
          (eq_of_beq k.key k'.key same) ids)
  ]

  -- no upload has an empty identifier
  abbrev pub HaveIds : Type 0
  HaveIds = All (λ (kv : UploadKey × MultipartUpload). kv.0.upload_id ≢ "") r.uploads

  multipart_upload_entries-ComesBefore :
      Unique r.uploads → Pairwise ComesBefore (multipart_upload_entries scope r)
  unfolding multipart_upload_entries
  multipart_upload_entries-ComesBefore u =
      sort_slice-Pairwise upload_entry_less ComesBefore (Apart upload_id) ComesBefore-trans
        upload_entry_less-forward upload_entry_less-backward _
        (gather-Apart scope (upload_listed scope) key_of_upload upload_item no_item upload_id
          uploads_apart [] r.uploads u)

  multipart_upload_entries-HasId : HaveIds → All HasId (multipart_upload_entries scope r)
  unfolding multipart_upload_entries
  multipart_upload_entries-HasId ids =
      All-sort_slice upload_entry_less HasId (found_uploads scope r) (
        All-map (found_uploads scope r) entry_id (
          gather-Origin scope (upload_listed scope) key_of_upload upload_item no_item [] r.uploads))
    where
      entry_id :
          (e : Entry UploadItem)
          → Origin scope (upload_listed scope) key_of_upload upload_item no_item [] r.uploads e
          → HasId e
      entry_id e (of_item k v i h c q) = subst HasId q (
          inr (
            All-of (λ (kv : UploadKey × MultipartUpload). kv.0.upload_id ≢ "") r.uploads (k, v) ids
              i))
      entry_id e (of_prefix k v p i h c f q) = subst HasId q (inl refl)

  -- A page of uploads resumes where the last one ended: wherever the listing is cut, the search with the
  -- key and identifier of the last entry shown finds the entries that were not shown.
  pub multipart_entries_resume :
      (shown rest : List (Entry UploadItem)) (last : Entry UploadItem)
      → Unique r.uploads
      → HaveIds
      → multipart_upload_entries scope r ≡ shown ++ (last ∷ rest)
      → multipart_entries_after (multipart_upload_entries scope r) last.name last.item.upload_id
        ≡ rest
  unfolding multipart_entries_after
  multipart_entries_resume shown rest last u ids cut = rw cut (
      search_after marker_test shown last rest
        (subst (Pairwise (Separates marker_test)) cut (
          Pairwise-with (multipart_upload_entries scope r) ComesBefore-Separates
            (multipart_upload_entries-ComesBefore u) (multipart_upload_entries-HasId ids)))
        (marker_test_irrefl last))

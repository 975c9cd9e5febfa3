-- ===== src/Meta/Listing/Following.antt =====
-- A client that follows the continuation tokens of `ListObjects`.
use namros.Base.{
  ℕ, zero, suc, ◌-◌, String, ◌≡◌, refl, true, false, List, [], ◌∷◌, ◌++◌, length, arith, ltb,
  if◌then◌else◌, is_empty, string_equality,
}
use namros.Base.Exec.{Result, ok, err, ◌>>=◌, ◌>>◌}
use namros.Meta.Model.Object.{ObjectHead}
use namros.Meta.Repository.{Repository, object_key_eq, has}
use namros.Meta.Listing.{
  Entry, Scope, ListObjectsRequest, ListObjectsResult, list_entries, entries_after, page_size,
  contents_of, prefixes_of, objects_page, list_objects,
}
use namros.Meta.Listing.Pages.{Cut}

pub contents_of-append :
    (xs ys : List (Entry ObjectHead)) → contents_of (xs ++ ys) ≡ contents_of xs ++ contents_of ys
unfolding contents_of
contents_of-append [] ys = refl
contents_of-append (x ∷ xs) ys = ground (arith, contents_of-append xs ys)

pub prefixes_of-append :
    (xs ys : List (Entry ObjectHead)) → prefixes_of (xs ++ ys) ≡ prefixes_of xs ++ prefixes_of ys
unfolding prefixes_of
prefixes_of-append [] ys = refl
prefixes_of-append (x ∷ xs) ys = ground (arith, prefixes_of-append xs ys)

-- What a page shows, whole or cut.
pub page_whole :
    (n : ℕ) (es : List (Entry ObjectHead))
    → ltb n (length es) ≡ false
    → objects_page n es ≡ record {
      contents = contents_of es;
      common_prefixes = prefixes_of es;
      is_truncated = false;
      next_continuation_token = "";
    }
unfolding objects_page
page_whole n es h = rw h refl

suc_back : (i : ℕ) → suc i - 1 ≡ i
suc_back i = omega arith

pub page-Cut :
    (i : ℕ) (es : List (Entry ObjectHead)) (c : Cut i es)
    → ltb (suc i) (length es) ≡ true
    → objects_page (suc i) es ≡ record {
      contents = contents_of (c.init ++ (c.last ∷ []));
      common_prefixes = prefixes_of (c.init ++ (c.last ∷ []));
      is_truncated = true;
      next_continuation_token = c.last.name;
    }
unfolding objects_page
page-Cut i es c h = rw (h, c.page, suc_back i, c.marker)

-- the entries after the token
abbrev pub later : ListObjectsRequest → List (Entry ObjectHead) → List (Entry ObjectHead)
later req entries =
    if is_empty req.continuation_token
    then entries
    else entries_after entries req.continuation_token

-- A listing of a bucket that exists is a page of the entries after the token.
pub list_objects-ok :
    (req : ListObjectsRequest) (r : Repository)
    → is_empty req.scope.bucket_id ≡ false
    → has req.scope.bucket_id r.buckets_by_id ≡ true
    → list_objects req r
      ≡ (ok (objects_page (page_size req.max_keys) (later req (list_entries req.scope r))), r)
unfolding list_objects ◌>>=◌ ◌>>◌
list_objects-ok req r named there = rw (named, there) refl

-- a client that follows the tokens for at most so many pages
abbrev pub next_page : ListObjectsRequest → ListObjectsResult → ListObjectsRequest
next_page req page = record req { continuation_token = page.next_continuation_token }

abbrev pub followed :
    Result ListObjectsResult → (ListObjectsResult → List ListObjectsResult) → List ListObjectsResult
followed (err e) more = []
followed (ok page) more = page ∷ elim page.is_truncated [ true ↦ more page | false ↦ [] ]

unfoldable pub follow_tokens : ℕ → ListObjectsRequest → Repository → List ListObjectsResult
follow_tokens zero req r = []
follow_tokens (suc n) req r =
    followed (list_objects req r).0 (λ page. follow_tokens n (next_page req page) r)

unfoldable pub all_contents : List ListObjectsResult → List ObjectHead
all_contents [] = []
all_contents (page ∷ pages) = page.contents ++ all_contents pages

unfoldable pub all_prefixes : List ListObjectsResult → List String
all_prefixes [] = []
all_prefixes (page ∷ pages) = page.common_prefixes ++ all_prefixes pages

-- the pages show the objects and the common prefixes of a listing, each once and in order
abbrev pub ShowsAll : List ListObjectsResult → List (Entry ObjectHead) → Type 0
ShowsAll pages es = (all_contents pages ≡ contents_of es) × (all_prefixes pages ≡ prefixes_of es)

pub page_size_positive : (n : ℕ) → page_size n ≡ suc (page_size n - 1)
page_size_positive n = ground arith

abbrev pub request : Scope → ℕ → String → ListObjectsRequest
request scope max_keys token = record {
  scope = scope;
  continuation_token = token;
  max_keys = max_keys;
}

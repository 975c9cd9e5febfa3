-- ===== src/Meta/Listing/Tokens.antt =====
-- The pages of `ListObjects` that a client gets by following the continuation tokens
-- (internal/meta/memory/repository.go).
use namros.Base.{
  ℕ, zero, suc, ◌-◌, ◌<◌, String, ◌≡◌, ◌≢◌, refl, sym, ap, ◌∙◌, inl, inr, Bool, true, false,
  Bool-cases, List, [], ◌∷◌, ◌++◌, length, arith, subst, ltb, is_empty, string_equality, beq_of_ne,
}
use mathlib.Core.List.{append-nil, append_assoc}
use namros.Base.Maps.{Unique}
use namros.Base.Exec.{Result, ok}
use namros.Base.Text.{text_ltb}
use namros.Base.TextOrder.{text_ltb_irrefl, text_ltb_asym}
use namros.Base.Sorting.{All, Pairwise, Pairwise-map}
use namros.Base.Searching.{search_from}
use namros.Meta.Model.Object.{ObjectHead}
use namros.Meta.Repository.{Repository, object_key_eq, has}
use namros.Meta.Listing.{
  Entry, Scope, ListObjectsResult, list_entries, entries_after, page_size, contents_of, prefixes_of,
  objects_page,
}
use namros.Meta.Listing.Pages.{Cut, Cut-at, snoc, Cut-behind, search_after, All-append, Separates}
use namros.Meta.Listing.Objects.{Ascends, list_entries-Ascends, names_of_keys, HasKeys}
use namros.Meta.Listing.Following.{
  contents_of-append, prefixes_of-append, page_whole, page-Cut, later, list_objects-ok, next_page,
  followed, follow_tokens, all_contents, all_prefixes, ShowsAll, page_size_positive, request,
}

module _ (scope : Scope) (max_keys : ℕ) (r : Repository) (named : is_empty scope.bucket_id ≡ false)
    (there : has scope.bucket_id r.buckets_by_id ≡ true)
    (ascends : Pairwise Ascends (list_entries scope r))
    (names : All (λ e. e.name ≢ "") (list_entries scope r)) where
  whole_page :
      (fuel : ℕ) (token : String) (rest : List (Entry ObjectHead))
      → later (request scope max_keys token) (list_entries scope r) ≡ rest
      → ltb (page_size max_keys) (length rest) ≡ false
      → ShowsAll (follow_tokens (suc fuel) (request scope max_keys token) r) rest
  unfolding follow_tokens all_contents all_prefixes
  whole_page fuel token rest at fits =
      rw
        (
          list_objects-ok (request scope max_keys token) r named there,
          at,
          page_whole (page_size max_keys) rest fits,
        )
        (append-nil (contents_of rest), append-nil (prefixes_of rest))

  module _ (fuel i : ℕ) (token : String) (rest : List (Entry ObjectHead)) (c : Cut i rest)
      (at : later (request scope max_keys token) (list_entries scope r) ≡ rest)
      (size : page_size max_keys ≡ suc i) (more : ltb (suc i) (length rest) ≡ true) where
    abbrev shown : ListObjectsResult
    shown = record {
      contents = contents_of (c.init ++ (c.last ∷ []));
      common_prefixes = prefixes_of (c.init ++ (c.last ∷ []));
      is_truncated = true;
      next_continuation_token = c.last.name;
    }

    cut_step :
        follow_tokens (suc fuel) (request scope max_keys token) r
        ≡ shown ∷ follow_tokens fuel (request scope max_keys c.last.name) r
    unfolding follow_tokens
    cut_step =
        ap
          (λ (res : Result ListObjectsResult).
            followed res
              (λ page. follow_tokens fuel (next_page (request scope max_keys token) page) r))
          (ap (λ (res : Result ListObjectsResult × Repository). res.0)
              (list_objects-ok (request scope max_keys token) r named there)
            ∙ ap (λ (page : ListObjectsResult). ok page)
                (ap (objects_page (page_size max_keys)) at
                  ∙ ap (λ (n : ℕ). objects_page n rest) size
                  ∙ page-Cut i rest c more))

    cut_pages :
        ShowsAll (follow_tokens fuel (request scope max_keys c.last.name) r) c.rest
        → ShowsAll (follow_tokens (suc fuel) (request scope max_keys token) r) rest
    unfolding all_contents all_prefixes
    cut_pages ih =
        let joined = snoc c.init c.last c.rest ∙ sym c.whole in
        rw cut_step (
          ap (λ (l : List ObjectHead). contents_of (c.init ++ (c.last ∷ [])) ++ l) ih.0
              ∙ sym (contents_of-append (c.init ++ (c.last ∷ [])) c.rest)
              ∙ ap contents_of joined,
          ap (λ (l : List String). prefixes_of (c.init ++ (c.last ∷ [])) ++ l) ih.1
              ∙ sym (prefixes_of-append (c.init ++ (c.last ∷ [])) c.rest)
              ∙ ap (prefixes_of {I = ObjectHead}) joined,
        )

  abbrev above : Entry ObjectHead → Entry ObjectHead → Bool
  above x y = text_ltb x.name y.name

  separate : Pairwise (Separates above) (list_entries scope r)
  separate =
      Pairwise-map (list_entries scope r) (λ x y p. (p, text_ltb_asym x.name y.name p)) ascends

  -- The entries after the last one of a page are those that the page left out.
  after_page :
      (front rest : List (Entry ObjectHead)) (i : ℕ) (c : Cut i rest)
      → list_entries scope r ≡ front ++ rest
      → later (request scope max_keys c.last.name) (list_entries scope r) ≡ c.rest
  unfolding entries_after
  after_page front rest i c split =
      let whole = split ∙ Cut-behind front i rest c in
      let kept = subst (All (λ (e : Entry ObjectHead). e.name ≢ "")) whole names in
      let (_, behind) =
        All-append (λ (e : Entry ObjectHead). e.name ≢ "") (front ++ c.init) (c.last ∷ c.rest)
          kept in
      rw (beq_of_ne c.last.name "" behind.0) (
        subst (λ l. search_from (λ (e : Entry ObjectHead). text_ltb c.last.name e.name) l ≡ c.rest)
          (sym whole)
          (search_after above (front ++ c.init) c.last c.rest
            (subst (Pairwise (Separates above)) whole separate) (text_ltb_irrefl c.last.name)))

  front_longer :
      (front init : List (Entry ObjectHead)) (x : Entry ObjectHead) (xs : List (Entry ObjectHead))
      → (front ++ init) ++ (x ∷ xs) ≡ (front ++ (init ++ (x ∷ []))) ++ xs
  front_longer front init x xs =
      sym (snoc (front ++ init) x xs)
      ∙ ap (λ (l : List (Entry ObjectHead)). l ++ xs) (append_assoc front init (x ∷ []))

  pages_from :
      (fuel i : ℕ) (token : String) (front rest : List (Entry ObjectHead))
      → page_size max_keys ≡ suc i
      → list_entries scope r ≡ front ++ rest
      → later (request scope max_keys token) (list_entries scope r) ≡ rest
      → length rest < fuel
      → ShowsAll (follow_tokens fuel (request scope max_keys token) r) rest
  pages_from zero i token front rest size split at enough = absurd (omega arith)
  pages_from (suc fuel) i token front rest size split at enough =
      elim (Bool-cases (ltb (page_size max_keys) (length rest))) [
        | inr fits ↦ whole_page fuel token rest at fits
        | inl more ↦
            let cut : ltb (suc i) (length rest) ≡ true = rw size at more in
            let c = Cut-at i rest (ground arith) in
            cut_pages fuel i token rest c at size cut (
              pages_from fuel i c.last.name (front ++ (c.init ++ (c.last ∷ []))) c.rest size
                (split ∙ Cut-behind front i rest c ∙ front_longer front c.init c.last c.rest)
                (after_page front rest i c split) (omega (arith, c.shorter)))
      ]

-- A client that starts with no token and follows the tokens, for more pages than there are entries,
-- is shown every object and every common prefix of the listing, each once and in order, whatever the
-- size of a page, if the bucket exists and no object has an empty key.
pub follow_tokens-ShowsAll :
    (scope : Scope) (max_keys fuel : ℕ) (r : Repository)
    → is_empty scope.bucket_id ≡ false
    → has scope.bucket_id r.buckets_by_id ≡ true
    → Unique r.heads
    → HasKeys r
    → length (list_entries scope r) < fuel
    → ShowsAll (follow_tokens fuel (request scope max_keys "") r) (list_entries scope r)
follow_tokens-ShowsAll scope max_keys fuel r named there u keys enough =
    pages_from scope max_keys r named there (list_entries-Ascends scope r u)
      (names_of_keys scope r keys) fuel (page_size max_keys - 1) "" [] (list_entries scope r)
      (page_size_positive max_keys) refl refl enough

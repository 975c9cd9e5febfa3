-- ===== src/Meta/ObjectLock/Refs.antt =====
-- `ListProtectedRefs` of internal/meta/memory/repository.go: the protected references that a request
-- asks for.
use namros.Base.{
  ℕ, ◌+◌, String, ◌≡◌, ◌⊎◌, inl, inr, refl, ap, Bool, false, not, ◌&&◌, ◌||◌, List, [], ◌∷◌, leb,
  is_empty, string_equality, ◌==◌, if◌then◌else◌, Bool-cases, subst,
}
use namros.Base.Maps.{Map}
use namros.Base.Int64.{is_positive}
use namros.Base.Text.{text_ltb}
use namros.Base.Sorting.{All, In, sort_slice, In-sort_slice}
use namros.Meta.Model.Segment.{Time}
use namros.Meta.Model.Lock.{ProtectedRef}
use namros.Meta.ObjectLock.{protected_ref_active}

pub record ListProtectedRefsRequest : Type 0 where
  pub bucket_id : String
  pub key : String
  pub version_id : String
  pub segment_id : String
  pub active_only : Bool
  pub limit : ℕ

-- A field of the request that is given, and that the reference does not have.
abbrev pub differs : String → String → Bool
differs wanted actual = not (is_empty wanted) && not (actual == wanted)

-- none of the tests that `continue`
abbrev pub is_asked_for : ListProtectedRefsRequest → Time → ProtectedRef → Bool
is_asked_for req now ref = not (
    differs req.bucket_id ref.bucket_id
    || (differs req.key ref.key
        || (differs req.version_id ref.version_id
            || (differs req.segment_id ref.segment_id
                || (req.active_only && not (protected_ref_active ref now))))))

-- the loop of `ListProtectedRefs`, after `count` references were taken
collect_refs : ListProtectedRefsRequest → Time → ℕ → ℕ → Map String ProtectedRef → List ProtectedRef
collect_refs req now limit count [] = []
collect_refs req now limit count ((id, ref) ∷ refs) =
    let rest = collect_refs req now limit count refs in
    let more = collect_refs req now limit (count + 1) refs in
    if is_asked_for req now ref then ref ∷ (if leb limit (count + 1) then [] else more) else rest

-- `ListProtectedRefs`
unfoldable pub list_protected_refs :
    Map String ProtectedRef → Time → ListProtectedRefsRequest → List ProtectedRef
unfolding collect_refs
list_protected_refs refs now req =
    sort_slice (λ a b. text_ltb a.ref_id b.ref_id)
      (collect_refs req now (if is_positive req.limit then req.limit else 1000) 0 refs)

-- No reference of the map is asked for.
abbrev pub NoneAskedFor : ListProtectedRefsRequest → Time → Map String ProtectedRef → Type 0
NoneAskedFor req now refs = All (λ entry. is_asked_for req now entry.1 ≡ false) refs

module _ (req : ListProtectedRefsRequest) (now : Time) (limit : ℕ) where
  collect_refs_none :
      (count : ℕ) (refs : Map String ProtectedRef)
      → NoneAskedFor req now refs
      → collect_refs req now limit count refs ≡ []
  unfolding collect_refs
  collect_refs_none count [] h = refl
  collect_refs_none count ((id, ref) ∷ refs) h =
      rw (h.0, collect_refs) (collect_refs_none count refs h.1)

  collect_refs-cases :
      (count : ℕ) (refs : Map String ProtectedRef)
      → NoneAskedFor req now refs
        ⊎ ((ref : ProtectedRef) × In ref (collect_refs req now limit count refs))
  unfolding collect_refs
  collect_refs-cases count [] = inl tt
  collect_refs-cases count ((id, ref) ∷ refs) = elim (Bool-cases (is_asked_for req now ref)) [
    | inl asked ↦ inr (ref, rw (asked, collect_refs) (inl refl))
    | inr skipped ↦ elim (collect_refs-cases count refs) [
      | inl none_asked ↦ inl (skipped, none_asked)
      | inr (r, i) ↦ inr (r, rw (skipped, collect_refs) i)
    ]
  ]

pub list_protected_refs_none :
    (refs : Map String ProtectedRef) (now : Time) (req : ListProtectedRefsRequest)
    → NoneAskedFor req now refs
    → list_protected_refs refs now req ≡ []
unfolding list_protected_refs sort_slice
list_protected_refs_none refs now req h =
    ap (sort_slice (λ a b. text_ltb a.ref_id b.ref_id))
      (collect_refs_none req now (if is_positive req.limit then req.limit else 1000) 0 refs h)

pub none_listed :
    (refs : Map String ProtectedRef) (now : Time) (req : ListProtectedRefsRequest)
    → list_protected_refs refs now req ≡ []
    → NoneAskedFor req now refs
unfolding list_protected_refs
none_listed refs now req h =
    let limit : ℕ = if is_positive req.limit then req.limit else 1000 in
    elim (collect_refs-cases req now limit 0 refs) [
      | inl none_asked ↦ none_asked
      | inr (ref, i) ↦ absurd (
          subst (In ref) h (
            In-sort_slice (λ a b. text_ltb a.ref_id b.ref_id) ref
              (collect_refs req now limit 0 refs) i))
    ]

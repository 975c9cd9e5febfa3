-- ===== src/Meta/Buckets/Names.antt =====
-- The agreement of buckets and their names, and of object lock and versioning
-- (internal/meta/memory/repository.go).
use namros.Base.{
  String, ◌≡◌, ◌≢◌, sym, ap, subst, ◌∙◌, true, none, some, inl, inr, Bool-cases, eq_of_beq,
  ne_of_beq, ◌==◌, string_equality,
}
use namros.Base.Maps.{
  Map, get, put, delete, get-put_self, get-put_ne, get-delete_ne, get-put-cases, get-delete-cases,
}
use namros.Meta.Model.Object.{Bucket}
use namros.Meta.Objects.{is_versioning_enabled}

-- Every bucket is stored under its identifier and named by its name and no other, every name leads to a
-- bucket of that name, and a bucket with object lock keeps versions.
pub record WellNamed (buckets : Map String Bucket) (names : Map String String) : Type 0 where
  pub own : (id : String) (b : Bucket) → get id buckets ≡ some b → b.bucket_id ≡ id
  pub named : (id : String) (b : Bucket) → get id buckets ≡ some b → get b.name names ≡ some id
  pub reached :
      (name id : String)
      → get name names ≡ some id
      → (b : Bucket) × (get id buckets ≡ some b) × (b.name ≡ name)
  pub locked :
      (id : String) (b : Bucket)
      → get id buckets ≡ some b
      → b.object_lock.enabled ≡ true
      → is_versioning_enabled b.versioning_state ≡ true

abbrev id_of : Bucket → String
id_of b = b.bucket_id

abbrev name_of : Bucket → String
name_of b = b.name

abbrev pub IsLockable : Bucket → Type 0
IsLockable b = b.object_lock.enabled ≡ true → is_versioning_enabled b.versioning_state ≡ true

one_bucket :
    (m : Map String Bucket) (i j : String) (b c : Bucket)
    → get i m ≡ some b
    → get j m ≡ some c
    → i ≡ j
    → b ≡ c
one_bucket m i j b c at at' e = cc (at, at', e)

one_value :
    (m : Map String String) (i j x y : String) → get i m ≡ some x → get j m ≡ some y → i ≡ j → x ≡ y
one_value m i j x y at at' e = cc (at, at', e)

-- A key without a value is not one with a value.
free_ne :
    {V : Type 0} (m : Map String V) (i j : String) (v : V)
    → get i m ≡ none
    → get j m ≡ some v
    → i ≢ j
free_ne m i j v free at e = cc (free, at, e)

module _ (buckets : Map String Bucket) (names : Map String String)
    (w : WellNamed buckets names) where
  -- A bucket is written back with its identifier and name.
  pub changed-WellNamed :
      (id : String) (b new : Bucket)
      → get id buckets ≡ some b
      → new.bucket_id ≡ b.bucket_id
      → new.name ≡ b.name
      → (new.object_lock.enabled ≡ true → is_versioning_enabled new.versioning_state ≡ true)
      → WellNamed (put id new buckets) names
  changed-WellNamed id b new there same_id same_name lock = record {
    own = λ j c at. elim (get-put-cases id j new c buckets at) [
      | inl (q, p) ↦ sym (ap id_of p) ∙ same_id ∙ w.own id b there ∙ q
      | inr (other, at') ↦ w.own j c at'
    ];
    named = λ j c at. elim (get-put-cases id j new c buckets at) [
      | inl (q, p) ↦
          ap (λ (n : String). get n names) (sym (ap name_of p) ∙ same_name)
          ∙ w.named id b there
          ∙ ap (λ (x : String). some x) q
      | inr (other, at') ↦ w.named j c at'
    ];
    reached = λ name j at.
        let (c, stored, called) = w.reached name j at in
        elim (Bool-cases (id == j)) [
          | inl hit ↦
              let q = eq_of_beq id j hit in
              (
                new,
                ap (λ (x : String). get x (put id new buckets)) (sym q)
                    ∙ get-put_self id new buckets,
                same_name ∙ ap name_of (one_bucket buckets id j b c there stored q) ∙ called,
              )
          | inr miss ↦ (c, get-put_ne id j new buckets (ne_of_beq id j miss) ∙ stored, called)
        ];
    locked = λ j c at. elim (get-put-cases id j new c buckets at) [
      | inl (q, p) ↦ subst IsLockable p lock
      | inr (other, at') ↦ w.locked j c at'
    ];
  }

  pub created-WellNamed :
      (id : String) (new : Bucket)
      → get id buckets ≡ none
      → get new.name names ≡ none
      → new.bucket_id ≡ id
      → (new.object_lock.enabled ≡ true → is_versioning_enabled new.versioning_state ≡ true)
      → WellNamed (put id new buckets) (put new.name id names)
  created-WellNamed id new fresh free same_id lock = record {
    own = λ j c at. elim (get-put-cases id j new c buckets at) [
      | inl (q, p) ↦ sym (ap id_of p) ∙ same_id ∙ q
      | inr (other, at') ↦ w.own j c at'
    ];
    named = λ j c at. elim (get-put-cases id j new c buckets at) [
      | inl (q, p) ↦
          ap (λ (n : String). get n (put new.name id names)) (sym (ap name_of p))
          ∙ get-put_self new.name id names
          ∙ ap (λ (x : String). some x) q
      | inr (other, at') ↦
          let old = w.named j c at' in
          get-put_ne new.name c.name id names (free_ne names new.name c.name j free old) ∙ old
    ];
    reached = λ name j at. elim (get-put-cases new.name name id j names at) [
      | inl (q, p) ↦ (
        new,
        ap (λ (x : String). get x (put id new buckets)) (sym p) ∙ get-put_self id new buckets,
        q,
      )
      | inr (other, at') ↦
          let (c, stored, called) = w.reached name j at' in
          (c, get-put_ne id j new buckets (free_ne buckets id j c fresh stored) ∙ stored, called)
    ];
    locked = λ j c at. elim (get-put-cases id j new c buckets at) [
      | inl (q, p) ↦ subst IsLockable p lock
      | inr (other, at') ↦ w.locked j c at'
    ];
  }

  pub deleted-WellNamed :
      (id : String) (b : Bucket)
      → get id buckets ≡ some b
      → WellNamed (delete id buckets) (delete b.name names)
  deleted-WellNamed id b there = record {
    own = λ j c at. w.own j c (get-delete-cases id j c buckets at).1;
    named = λ j c at.
        let (other, at') = get-delete-cases id j c buckets at in
        let old = w.named j c at' in
        get-delete_ne b.name c.name names
          (λ e. other (one_value names b.name c.name id j (w.named id b there) old e))
        ∙ old;
    reached = λ name j at.
        let (other, at') = get-delete-cases b.name name j names at in
        let (c, stored, called) = w.reached name j at' in
        (
          c,
          get-delete_ne id j buckets
                (λ q. other (ap name_of (one_bucket buckets id j b c there stored q) ∙ called))
              ∙ stored,
          called,
        );
    locked = λ j c at. w.locked j c (get-delete-cases id j c buckets at).1;
  }

-- ===== src/Gateway/RequestLimiter/Counters.antt =====
-- Counters of the request limiter, and tallies of the requests in flight.
use namros.Base.{
  ℕ, suc, zero, ◌+◌, ◌^◌, ◌≤◌, ◌<◌, String, ◌≡◌, refl, ap, Bool, false, Option, none, some, List,
  [], ◌∷◌, length, get_elem?, arith, Bool-cases, inl, inr, ◌==◌, string_equality, eq_of_beq,
  if◌then◌else◌,
}
use namros.Base.Maps.{Map, put, delete, get-put, get-delete}
use namros.Base.Int64.{add64, sub64}
use namros.Gateway.RequestLimiter.{Held, count, increment, decrement, without}

-- How many of the requests pass the test.
unfoldable pub tally : (Held → Bool) → List Held → ℕ
tally test [] = 0
tally test (h ∷ held) = (if test h then 1 else 0) + tally test held

abbrev pub of_tenant : String → Held → Bool
of_tenant tenant_id h = h.tenant_id == tenant_id

abbrev pub of_class : String → Held → Bool
of_class name h = h.name == name

pub tally-length : (test : Held → Bool) (held : List Held) → tally test held ≤ length held
unfolding tally
tally-length test [] = omega arith
tally-length test (h ∷ held) = ground (arith, tally-length test held)

count-put :
    (k j : String) (v : ℕ) (m : Map String ℕ)
    → count (put k v m) j ≡ (if k == j then v else count m j)
unfolding count
count-put k j v m = elim (Bool-cases (k == j)) [
  | inl here ↦ rw (get-put k j v m, count) (rw here refl)
  | inr other ↦ rw (get-put k j v m, count) (rw other refl)
]

count-delete :
    (k j : String) (m : Map String ℕ) → count (delete k m) j ≡ (if k == j then 0 else count m j)
unfolding count
count-delete k j m = elim (Bool-cases (k == j)) [
  | inl here ↦ rw (get-delete k j m, count) (rw here refl)
  | inr other ↦ rw (get-delete k j m, count) (rw other refl)
]

pub count-increment :
    (k j : String) (m : Map String ℕ)
    → count m k < 2 ^ 63
    → count (increment k m) j ≡ (if k == j then 1 else 0) + count m j
unfolding increment
count-increment k j m few = elim (Bool-cases (k == j)) [
  | inl here ↦
      let same = ap (count m) (eq_of_beq k j here) in
      ground (arith, count-put k j (add64 (count m k) 1) m, here, same)
  | inr other ↦ ground (arith, count-put k j (add64 (count m k) 1) m, other)
]

pub count-decrement :
    (k j : String) (m : Map String ℕ)
    → 0 < count m k
    → count m k < 2 ^ 63
    → count m j ≡ (if k == j then 1 else 0) + count (decrement k m) j
unfolding decrement
count-decrement k j m some_left few = elim (Bool-cases (k == j)) [
  | inl here ↦
      let same = ap (count m) (eq_of_beq k j here) in
      ground (arith, count-put k j (sub64 (count m k) 1) m, count-delete k j m, here, same)
  | inr other ↦ ground (arith, count-put k j (sub64 (count m k) 1) m, count-delete k j m, other)
]

abbrev passes : (Held → Bool) → Option Held → Bool
passes test none = false
passes test (some h) = test h

-- Taking one request out of the list takes it out of the tallies that count it.
pub tally-without :
    (test : Held → Bool) (n : ℕ) (held : List Held) (h : Held)
    → get_elem? held n ≡ some h
    → tally test held ≡ (if test h then 1 else 0) + tally test (without n held)
unfolding tally without
tally-without test n [] h there = absurd (cc there)
tally-without test zero (g ∷ held) h there =
    ap (λ (b : Bool). (if b then 1 else 0) + tally test held) (ap (passes test) there)
tally-without test (suc n) (g ∷ held) h there = omega (arith, tally-without test n held h there)

pub length-without :
    (n : ℕ) (held : List Held) (h : Held)
    → get_elem? held n ≡ some h
    → length held ≡ suc (length (without n held))
unfolding without
length-without n [] h there = absurd (cc there)
length-without zero (g ∷ held) h there = omega arith
length-without (suc n) (g ∷ held) h there = omega (arith, length-without n held h there)

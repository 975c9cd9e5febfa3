-- ===== src/Gateway/DataBudget/Exact.antt =====
-- About what the data budget counts, and its limit of bytes (internal/gateway/data_budget.go).
use namros.Base.{
  ℕ, suc, zero, ◌+◌, ◌^◌, ◌≤◌, ◌<◌, ◌≡◌, refl, Bool, Option, none, some, List, [], ◌∷◌, length,
  get_elem?, arith,
}
use namros.Gateway.DataBudget.{
  Limits, DataBudget, Acquired, refused, reserved, Running, BudgetCall, acquire, finish,
  try_acquire, release, taken, without, finished, apply_call, apply_calls,
}

unfoldable pub total : List ℕ → ℕ
total [] = 0
total (amount ∷ held) = amount + total held

-- The bytes are the sum of the held reservations and within the limit, and the requests are their
-- number.
pub record Exact (limits : Limits) (s : Running) : Type 0 where
  pub bytes : s.budget.bytes ≡ total s.held
  pub within : s.budget.bytes ≤ limits.max_bytes
  pub requests : s.budget.requests ≡ length s.held

-- What a successful acquisition adds.
try_acquire_adds :
    (limits : Limits) (size : ℕ) (known : Bool) (b b' : DataBudget) (amount : ℕ)
    → 0 < limits.max_bytes
    → limits.max_bytes < 2 ^ 64
    → b.bytes ≤ limits.max_bytes
    → suc b.requests < 2 ^ 63
    → try_acquire limits size known b ≡ reserved amount b'
    → (b'.bytes ≡ amount + b.bytes) × (b'.bytes ≤ limits.max_bytes) × (b'.requests ≡ suc b.requests)
unfolding try_acquire
try_acquire_adds limits size known b b' amount positive bounded within few acquired = ground arith

acquired-Exact :
    (limits : Limits) (size : ℕ) (known : Bool) (s : Running) (a : Acquired)
    → 0 < limits.max_bytes
    → limits.max_bytes < 2 ^ 64
    → suc (length s.held) < 2 ^ 63
    → Exact limits s
    → try_acquire limits size known s.budget ≡ a
    → Exact limits (taken a s)
unfolding total
acquired-Exact limits size known s (refused why) positive bounded few x acquired = x
acquired-Exact limits size known s (reserved amount b) positive bounded few x acquired =
    let (bytes, within, requests) =
      try_acquire_adds limits size known s.budget b amount positive bounded x.within
        (omega (arith, x.requests)) acquired in
    record {
      bytes = omega (arith, bytes, x.bytes);
      within = within;
      requests = omega (arith, requests, x.requests);
    }

-- Taking one reservation out of the list takes its amount out of the sum.
total-without :
    (n : ℕ) (held : List ℕ) (amount : ℕ)
    → get_elem? held n ≡ some amount
    → (total held ≡ amount + total (without n held)) × (length held ≡ suc (length (without n held)))
unfolding total without
total-without n [] amount there = absurd (cc there)
total-without zero (a ∷ held) amount there = ground arith
total-without (suc n) (a ∷ held) amount there =
    let (sum, count) = total-without n held amount there in
    (omega (arith, sum), omega (arith, count))

finished-Exact :
    (limits : Limits) (n : ℕ) (s : Running) (o : Option ℕ)
    → limits.max_bytes < 2 ^ 64
    → length s.held < 2 ^ 63
    → Exact limits s
    → get_elem? s.held n ≡ o
    → Exact limits (finished n o s)
unfolding release
finished-Exact limits n s none bounded few x there = x
finished-Exact limits n s (some amount) bounded few x there =
    let (sum, count) = total-without n s.held amount there in
    record {
      bytes = ground (arith, sum, x.bytes, x.within);
      within = ground (arith, sum, x.bytes, x.within);
      requests = ground (arith, count, x.requests);
    }

length-taken : (a : Acquired) (s : Running) → length (taken a s).held ≤ suc (length s.held)
length-taken (refused why) s = omega arith
length-taken (reserved amount b) s = omega arith

length-finished :
    (n : ℕ) (s : Running) (o : Option ℕ)
    → get_elem? s.held n ≡ o
    → length (finished n o s).held ≤ length s.held
length-finished n s none there = omega arith
length-finished n s (some amount) there = omega (arith, (total-without n s.held amount there).1)

-- With a limit of bytes that is positive, and fewer than 2 ^ 63 reservations open and calls to come,
-- any sequence of acquisitions and releases keeps the budget exact: its bytes are the sum of the
-- reservations that are still held and at most the limit, and its requests are their number.
pub data_budget_sums_reservations :
    (limits : Limits) (calls : List BudgetCall) (s : Running)
    → 0 < limits.max_bytes
    → limits.max_bytes < 2 ^ 64
    → length s.held + length calls < 2 ^ 63
    → Exact limits s
    → Exact limits (apply_calls limits calls s)
unfolding apply_calls apply_call
data_budget_sums_reservations limits [] s positive bounded few x = x
data_budget_sums_reservations limits (acquire size known ∷ calls) s positive bounded few x =
    data_budget_sums_reservations limits calls (taken (try_acquire limits size known s.budget) s)
      positive bounded (omega (arith, length-taken (try_acquire limits size known s.budget) s))
      (acquired-Exact limits size known s _ positive bounded (omega arith) x refl)
data_budget_sums_reservations limits (finish n ∷ calls) s positive bounded few x =
    data_budget_sums_reservations limits calls (finished n (get_elem? s.held n) s) positive bounded
      (omega (arith, length-finished n s (get_elem? s.held n) refl))
      (finished-Exact limits n s _ bounded (omega arith) x refl)

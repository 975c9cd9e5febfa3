-- ===== src/Gateway/DataBudget.antt =====
-- The data budget of the gateway (internal/gateway/data_budget.go): `tryAcquire`, the release function
-- that it returns, and `copyDataBudgetBytes`. `newDataBudget` returns nil where no limit is set, and a
-- nil budget admits everything.
pub mod Exact
mod Scenarios
use namros.Base.{
  ℕ, suc, zero, ◌+◌, ◌-◌, ◌*◌, ◌/◌, ◌%◌, Bool, true, false, not, ◌&&◌, ◌||◌, Option, none, some,
  List, [], ◌∷◌, ltb, nat_beq, get_elem?, if◌then◌else◌,
}
use namros.Base.Int64.{add64, sub64, is_positive, signed_ltb, minus_one, word_mod}

-- the limits of `dataBudget`, set once
pub record Limits : Type 0 where
  pub max_bytes : ℕ
  pub max_requests : ℕ
  pub unknown_bytes : ℕ

-- the fields under its mutex
pub record DataBudget : Type 0 where
  pub bytes : ℕ
  pub requests : ℕ

-- the reasons for a refusal
pub data Refusal : Type 0 where
  unknown_size request_limit bytes_limit : Refusal

-- a budget and what it reserved, or the reason
pub data Acquired : Type 0 where
  refused : Refusal → Acquired
  reserved : ℕ → DataBudget → Acquired

-- `maxBudgetReservationBytes`
abbrev pub max_budget_reservation_bytes : ℕ
max_budget_reservation_bytes = word_mod - 1

-- `reservedBytes`
abbrev pub reserved_bytes : Limits → ℕ → Bool → ℕ
reserved_bytes limits size_bytes size_known =
    if size_known then size_bytes else limits.unknown_bytes

abbrev pub over_bytes : Limits → ℕ → DataBudget → Bool
over_bytes limits amount b =
    ltb limits.max_bytes amount
    || (ltb (add64 b.bytes amount) b.bytes || ltb limits.max_bytes (add64 b.bytes amount))

-- `tryAcquire`
unfoldable pub try_acquire : Limits → ℕ → Bool → DataBudget → Acquired
try_acquire limits size_bytes size_known b =
    let amount = reserved_bytes limits size_bytes size_known in
    if not size_known && (ltb 0 limits.max_bytes && nat_beq amount 0)
    then refused unknown_size
    else if is_positive limits.max_requests && signed_ltb limits.max_requests (add64 b.requests 1)
    then refused request_limit
    else if ltb 0 limits.max_bytes && over_bytes limits amount b
    then refused bytes_limit
    else reserved amount (record { bytes = add64 b.bytes amount; requests = add64 b.requests 1 })

-- the function that `tryAcquire` returns, the first time it is called
unfoldable pub release : ℕ → DataBudget → DataBudget
release amount b = record {
  bytes = if ltb b.bytes amount then 0 else sub64 b.bytes amount;
  requests = if is_positive b.requests then sub64 b.requests 1 else b.requests;
}

-- `copyDataBudgetBytes`
unfoldable pub copy_data_budget_bytes : ℕ → ℕ
copy_data_budget_bytes size_bytes =
    if ltb (max_budget_reservation_bytes / 2) size_bytes
    then max_budget_reservation_bytes
    else size_bytes * 2

-- The budget with the reservations whose release function has not been called.
pub record Running : Type 0 where
  pub budget : DataBudget
  pub held : List ℕ

pub data BudgetCall : Type 0 where
  acquire : ℕ → Bool → BudgetCall
  -- the release function of the reservation at this place; one that is gone was called before
  finish : ℕ → BudgetCall

abbrev pub taken : Acquired → Running → Running
taken (refused why) s = s
taken (reserved amount b) s = record { budget = b; held = amount ∷ s.held }

unfoldable pub without : ℕ → List ℕ → List ℕ
without n [] = []
without zero (amount ∷ held) = held
without (suc n) (amount ∷ held) = amount ∷ without n held

abbrev pub finished : ℕ → Option ℕ → Running → Running
finished n none s = s
finished n (some amount) s = record { budget = release amount s.budget; held = without n s.held }

unfoldable pub apply_call : Limits → BudgetCall → Running → Running
unfolding try_acquire
apply_call limits (acquire size_bytes size_known) s =
    taken (try_acquire limits size_bytes size_known s.budget) s
apply_call limits (finish n) s = finished n (get_elem? s.held n) s

unfoldable pub apply_calls : Limits → List BudgetCall → Running → Running
apply_calls limits [] s = s
apply_calls limits (call ∷ calls) s = apply_calls limits calls (apply_call limits call s)

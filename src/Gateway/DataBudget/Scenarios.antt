-- ===== src/Gateway/DataBudget/Scenarios.antt =====
-- A budget of 100 bytes: one request is refused, and a release makes room again.
use namros.Base.{◌≡◌, refl, true, false, List, [], ◌∷◌, arith}
use namros.Gateway.DataBudget.{
  Limits, Running, BudgetCall, acquire, finish, apply_call, apply_calls, try_acquire, release,
  without,
}
use namros.Gateway.DataBudget.Exact.{Exact, total, data_budget_sums_reservations}

abbrev limits : Limits
limits = record { max_bytes = 100; max_requests = 0; unknown_bytes = 10 }

abbrev calls : List BudgetCall
calls = acquire 60 true ∷ acquire 50 true ∷ acquire 0 false ∷ finish 1 ∷ acquire 50 true ∷ []

abbrev idle : Running
idle = record { budget = record { bytes = 0; requests = 0 }; held = [] }

data_budget_sums_reservations_example : Exact limits (apply_calls limits calls idle)
unfolding total
data_budget_sums_reservations_example =
    data_budget_sums_reservations limits calls idle (omega arith) (omega arith) (omega arith)
      (record { bytes = refl; within = omega arith; requests = refl })

second_is_refused : (apply_calls limits calls idle).held ≡ 50 ∷ 10 ∷ []
unfolding apply_calls apply_call try_acquire release without
second_is_refused = refl

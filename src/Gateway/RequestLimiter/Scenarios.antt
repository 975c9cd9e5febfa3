-- ===== src/Gateway/RequestLimiter/Scenarios.antt =====
-- A limiter with room for two requests of a tenant.
use namros.Base.{◌≤◌, refl, List, [], ◌∷◌, arith}
use namros.Base.Maps.{get}
use namros.Gateway.RequestLimiter.{
  RequestLimits, Running, LimiterCall, acquire, finish, count, apply_calls,
}
use namros.Gateway.RequestLimiter.Counters.{tally, of_tenant}
use namros.Gateway.RequestLimiter.Granted.{Tallied}
use namros.Gateway.RequestLimiter.Tally.{limiter_counts_requests, tenant_stays_within_limit}

abbrev limits : RequestLimits
limits = record {
  max_concurrent = 10;
  max_concurrent_per_tenant = 2;
  max_concurrent_reads = 0;
  max_concurrent_writes = 1;
}

abbrev idle : Running
idle = record { limiter = record { in_flight = 0; by_tenant = []; by_class = [] }; held = [] }

abbrev calls : List LimiterCall
calls =
    acquire "t" "read"
    ∷ acquire "t" "write"
    ∷ acquire "t" "read"
    ∷ acquire "" "list"
    ∷ finish 2
    ∷ finish 7
    ∷ acquire "t" "read"
    ∷ []

idle-Tallied : Tallied idle
unfolding tally count get
idle-Tallied = record { all = refl; tenants = λ id named. refl; classes = λ name. refl }

limiter_counts_requests_example : Tallied (apply_calls limits calls idle)
limiter_counts_requests_example =
    limiter_counts_requests limits calls idle (omega arith) idle-Tallied

tenant_stays_within_limit_example :
    tally (of_tenant "t") (apply_calls limits calls idle).held ≤ limits.max_concurrent_per_tenant
unfolding tally
tenant_stays_within_limit_example =
    tenant_stays_within_limit limits calls idle "t" refl (omega arith) (omega arith) (omega arith)
      idle-Tallied (omega arith)

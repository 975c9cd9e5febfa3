-- ===== src/Gateway/RequestLimiter/Tally.antt =====
-- About the counters of the request limiter and the limit of a tenant (internal/gateway/request_limiter.go).
use namros.Base.{
  ℕ, suc, ◌+◌, ◌^◌, ◌≤◌, ◌<◌, String, ◌≡◌, refl, ap, ◌∙◌, Bool, false, Option, none, some, List, [],
  ◌∷◌, length, get_elem?, is_empty, arith, Bool-cases, inl, inr, ◌==◌, string_equality, eq_of_beq,
  beq_refl, beq_of_ne, if◌then◌else◌,
}
use namros.Gateway.RequestLimiter.{
  RequestLimits, RequestLimiter, Acquired, refused, granted, Held, Running, LimiterCall, acquire,
  finish, count, try_acquire, release, taken, without, finished, asking, apply_call, apply_calls,
}
use namros.Gateway.RequestLimiter.Counters.{
  tally, of_tenant, of_class, tally-length, count-decrement, tally-without, length-without,
}
use namros.Gateway.RequestLimiter.Granted.{Tallied, three_tests, admitted, granted-Tallied}

tenant-released :
    (h : Held) (l : RequestLimiter) (held rest : List Held) (tenant_id : String)
    → is_empty tenant_id ≡ false
    → length held < 2 ^ 63
    → ((id : String) → is_empty id ≡ false → count l.by_tenant id ≡ tally (of_tenant id) held)
    → ((test : Held → Bool) → tally test held ≡ (if test h then 1 else 0) + tally test rest)
    → count (release h.tenant_id h.name l).by_tenant tenant_id ≡ tally (of_tenant tenant_id) rest
unfolding release
tenant-released h l held rest tenant_id named few counts splits =
    elim (Bool-cases (is_empty h.tenant_id)) [
      | inl nobody ↦
          let other : (h.tenant_id == tenant_id) ≡ false =
            beq_of_ne h.tenant_id tenant_id
              λ e. cc (ap (λ (x : String). is_empty x) e, nobody, named) in
          rw nobody (ground (arith, counts tenant_id named, splits (of_tenant tenant_id), other))
      | inr somebody ↦
          let mine = counts h.tenant_id somebody in
          let one_of_mine = splits (of_tenant h.tenant_id) in
          let self = beq_refl h.tenant_id in
          let small = tally-length (of_tenant h.tenant_id) held in
          let positive : 0 < count l.by_tenant h.tenant_id =
            ground (arith, mine, one_of_mine, self) in
          let dropped =
            count-decrement h.tenant_id tenant_id l.by_tenant positive
              (omega (arith, small, mine)) in
          rw somebody
            (ground (arith, dropped, counts tenant_id named, splits (of_tenant tenant_id)))
    ]

class-released :
    (h : Held) (l : RequestLimiter) (held rest : List Held) (name : String)
    → length held < 2 ^ 63
    → ((other : String) → count l.by_class other ≡ tally (of_class other) held)
    → ((test : Held → Bool) → tally test held ≡ (if test h then 1 else 0) + tally test rest)
    → count (release h.tenant_id h.name l).by_class name ≡ tally (of_class name) rest
unfolding release
class-released h l held rest name few counts splits =
    let mine = counts h.name in
    let one_of_mine = splits (of_class h.name) in
    let self = beq_refl h.name in
    let small = tally-length (of_class h.name) held in
    let positive : 0 < count l.by_class h.name = ground (arith, mine, one_of_mine, self) in
    let dropped = count-decrement h.name name l.by_class positive (omega (arith, small, mine)) in
    ground (arith, dropped, counts name, splits (of_class name))

finished-Tallied :
    (n : ℕ) (s : Running) (o : Option Held)
    → length s.held < 2 ^ 63
    → Tallied s
    → get_elem? s.held n ≡ o
    → Tallied (finished n o s)
unfolding release
finished-Tallied n s none few t there = t
finished-Tallied n s (some h) few t there =
    let splits = λ (test : Held → Bool). tally-without test n s.held h there in
    record {
      all = ground (arith, t.all, length-without n s.held h there);
      tenants = λ tenant_id named.
          tenant-released h s.limiter s.held (without n s.held) tenant_id named few t.tenants
            splits;
      classes =
          λ name. class-released h s.limiter s.held (without n s.held) name few t.classes splits;
    }

length-taken :
    (h : Held) (a : Acquired) (s : Running) → length (taken h a s).held ≤ suc (length s.held)
length-taken h (refused why) s = omega arith
length-taken h (granted l) s = omega arith

length-finished :
    (n : ℕ) (s : Running) (o : Option Held)
    → get_elem? s.held n ≡ o
    → length (finished n o s).held ≤ length s.held
length-finished n s none there = omega arith
length-finished n s (some h) there = omega (arith, length-without n s.held h there)

-- With fewer than 2 ^ 63 requests in flight and calls to come, any sequence of acquisitions and releases
-- keeps every counter equal to the number of requests that it counts: all, each tenant's, each class's.
pub limiter_counts_requests :
    (limits : RequestLimits) (calls : List LimiterCall) (s : Running)
    → length s.held + length calls < 2 ^ 63
    → Tallied s
    → Tallied (apply_calls limits calls s)
unfolding apply_calls apply_call
limiter_counts_requests limits [] s few t = t
limiter_counts_requests limits (acquire tenant_id name ∷ calls) s few t =
    let h = asking tenant_id name in
    let a = try_acquire limits h.tenant_id h.name s.limiter in
    limiter_counts_requests limits calls (taken h a s) (omega (arith, length-taken h a s))
      (granted-Tallied limits h s a (omega arith) t refl)
limiter_counts_requests limits (finish n ∷ calls) s few t =
    let o = get_elem? s.held n in
    limiter_counts_requests limits calls (finished n o s)
      (omega (arith, length-finished n s o refl)) (finished-Tallied n s o (omega arith) t refl)

-- A request is admitted for a tenant only below the tenant's limit.
taken_within :
    (limits : RequestLimits) (h : Held) (s : Running) (a : Acquired) (tenant_id : String)
    → is_empty tenant_id ≡ false
    → 0 < limits.max_concurrent_per_tenant
    → limits.max_concurrent_per_tenant < 2 ^ 63
    → suc (length s.held) < 2 ^ 63
    → Tallied s
    → try_acquire limits h.tenant_id h.name s.limiter ≡ a
    → tally (of_tenant tenant_id) s.held ≤ limits.max_concurrent_per_tenant
    → tally (of_tenant tenant_id) (taken h a s).held ≤ limits.max_concurrent_per_tenant
unfolding tally try_acquire
taken_within limits h s (refused why) tenant_id named positive bounded few t acquired within =
    within
taken_within limits h s (granted l) tenant_id named positive bounded few t acquired within =
    let tests = three_tests _ _ _ (admitted h s.limiter) l acquired in
    elim (Bool-cases (h.tenant_id == tenant_id)) [
      | inl same ↦
          let e = eq_of_beq h.tenant_id tenant_id same in
          let mine = ap (count s.limiter.by_tenant) e ∙ t.tenants tenant_id named in
          let somebody = ap (λ (x : String). is_empty x) e ∙ named in
          let small = tally-length (of_tenant tenant_id) s.held in
          let room = tests.1 in rw same (ground (arith, room, somebody, mine, small))
      | inr other ↦ rw other (omega arith)
    ]

finished_within :
    (n limit : ℕ) (s : Running) (o : Option Held) (tenant_id : String)
    → get_elem? s.held n ≡ o
    → tally (of_tenant tenant_id) s.held ≤ limit
    → tally (of_tenant tenant_id) (finished n o s).held ≤ limit
finished_within n limit s none tenant_id there within = within
finished_within n limit s (some h) tenant_id there within =
    omega (arith, tally-without (of_tenant tenant_id) n s.held h there)

-- With a positive limit for each tenant, and fewer than 2 ^ 63 requests in flight and calls to come, no
-- sequence of acquisitions and releases brings a tenant above its limit, if the counters were right
-- and the tenant within the limit at the start.
pub tenant_stays_within_limit :
    (limits : RequestLimits) (calls : List LimiterCall) (s : Running) (tenant_id : String)
    → is_empty tenant_id ≡ false
    → 0 < limits.max_concurrent_per_tenant
    → limits.max_concurrent_per_tenant < 2 ^ 63
    → length s.held + length calls < 2 ^ 63
    → Tallied s
    → tally (of_tenant tenant_id) s.held ≤ limits.max_concurrent_per_tenant
    → tally (of_tenant tenant_id) (apply_calls limits calls s).held
      ≤ limits.max_concurrent_per_tenant
unfolding apply_calls apply_call
tenant_stays_within_limit limits [] s tenant_id named positive bounded few t within = within
tenant_stays_within_limit limits (acquire asked name ∷ calls) s tenant_id named positive bounded few
      t within =
    let h = asking asked name in
    let a = try_acquire limits h.tenant_id h.name s.limiter in
    tenant_stays_within_limit limits calls (taken h a s) tenant_id named positive bounded
      (omega (arith, length-taken h a s)) (granted-Tallied limits h s a (omega arith) t refl)
      (taken_within limits h s a tenant_id named positive bounded (omega arith) t refl within)
tenant_stays_within_limit limits (finish n ∷ calls) s tenant_id named positive bounded few t
      within =
    let o = get_elem? s.held n in
    tenant_stays_within_limit limits calls (finished n o s) tenant_id named positive bounded
      (omega (arith, length-finished n s o refl)) (finished-Tallied n s o (omega arith) t refl)
      (finished_within n limits.max_concurrent_per_tenant s o tenant_id refl within)

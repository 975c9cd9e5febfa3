-- ===== src/Gateway/RequestLimiter/Granted.antt =====
-- What a granted request does to the counters of the limiter (internal/gateway/request_limiter.go).
use namros.Base.{
  ℕ, suc, ◌+◌, ◌^◌, ◌<◌, String, ◌≡◌, refl, ap, ◌∙◌, Bool, true, false, List, ◌∷◌, length, is_empty,
  arith, Bool-cases, inl, inr, ◌==◌, string_equality, beq_of_ne, if◌then◌else◌,
}
use namros.Base.Int64.{add64}
use namros.Gateway.RequestLimiter.{
  RequestLimits, RequestLimiter, Acquired, refused, granted, global, tenant, class, Held, Running,
  count, increment, try_acquire, taken,
}
use namros.Gateway.RequestLimiter.Counters.{
  tally, of_tenant, of_class, tally-length, count-increment,
}

-- Each counter is the number of requests in flight that it counts; requests without a tenant are
-- counted for none.
pub record Tallied (s : Running) : Type 0 where
  pub all : s.limiter.in_flight ≡ length s.held
  pub tenants :
      (tenant_id : String)
      → is_empty tenant_id ≡ false
      → count s.limiter.by_tenant tenant_id ≡ tally (of_tenant tenant_id) s.held
  pub classes : (name : String) → count s.limiter.by_class name ≡ tally (of_class name) s.held

pub three_tests :
    (b1 b2 b3 : Bool) (l l' : RequestLimiter)
    → (if b1
        then refused global
        else if b2
        then refused tenant
        else if b3
        then refused class
        else granted l)
      ≡ granted l'
    → (b1 ≡ false) × (b2 ≡ false) × (b3 ≡ false) × (l ≡ l')
three_tests true b2 b3 l l' h = cc h
three_tests false true b3 l l' h = cc h
three_tests false false true l l' h = cc h
three_tests false false false l l' h = (refl, refl, refl, cc h)

-- the limiter that `tryAcquire` leaves when it admits a request
abbrev pub admitted : Held → RequestLimiter → RequestLimiter
admitted h l = record {
  in_flight = add64 l.in_flight 1;
  by_tenant = if is_empty h.tenant_id then l.by_tenant else increment h.tenant_id l.by_tenant;
  by_class = increment h.name l.by_class;
}

granted_limiter :
    (limits : RequestLimits) (h : Held) (l l' : RequestLimiter)
    → try_acquire limits h.tenant_id h.name l ≡ granted l'
    → admitted h l ≡ l'
unfolding try_acquire
granted_limiter limits h l l' acquired = (three_tests _ _ _ (admitted h l) l' acquired).3

tenant-admitted :
    (h : Held) (l : RequestLimiter) (held : List Held) (tenant_id : String)
    → is_empty tenant_id ≡ false
    → length held < 2 ^ 63
    → ((id : String) → is_empty id ≡ false → count l.by_tenant id ≡ tally (of_tenant id) held)
    → count (admitted h l).by_tenant tenant_id ≡ tally (of_tenant tenant_id) (h ∷ held)
unfolding tally
tenant-admitted h l held tenant_id named few counts = elim (Bool-cases (is_empty h.tenant_id)) [
  | inl nobody ↦
      let other : (h.tenant_id == tenant_id) ≡ false =
        beq_of_ne h.tenant_id tenant_id
          λ e. cc (ap (λ (x : String). is_empty x) e, nobody, named) in
      rw nobody (rw other (omega (arith, counts tenant_id named)))
  | inr somebody ↦
      let small = tally-length (of_tenant h.tenant_id) held in
      let mine = counts h.tenant_id somebody in
      rw somebody (
        count-increment h.tenant_id tenant_id l.by_tenant (omega (arith, small, mine))
        ∙ ap (λ (n : ℕ). (if h.tenant_id == tenant_id then 1 else 0) + n) (counts tenant_id named))
]

pub granted-Tallied :
    (limits : RequestLimits) (h : Held) (s : Running) (a : Acquired)
    → suc (length s.held) < 2 ^ 63
    → Tallied s
    → try_acquire limits h.tenant_id h.name s.limiter ≡ a
    → Tallied (taken h a s)
unfolding tally
granted-Tallied limits h s (refused why) few t acquired = t
granted-Tallied limits h s (granted l) few t acquired =
    let l_is = granted_limiter limits h s.limiter l acquired in
    rw (← l_is) record {
      all = omega (arith, t.all);
      tenants = λ tenant_id named.
          tenant-admitted h s.limiter s.held tenant_id named (omega arith) t.tenants;
      classes = λ name.
          count-increment h.name name s.limiter.by_class
            (omega (arith, tally-length (of_class h.name) s.held, t.classes h.name))
          ∙ ap (λ (n : ℕ). (if h.name == name then 1 else 0) + n) (t.classes name);
    }

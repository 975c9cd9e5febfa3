-- ===== src/Gateway/RequestLimiter.antt =====
-- The request limiter of the gateway (internal/gateway/request_limiter.go): `tryAcquire`, `release`,
-- `classLimit` and `normalizeRequestLimitClass`. A nil limiter admits everything.
pub mod Counters
pub mod Granted
pub mod Tally
mod Scenarios
use namros.Base.{
  ℕ, zero, suc, ◌+◌, String, Bool, true, false, not, ◌&&◌, ◌||◌, Option, none, some, List, [], ◌∷◌,
  get_elem?, leb, is_empty, string_equality, ◌==◌, if◌then◌else◌,
}
use namros.Base.Maps.{Map, get, put, delete}
use namros.Base.Int64.{add64, sub64, is_positive, signed_ltb, signed_leb}

-- the limits of `requestLimiter`, set once
pub record RequestLimits : Type 0 where
  pub max_concurrent : ℕ
  pub max_concurrent_per_tenant : ℕ
  pub max_concurrent_reads : ℕ
  pub max_concurrent_writes : ℕ

-- the fields under its mutex
pub record RequestLimiter : Type 0 where
  pub in_flight : ℕ
  pub by_tenant : Map String ℕ
  pub by_class : Map String ℕ

-- the reasons for a refusal
pub data Refusal : Type 0 where
  global tenant class : Refusal

pub data Acquired : Type 0 where
  refused : Refusal → Acquired
  granted : RequestLimiter → Acquired

-- `normalizeRequestLimitClass`
unfoldable pub normalize_request_limit_class : String → String
normalize_request_limit_class name = if name == "read" || name == "write" then name else "other"

-- `classLimit`
unfoldable pub class_limit : RequestLimits → String → ℕ
class_limit limits name =
    if name == "read"
    then limits.max_concurrent_reads
    else if name == "write"
    then limits.max_concurrent_writes
    else 0

abbrev or_zero : Option ℕ → ℕ
or_zero none = 0
or_zero (some n) = n

-- `m[k]`, 0 where there is none
unfoldable pub count : Map String ℕ → String → ℕ
count m k = or_zero (get k m)

-- `limit > 0 && n+1 > limit`
abbrev pub is_full : ℕ → ℕ → Bool
is_full limit n = is_positive limit && signed_ltb limit (add64 n 1)

-- `m[k]++`
unfoldable pub increment : String → Map String ℕ → Map String ℕ
unfolding count
increment k m = put k (add64 (count m k) 1) m

-- `if m[k] <= 1 { delete(m, k) } else { m[k]-- }`
unfoldable pub decrement : String → Map String ℕ → Map String ℕ
unfolding count
decrement k m = if signed_leb (count m k) 1 then delete k m else put k (sub64 (count m k) 1) m

-- `tryAcquire`; `name` is the class after `normalizeRequestLimitClass`
unfoldable pub try_acquire : RequestLimits → String → String → RequestLimiter → Acquired
unfolding count increment class_limit
try_acquire limits tenant_id name l =
    if is_full limits.max_concurrent l.in_flight
    then refused global
    else if not (is_empty tenant_id)
        && is_full limits.max_concurrent_per_tenant (count l.by_tenant tenant_id)
    then refused tenant
    else if is_full (class_limit limits name) (count l.by_class name)
    then refused class
    else granted (record {
      in_flight = add64 l.in_flight 1;
      by_tenant = if is_empty tenant_id then l.by_tenant else increment tenant_id l.by_tenant;
      by_class = increment name l.by_class;
    })

-- `release`
unfoldable pub release : String → String → RequestLimiter → RequestLimiter
unfolding decrement
release tenant_id name l = record {
  in_flight = if is_positive l.in_flight then sub64 l.in_flight 1 else l.in_flight;
  by_tenant = if is_empty tenant_id then l.by_tenant else decrement tenant_id l.by_tenant;
  by_class = decrement name l.by_class;
}

-- A request in flight: its tenant and its class.
pub record Held : Type 0 where
  pub tenant_id : String
  pub name : String

-- The limiter with the requests whose release function has not been called.
pub record Running : Type 0 where
  pub limiter : RequestLimiter
  pub held : List Held

pub data LimiterCall : Type 0 where
  acquire : String → String → LimiterCall
  -- the release function of the request at this place; `once` makes a second call do nothing
  finish : ℕ → LimiterCall

abbrev pub taken : Held → Acquired → Running → Running
taken h (refused why) s = s
taken h (granted l) s = record { limiter = l; held = h ∷ s.held }

unfoldable pub without : ℕ → List Held → List Held
without n [] = []
without zero (h ∷ held) = held
without (suc n) (h ∷ held) = h ∷ without n held

abbrev pub finished : ℕ → Option Held → Running → Running
finished n none s = s
finished n (some h) s = record {
  limiter = release h.tenant_id h.name s.limiter;
  held = without n s.held;
}

-- a request from the tenant, of the class
abbrev pub asking : String → String → Held
asking tenant_id name = record { tenant_id = tenant_id; name = normalize_request_limit_class name }

unfoldable pub apply_call : RequestLimits → LimiterCall → Running → Running
apply_call limits (acquire tenant_id name) s =
    let h = asking tenant_id name in taken h (try_acquire limits h.tenant_id h.name s.limiter) s
apply_call limits (finish n) s = finished n (get_elem? s.held n) s

unfoldable pub apply_calls : RequestLimits → List LimiterCall → Running → Running
apply_calls limits [] s = s
apply_calls limits (call ∷ calls) s = apply_calls limits calls (apply_call limits call s)

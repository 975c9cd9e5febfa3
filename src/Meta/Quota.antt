-- ===== src/Meta/Quota.antt =====
-- Tenant quotas and the count of active multipart uploads: internal/meta/quota.go and the quota
-- methods of internal/meta/memory/repository.go.
pub mod Admission
mod Scenarios
use namros.Base.{
  ℕ, String, Bool, true, not, ◌&&◌, ◌||◌, Option, none, some, nat_beq, is_empty, string_equality,
  ◌==◌, if◌then◌else◌,
}
use namros.Base.Maps.{Map, get, put, delete}
use namros.Base.Int64.{add64, is_negative, is_positive, signed_leb}
use namros.Base.Exec.{
  Result, ok, err, Exec, pure, lift, gets, modify, guard, ◌>>=◌, ◌>>◌, invalid_argument, not_found,
  quota_exceeded,
}
use namros.Meta.Model.Segment.{Time}
use namros.Meta.Model.Operations.{TenantQuota, TenantUsage}
use namros.Meta.Repository.{Repository, Env, has, read_clock}

pub record TenantQuotaRequest : Type 0 where
  pub tenant_id : String
  pub max_bytes : ℕ
  pub max_objects : ℕ
  pub max_active_uploads : ℕ

abbrev pub no_quota : TenantQuota
no_quota = record {
  tenant_id = "";
  max_bytes = 0;
  max_objects = 0;
  max_active_uploads = 0;
  created_at = 0;
  updated_at = 0;
}

abbrev pub no_usage : TenantUsage
no_usage = record {
  tenant_id = "";
  object_bytes = 0;
  object_count = 0;
  active_uploads = 0;
  reconciled_at = 0;
  updated_at = 0;
  created_at = 0;
  reconciliation_id = "";
  reconciliation_err = "";
}

-- `if now.IsZero() { now = time.Now() }`
abbrev pub or_time_now : Env → Time → Time
or_time_now env now = if nat_beq now 0 then env.time_now else now

-- `BuildTenantQuota`
unfoldable pub build_tenant_quota :
    Env → TenantQuota → TenantQuotaRequest → Time → Result TenantQuota
build_tenant_quota env existing req now =
    if is_empty req.tenant_id
    then err invalid_argument
    else if is_negative req.max_bytes
    then err invalid_argument
    else if is_negative req.max_objects
    then err invalid_argument
    else if is_negative req.max_active_uploads
    then err invalid_argument
    else ok (record {
      tenant_id = req.tenant_id;
      max_bytes = req.max_bytes;
      max_objects = req.max_objects;
      max_active_uploads = req.max_active_uploads;
      created_at =
          if nat_beq existing.created_at 0 then or_time_now env now else existing.created_at;
      updated_at = or_time_now env now;
    })

-- `r.tenantUsages[id]`, the zero record where there is none.
unfoldable pub usage_at : String → Repository → TenantUsage
usage_at id r = elim (get id r.tenant_usages) [ none ↦ no_usage | some usage ↦ usage ]

abbrev pub clamped : ℕ → ℕ
clamped n = if is_negative n then 0 else n

-- `ApplyTenantActiveUploadDelta`
unfoldable pub apply_tenant_active_upload_delta :
    Env → TenantUsage → String → ℕ → Time → Result TenantUsage
apply_tenant_active_upload_delta env existing tenant_id delta now =
    if is_empty tenant_id
    then err invalid_argument
    else if not (is_empty existing.tenant_id) && not (existing.tenant_id == tenant_id)
    then err invalid_argument
    else ok (record existing {
      tenant_id = tenant_id;
      active_uploads = clamped (add64 existing.active_uploads delta);
      updated_at = or_time_now env now;
      created_at =
          if nat_beq existing.created_at 0 then or_time_now env now else existing.created_at;
    })

abbrev pub store_usage : String → Result TenantUsage → Repository → Repository
store_usage tenant_id (err e) r = r
store_usage tenant_id (ok usage) r = record r {
  tenant_usages = put tenant_id usage r.tenant_usages;
}

-- `applyTenantActiveUploadDeltaLocked`
unfoldable pub count_active_upload : Env → String → ℕ → Time → Repository → Repository
count_active_upload env tenant_id delta now r =
    if is_empty tenant_id
    then r
    else if not (has tenant_id r.tenants)
    then r
    else store_usage tenant_id
        (apply_tenant_active_upload_delta env (usage_at tenant_id r) tenant_id delta now) r

-- `applyTenantActiveUploadDeltaForBucketLocked`
unfoldable pub count_active_upload_for_bucket : Env → String → ℕ → Time → Repository → Repository
count_active_upload_for_bucket env bucket_id delta now r = elim (get bucket_id r.buckets_by_id) [
  | none ↦ r
  | some bucket ↦ count_active_upload env bucket.tenant_id delta now r
]

-- `checkTenantActiveUploadQuotaLocked`: is there room for one more upload?
abbrev pub within_quota : Option TenantQuota → TenantUsage → Bool
within_quota none usage = true
within_quota (some quota) usage =
    not (is_positive quota.max_active_uploads)
    || not (signed_leb quota.max_active_uploads usage.active_uploads)

unfoldable pub check_tenant_active_upload_quota : String → Repository → Result (Unit {0})
check_tenant_active_upload_quota tenant_id r =
    if is_empty tenant_id
    then ok tt
    else if within_quota (get tenant_id r.tenant_quotas) (usage_at tenant_id r)
    then ok tt
    else err quota_exceeded

-- `PutTenantQuota`
unfoldable pub put_tenant_quota : Env → TenantQuotaRequest → Exec Repository TenantQuota
put_tenant_quota env req = do
  known ← gets (λ r. has req.tenant_id r.tenants)
  guard known not_found
  existing ← gets (λ r. elim (get req.tenant_id r.tenant_quotas) [ none ↦ no_quota | some q ↦ q ])
  now ← read_clock env
  quota ← lift (build_tenant_quota env existing req now)
  modify (λ r. record r { tenant_quotas = put quota.tenant_id quota r.tenant_quotas })
  pure quota

-- `DeleteTenantQuota`
unfoldable pub delete_tenant_quota : String → Exec Repository (Unit {0})
delete_tenant_quota tenant_id = do
  known ← gets (λ r. has tenant_id r.tenants)
  guard known not_found
  present ← gets (λ r. has tenant_id r.tenant_quotas)
  guard present not_found
  modify (λ r. record r { tenant_quotas = delete tenant_id r.tenant_quotas })

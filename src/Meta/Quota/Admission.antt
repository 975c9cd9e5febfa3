-- ===== src/Meta/Quota/Admission.antt =====
-- The quota of active multipart uploads, and the uploads that are admitted (internal/meta/quota.go).
use namros.Base.{
  ◌^◌, ◌<◌, String, ◌≡◌, ◌⊎◌, true, is_empty, string_equality, nat_beq, if◌then◌else◌,
}
use namros.Base.Int64.{add64}
use namros.Meta.Model.Segment.{Time}
use namros.Meta.Model.Operations.{TenantUsage}
use namros.Meta.Repository.{Repository, Env}
use namros.Meta.Quota.{clamped, or_time_now}

-- The usage of a tenant is a count, and the record is the tenant's own.
pub record Counts (tenant_id : String) (usage : TenantUsage) : Type 0 where
  pub own : (is_empty usage.tenant_id ≡ true) ⊎ (usage.tenant_id ≡ tenant_id)
  pub count : usage.active_uploads < 2 ^ 63

-- One more upload for a tenant's own count is one more.
abbrev pub counted : Env → TenantUsage → String → Time → TenantUsage
counted env usage tenant_id now = record usage {
  tenant_id = tenant_id;
  active_uploads = clamped (add64 usage.active_uploads 1);
  updated_at = or_time_now env now;
  created_at = if nat_beq usage.created_at 0 then or_time_now env now else usage.created_at;
}

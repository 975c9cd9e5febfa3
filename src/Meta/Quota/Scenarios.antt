-- ===== src/Meta/Quota/Scenarios.antt =====
-- A tenant with a quota of two uploads and none active.
use namros.Meta.Model.Operations.{TenantQuota}

abbrev two_uploads : TenantQuota
two_uploads = record {
  tenant_id = "t";
  max_bytes = 0;
  max_objects = 0;
  max_active_uploads = 2;
  created_at = 1;
  updated_at = 1;
}

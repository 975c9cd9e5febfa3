-- ===== src/Meta/Model/Operations.antt =====
-- Tenants, quotas, worker leases and controls of internal/meta/model/model.go.
use namros.Base.{ℕ, String}
use namros.Meta.Model.Segment.{Time}

pub record Tenant : Type 0 where
  pub tenant_id : String
  pub display_name : String
  pub created_at : Time

pub record TenantQuota : Type 0 where
  pub tenant_id : String
  pub max_bytes : ℕ
  pub max_objects : ℕ
  pub max_active_uploads : ℕ
  pub created_at : Time
  pub updated_at : Time

pub record TenantUsage : Type 0 where
  pub tenant_id : String
  pub object_bytes : ℕ
  pub object_count : ℕ
  pub active_uploads : ℕ
  pub reconciled_at : Time
  pub updated_at : Time
  pub created_at : Time
  pub reconciliation_id : String
  pub reconciliation_err : String

pub record WorkerLease : Type 0 where
  pub lease_id : String
  pub worker_kind : String
  pub shard_id : String
  pub owner_id : String
  pub generation : ℕ
  pub cursor : String
  pub acquired_at : Time
  pub updated_at : Time
  pub expires_at : Time

pub record DedupeOperationLock : Type 0 where
  pub lock_id : String
  pub owner_id : String
  pub acquired_at : Time
  pub updated_at : Time
  pub expires_at : Time

-- ===== src/Meta/Model/Lifecycle.antt =====
-- Lifecycle configurations of buckets, of internal/meta/model/model.go.
use namros.Base.{ℕ, String, Bool, true, false, List}
use namros.Meta.Model.Segment.{Time}

pub data LifecycleRuleStatus : Type 0 where
  enabled disabled : LifecycleRuleStatus
  other : String → LifecycleRuleStatus

pub record LifecycleExpiration : Type 0 where
  pub days : ℕ
  pub date : Time
  pub expired_object_delete_marker : Bool

-- `NoncurrentVersionExpiration` and `AbortIncompleteMultipartUpload` are structs of one number:
-- `NoncurrentDays` and `DaysAfterInitiation`.
pub record LifecycleRule : Type 0 where
  pub id : String
  pub status : LifecycleRuleStatus
  pub prefix : String
  pub expiration : LifecycleExpiration
  pub noncurrent_days : ℕ
  pub days_after_initiation : ℕ

pub record BucketLifecycleConfiguration : Type 0 where
  pub rules : List LifecycleRule

-- `rule.Status == LifecycleRuleEnabled`
abbrev pub is_enabled : LifecycleRuleStatus → Bool
is_enabled LifecycleRuleStatus.enabled = true
is_enabled _ = false

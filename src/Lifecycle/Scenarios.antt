-- ===== src/Lifecycle/Scenarios.antt =====
-- The planner on a bucket with one rule and one version.
use namros.Base.{◌≡◌, refl, inl, true, false, [], ◌∷◌, arith}
use namros.Base.Sorting.{In, sort_slice}
use namros.Base.TextPrefix.{has_prefix}
use namros.Base.Exec.{ok, err, not_found}
use namros.Meta.Model.Zero.{no_version}
use namros.Meta.Model.Object.{ObjectVersion, ObjectVersionState}
use namros.Meta.Model.Lifecycle.{LifecycleRule, LifecycleRuleStatus}
use namros.Meta.ObjectLock.{object_version_protected_by_object_lock, protected_ref_active}
use namros.Meta.Listing.{ListObjectVersionsResult, ObjectVersionEntry}
use namros.Meta.Samples.{a_hold}
use namros.Lifecycle.{
  Action, ActionKind, ActionStatus, BlockReason, Plan, PlanRepository, PlanRequest, planned,
  build_plan, no_uploads, plan_time, version_action, with_refs,
}
use namros.Lifecycle.Due.{DueDeletion, planned_deletion_is_due}
use namros.Lifecycle.Planned.{due_version_is_planned}

abbrev thirty_days : LifecycleRule
thirty_days = record {
  id = "old";
  status = LifecycleRuleStatus.enabled;
  prefix = "logs/";
  expiration = record { days = 30; date = 0; expired_object_delete_marker = false };
  noncurrent_days = 7;
  days_after_initiation = 0;
}

abbrev a_log : ObjectVersion
a_log = record no_version {
  bucket_id = "b";
  key = "logs/1";
  version_id = "v1";
  state = ObjectVersionState.committed;
  created_at = 5;
  committed_at = 9;
}

abbrev an_entry : ObjectVersionEntry
an_entry = record { version = a_log; is_latest = true }

abbrev a_listing : ListObjectVersionsResult
a_listing = record {
  versions = an_entry ∷ [];
  delete_markers = [];
  common_prefixes = [];
  is_truncated = false;
  next_key_marker = "";
  next_version_id_marker = "";
}

abbrev a_repository : PlanRepository
a_repository = record {
  get_bucket_lifecycle = λ id. ok (record { rules = thirty_days ∷ [] });
  list_object_versions = λ req. ok a_listing;
  list_multipart_uploads = λ req. ok no_uploads;
  list_protected_refs = λ req. err not_found;
}

-- thirty days after the version was committed
abbrev a_request : PlanRequest
a_request = record { bucket_id = "b"; now = 2592000000000009; max_keys = 0; max_uploads = 0 }

abbrev the_action : Action
the_action =
    version_action thirty_days a_log ActionKind.expire_current_object ActionStatus.eligible
      BlockReason.unset

abbrev the_plan : Plan
the_plan = record { bucket_id = "b"; actions = the_action ∷ [] }

plans_after_thirty_days : build_plan (with_refs a_repository [] 0) a_request 0 ≡ planned the_plan
unfolding build_plan has_prefix sort_slice
plans_after_thirty_days = refl

waits_for_thirty_days :
    build_plan (with_refs a_repository [] 0) (record a_request { now = 2592000000000008 }) 0
    ≡ planned (record { bucket_id = "b"; actions = [] })
unfolding build_plan has_prefix sort_slice
waits_for_thirty_days = refl

blocked_by_hold :
    build_plan (with_refs a_repository (("r", a_hold) ∷ []) 0) a_request 0
    ≡ planned (record {
      bucket_id = "b";
      actions =
          version_action thirty_days a_log ActionKind.expire_current_object ActionStatus.blocked
            BlockReason.protected_ref
          ∷ [];
    })
unfolding build_plan protected_ref_active has_prefix sort_slice
blocked_by_hold = refl

planned_deletion_is_due_example :
    DueDeletion a_repository a_request (plan_time a_repository a_request 0) [] 0 the_action
planned_deletion_is_due_example =
    planned_deletion_is_due a_repository [] 0 a_request 0 the_plan the_action
      plans_after_thirty_days (inl refl) refl refl

due_version_is_planned_example :
    (plan : Plan) × (build_plan (with_refs a_repository [] 0) a_request 0 ≡ planned plan)
    × In the_action plan.actions
unfolding object_version_protected_by_object_lock has_prefix
due_version_is_planned_example =
    due_version_is_planned a_repository [] 0 a_request 0 (record { rules = thirty_days ∷ [] })
      a_listing thirty_days an_entry refl refl refl (λ rule. (no_uploads, refl)) (inl refl) refl
      (inl refl) (refl, refl, refl) refl (inl (refl, refl, inl (refl, ground arith))) (refl, tt)

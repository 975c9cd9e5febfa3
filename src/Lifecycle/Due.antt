-- ===== src/Lifecycle/Due.antt =====
-- About the deletions that a whole plan of internal/lifecycle/planner.go contains.
use namros.Base.{
  String, ◌≡◌, ◌≢◌, inl, inr, refl, sym, ap, ◌∙◌, true, false, List, [], ◌∷◌, Bool-cases,
  string_equality,
}
use namros.Base.Maps.{Map}
use namros.Base.Sorting.{In}
use namros.Base.Exec.{Result, ok, err}
use namros.Meta.Model.Segment.{Time}
use namros.Meta.Model.Lock.{ProtectedRef}
use namros.Meta.Model.Object.{ObjectVersion}
use namros.Meta.Model.Lifecycle.{LifecycleRule, BucketLifecycleConfiguration, is_enabled}
use namros.Meta.ObjectLock.Refs.{none_listed}
use namros.Meta.Listing.{ListObjectVersionsResult, ObjectVersionEntry}
use namros.Lifecycle.Expiry.{
  Expired, deletes_version, Unprotected, Unprotected-of, object_version_protected_lem,
}
use namros.Lifecycle.{
  with_refs, Action, ActionKind, ActionStatus, BlockReason, Plan, PlanRequest, PlanRepository,
  planned, build_plan, guarded_version_action, lifecycle_rule_matches, object_version_protected,
  plan_time, refs_of_version, unless_referenced, version_action, versions_request,
}
use namros.Lifecycle.Origins.{expiring_kind, ok_injective, plan_rules-RuleOrigin}
use namros.Lifecycle.Reads.{planned_reads}

blocked_ne : ActionStatus.blocked ≢ ActionStatus.eligible
blocked_ne p = cc p

guarded_locked :
    (repo : PlanRepository) (rule : LifecycleRule) (v : ObjectVersion) (kind : ActionKind)
    (now : Time)
    → object_version_protected v now ≡ true
    → guarded_version_action repo rule v kind now
      ≡ version_action rule v kind ActionStatus.blocked BlockReason.object_lock
unfolding guarded_version_action
guarded_locked repo rule v kind now locked = rw locked refl

pub guarded_free :
    (repo : PlanRepository) (rule : LifecycleRule) (v : ObjectVersion) (kind : ActionKind)
    (now : Time)
    → object_version_protected v now ≡ false
    → guarded_version_action repo rule v kind now
      ≡ unless_referenced rule v kind (repo.list_protected_refs (refs_of_version v))
unfolding guarded_version_action
guarded_free repo rule v kind now free = rw free refl

module _ (repo : PlanRepository) (rule : LifecycleRule) (v : ObjectVersion) (kind : ActionKind)
    (now : Time) (a : Action) (e : a.status ≡ ActionStatus.eligible) where
  unreferenced :
      (refs : Result (List ProtectedRef))
      → unless_referenced rule v kind refs ≡ a
      → (refs ≡ ok []) × (version_action rule v kind ActionStatus.eligible BlockReason.unset ≡ a)
  unreferenced (ok []) h = (refl, h)
  unreferenced (ok (ref ∷ refs)) h = absurd (blocked_ne (ap (λ (x : Action). x.status) h ∙ e))
  unreferenced (err e') h = absurd (blocked_ne (ap (λ (x : Action). x.status) h ∙ e))

  -- An action that is eligible was not blocked.
  eligible_guarded :
      guarded_version_action repo rule v kind now ≡ a
      → (object_version_protected v now ≡ false)
        × (repo.list_protected_refs (refs_of_version v) ≡ ok [])
        × (version_action rule v kind ActionStatus.eligible BlockReason.unset ≡ a)
  unfolding guarded_version_action
  eligible_guarded h = elim (Bool-cases (object_version_protected v now)) [
    | inl locked ↦ absurd (
        blocked_ne (
          ap (λ (x : Action). x.status) (sym (guarded_locked repo rule v kind now locked) ∙ h) ∙ e))
    | inr free ↦
        let (no_refs, same) =
          unreferenced (repo.list_protected_refs (refs_of_version v))
            (sym (guarded_free repo rule v kind now free) ∙ h) in
        (free, no_refs, same)
  ]

-- A deletion that the rules of the bucket and the listing of its versions justify.
pub record DueDeletion (repo : PlanRepository) (req : PlanRequest) (now : Time)
    (refs : Map String ProtectedRef) (ref_now : Time) (a : Action) : Type 0 where
  pub configuration : BucketLifecycleConfiguration
  pub versions : ListObjectVersionsResult
  pub rule : LifecycleRule
  pub entry : ObjectVersionEntry
  pub configured : repo.get_bucket_lifecycle req.bucket_id ≡ ok configuration
  pub listing : repo.list_object_versions (versions_request req) ≡ ok versions
  pub among : In rule configuration.rules
  pub enabled : is_enabled rule.status ≡ true
  pub listed : In entry versions.versions
  pub names :
      (a.bucket_id ≡ entry.version.bucket_id)
      × (a.key ≡ entry.version.key)
      × (a.version_id ≡ entry.version.version_id)
  pub matches : lifecycle_rule_matches rule entry.version.key ≡ true
  pub expired : Expired rule entry now
  pub unprotected : Unprotected entry.version now refs ref_now

module _ (repo : PlanRepository) (refs : Map String ProtectedRef) (ref_now : Time)
    (req : PlanRequest) (time_now : Time) where
  -- An action of a plan that may delete a version names a listed version that an enabled rule of the
  -- bucket with its prefix expires at the time of the plan, that object lock does not protect at that
  -- time, and to which no protected reference of the in-memory repository is active.
  pub planned_deletion_is_due :
      (plan : Plan) (a : Action)
      → build_plan (with_refs repo refs ref_now) req time_now ≡ planned plan
      → In a plan.actions
      → a.status ≡ ActionStatus.eligible
      → deletes_version a.kind ≡ true
      → DueDeletion repo req (plan_time repo req time_now) refs ref_now a
  planned_deletion_is_due plan a h i e kind =
      let reading = with_refs repo refs ref_now in
      let now : Time = plan_time repo req time_now in
      let (configuration, versions, got, listed, actions) =
        planned_reads reading req time_now plan a h i in
      let from =
        plan_rules-RuleOrigin reading req now versions a kind configuration.rules plan.actions
          actions i in
      let o = from.origin in
      let (free, no_refs, same) =
        eligible_guarded reading from.rule o.entry.version (expiring_kind o.entry.is_latest) now a e
          o.guarded in
      record {
        configuration = configuration;
        versions = versions;
        rule = from.rule;
        entry = o.entry;
        configured = got;
        listing = listed;
        among = from.among;
        enabled = from.enabled;
        listed = o.listed;
        names = (
          ap (λ (x : Action). x.bucket_id) (sym same),
          ap (λ (x : Action). x.key) (sym same),
          ap (λ (x : Action). x.version_id) (sym same),
        );
        matches = o.due.0;
        expired = o.due.1;
        unprotected = (
          sym (object_version_protected_lem o.entry.version now) ∙ free,
          Unprotected-of o.entry.version refs ref_now
              (none_listed refs ref_now (refs_of_version o.entry.version) (ok_injective no_refs)),
        );
      }

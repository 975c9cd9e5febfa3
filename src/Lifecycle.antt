-- ===== src/Lifecycle.antt =====
-- The planner of lifecycle rules: internal/lifecycle/planner.go.
pub mod Expiry
pub mod Origins
pub mod Reads
pub mod Due
pub mod Planned
mod Scenarios
mod Types
pub use Types.*
use namros.Base.{
  ℕ, ◌+◌, ◌*◌, String, Bool, true, false, not, ◌&&◌, ◌||◌, List, [], ◌∷◌, ◌++◌, leb, ltb, is_empty,
  if◌then◌else◌,
}
use namros.Base.Int64.{is_positive}
use namros.Base.TextPrefix.{has_prefix}
use namros.Base.Exec.{Err, Result, ok, err, not_found}
use namros.Meta.Model.Segment.{Time}
use namros.Meta.Model.Lock.{ProtectedRef}
use namros.Meta.Model.Object.{ObjectVersion}
use namros.Meta.Model.Multipart.{MultipartUpload}
use namros.Meta.Model.Lifecycle.{LifecycleRule, BucketLifecycleConfiguration, is_enabled}
use namros.Meta.ObjectLock.{is_zero, is_on, is_unset}
use namros.Base.Maps.{Map}
use namros.Meta.ObjectLock.Refs.{ListProtectedRefsRequest, list_protected_refs}
use namros.Meta.Listing.{
  Scope, ListObjectVersionsRequest, ListObjectVersionsResult, ListMultipartUploadsRequest,
  ListMultipartUploadsResult, ObjectVersionEntry,
}

-- The repository with the protected references of the in-memory one, at the reading `now` of its clock.
abbrev pub with_refs : PlanRepository → Map String ProtectedRef → Time → PlanRepository
with_refs repo refs now = record repo {
  list_protected_refs = λ req. ok (list_protected_refs refs now req);
}

abbrev pub nanoseconds_per_day : ℕ
nanoseconds_per_day = 86400000000000

-- `!t.After(now.AddDate(0, 0, -days))`, where days in UTC have 24 hours
abbrev pub has_aged : Time → ℕ → Time → Bool
has_aged t days now = leb (t + days * nanoseconds_per_day) now

-- `versionTime`
abbrev pub version_time : ObjectVersion → Time
version_time version =
    if not (is_zero version.committed_at) then version.committed_at else version.created_at

-- `lifecycleRuleMatches`
abbrev pub lifecycle_rule_matches : LifecycleRule → String → Bool
lifecycle_rule_matches rule key = is_empty rule.prefix || has_prefix key rule.prefix

-- `currentVersionExpired`
unfoldable pub current_version_expired : LifecycleRule → ObjectVersion → Time → Bool
current_version_expired rule version now =
    if rule.expiration.expired_object_delete_marker
    then false
    else if is_positive rule.expiration.days
    then has_aged (version_time version) rule.expiration.days now
    else if not (is_zero rule.expiration.date)
    then not (ltb now rule.expiration.date)
    else false

-- `noncurrentVersionExpired`
unfoldable pub noncurrent_version_expired : LifecycleRule → ObjectVersion → Time → Bool
noncurrent_version_expired rule version now =
    if not (is_positive rule.noncurrent_days)
    then false
    else has_aged (version_time version) rule.noncurrent_days now

-- `objectVersionProtected`
unfoldable pub object_version_protected : ObjectVersion → Time → Bool
object_version_protected version now =
    if version.delete_marker
    then false
    else if is_on version.object_lock_legal_hold
    then true
    else if is_unset version.object_lock_retention.mode
    then false
    else if is_zero version.object_lock_retention.retain_until_date
    then true
    else ltb now version.object_lock_retention.retain_until_date

abbrev pub refs_of_version : ObjectVersion → ListProtectedRefsRequest
refs_of_version version = record {
  bucket_id = version.bucket_id;
  key = version.key;
  version_id = version.version_id;
  segment_id = "";
  active_only = true;
  limit = 1;
}

abbrev pub version_action :
    LifecycleRule → ObjectVersion → ActionKind → ActionStatus → BlockReason → Action
version_action rule version kind status reason = record {
  kind = kind;
  status = status;
  block_reason = reason;
  rule_id = rule.id;
  bucket_id = version.bucket_id;
  key = version.key;
  version_id = version.version_id;
  upload_id = "";
}

-- what `guardedVersionAction` makes of the references that it is given
abbrev pub unless_referenced :
    LifecycleRule → ObjectVersion → ActionKind → Result (List ProtectedRef) → Action
unless_referenced rule version kind (ok []) =
    version_action rule version kind ActionStatus.eligible BlockReason.unset
unless_referenced rule version kind (ok (ref ∷ refs)) =
    version_action rule version kind ActionStatus.blocked BlockReason.protected_ref
unless_referenced rule version kind (err e) =
    version_action rule version kind ActionStatus.blocked BlockReason.protected_ref

module _ (repo : PlanRepository) where
  -- `guardedVersionAction`
  unfoldable pub guarded_version_action : LifecycleRule → ObjectVersion → ActionKind → Time → Action
  unfolding object_version_protected
  guarded_version_action rule version kind now =
      if object_version_protected version now
      then version_action rule version kind ActionStatus.blocked BlockReason.object_lock
      else unless_referenced rule version kind (repo.list_protected_refs (refs_of_version version))

  -- the first loop of `planVersionExpiration`: what it appends to the plan
  unfoldable pub plan_versions : LifecycleRule → Time → List ObjectVersionEntry → List Action
  unfolding guarded_version_action current_version_expired noncurrent_version_expired
  plan_versions rule now [] = []
  plan_versions rule now (entry ∷ entries) =
      let rest = plan_versions rule now entries in
      if not (lifecycle_rule_matches rule entry.version.key)
      then rest
      else if entry.is_latest && current_version_expired rule entry.version now
      then guarded_version_action rule entry.version ActionKind.expire_current_object now ∷ rest
      else if not entry.is_latest && noncurrent_version_expired rule entry.version now
      then guarded_version_action rule entry.version ActionKind.expire_noncurrent_version now ∷ rest
      else rest

-- the second loop of `planVersionExpiration`
unfoldable pub plan_delete_markers : LifecycleRule → List ObjectVersionEntry → List Action
plan_delete_markers rule [] = []
plan_delete_markers rule (entry ∷ entries) =
    let rest = plan_delete_markers rule entries in
    if not entry.is_latest
      || (not (lifecycle_rule_matches rule entry.version.key)
          || not rule.expiration.expired_object_delete_marker)
    then rest
    else version_action rule entry.version ActionKind.expire_delete_marker ActionStatus.eligible
        BlockReason.unset
      ∷ rest

abbrev pub abort_action : LifecycleRule → MultipartUpload → Action
abort_action rule upload = record {
  kind = ActionKind.abort_incomplete_multipart;
  status = ActionStatus.eligible;
  block_reason = BlockReason.unset;
  rule_id = rule.id;
  bucket_id = upload.bucket_id;
  key = upload.key;
  version_id = "";
  upload_id = upload.upload_id;
}

-- `planAbortIncompleteMultipart`
unfoldable pub plan_aborts : LifecycleRule → Time → List MultipartUpload → List Action
plan_aborts rule now [] = []
plan_aborts rule now (upload ∷ uploads) =
    let rest = plan_aborts rule now uploads in
    if not (has_aged upload.created_at rule.days_after_initiation now)
    then rest
    else abort_action rule upload ∷ rest

-- `maxKeys` and `maxUploads`: 1000 where the request has none
abbrev pub or_thousand : ℕ → ℕ
or_thousand n = if is_positive n then n else 1000

abbrev pub versions_request : PlanRequest → ListObjectVersionsRequest
versions_request req = record {
  scope = record { bucket_id = req.bucket_id; prefix = ""; delimiter = "" };
  key_marker = "";
  version_id_marker = "";
  max_keys = or_thousand req.max_keys;
}

abbrev pub uploads_request : PlanRequest → LifecycleRule → ListMultipartUploadsRequest
uploads_request req rule = record {
  scope = record { bucket_id = req.bucket_id; prefix = rule.prefix; delimiter = "" };
  key_marker = "";
  upload_id_marker = "";
  max_uploads = or_thousand req.max_uploads;
}

abbrev pub no_uploads : ListMultipartUploadsResult
no_uploads = record {
  uploads = [];
  common_prefixes = [];
  is_truncated = false;
  next_key_marker = "";
  next_upload_id_marker = "";
}

module _ (repo : PlanRepository) (req : PlanRequest) where
  -- the uploads that a rule is applied to: none where it does not abort uploads
  abbrev pub rule_uploads : LifecycleRule → Result ListMultipartUploadsResult
  rule_uploads rule =
      if is_positive rule.days_after_initiation
      then repo.list_multipart_uploads (uploads_request req rule)
      else ok no_uploads

  -- one turn of the loop over the rules, before the rest of the rules
  abbrev pub with_rule :
      LifecycleRule
      → Time
      → ListObjectVersionsResult
      → Result ListMultipartUploadsResult
      → Result (List Action)
      → Result (List Action)
  with_rule rule now versions (err e) rest = err e
  with_rule rule now versions (ok uploads) (err e) = err e
  with_rule rule now versions (ok uploads) (ok rest) = ok (
      plan_versions repo rule now versions.versions
      ++ (plan_delete_markers rule versions.delete_markers
          ++ (plan_aborts rule now uploads.uploads ++ rest)))

  -- the loop of `BuildPlan` over the rules
  unfoldable pub plan_rules :
      Time → ListObjectVersionsResult → List LifecycleRule → Result (List Action)
  unfolding plan_versions plan_delete_markers plan_aborts
  plan_rules now versions [] = ok []
  plan_rules now versions (rule ∷ rules) =
      let rest = plan_rules now versions rules in
      if not (is_enabled rule.status)
      then rest
      else with_rule rule now versions (rule_uploads rule) rest

  abbrev pub plan_of : Result (List Action) → Planning
  plan_of (ok actions) = planned (record { bucket_id = req.bucket_id; actions = actions })
  plan_of (err e) = failed (metadata e)

  abbrev pub over_versions :
      Time → BucketLifecycleConfiguration → Result ListObjectVersionsResult → Planning
  over_versions now configuration (err e) = failed (metadata e)
  over_versions now configuration (ok versions) =
      plan_of (plan_rules now versions configuration.rules)

  -- `errors.Is(err, meta.ErrNotFound)` gives the empty plan
  abbrev pub without_configuration : Err → Planning
  without_configuration not_found = planned (record { bucket_id = req.bucket_id; actions = [] })
  without_configuration e = failed (metadata e)

  abbrev pub over_configuration : Time → Result BucketLifecycleConfiguration → Planning
  over_configuration now (err e) = without_configuration e
  over_configuration now (ok configuration) =
      over_versions now configuration (repo.list_object_versions (versions_request req))

  -- the time that the plan is for
  abbrev pub plan_time : Time → Time
  plan_time time_now = if is_zero req.now then time_now else req.now

  -- `BuildPlan`, at the reading `time_now` of the system's clock
  unfoldable pub build_plan : Time → Planning
  unfolding plan_rules list_protected_refs
  build_plan time_now =
      if is_empty req.bucket_id
      then failed bucket_id_required
      else over_configuration (plan_time time_now) (repo.get_bucket_lifecycle req.bucket_id)

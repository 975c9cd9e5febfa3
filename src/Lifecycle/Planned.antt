-- ===== src/Lifecycle/Planned.antt =====
-- About the versions that are due, and the plan that `BuildPlan` makes (internal/lifecycle/planner.go).
use namros.Base.{
  String, ◌≡◌, inl, inr, refl, sym, ap, ◌∙◌, subst, true, false, List, [], ◌∷◌, ◌++◌, is_empty,
  Bool-cases, if-cases, string_equality,
}
use namros.Base.Maps.{Map}
use namros.Base.Int64.{is_positive}
use namros.Base.Sorting.{In, In-left, In-right}
use namros.Base.Exec.{Result, ok}
use namros.Meta.Model.Segment.{Time}
use namros.Meta.Model.Lock.{ProtectedRef}
use namros.Meta.Model.Object.{ObjectVersion}
use namros.Meta.Model.Lifecycle.{LifecycleRule, BucketLifecycleConfiguration, is_enabled}
use namros.Meta.ObjectLock.Refs.{list_protected_refs_none}
use namros.Meta.Listing.{ListObjectVersionsResult, ListMultipartUploadsResult, ObjectVersionEntry}
use namros.Lifecycle.Expiry.{Expired, Unprotected, NoneAskedFor-of, object_version_protected_lem}
use namros.Lifecycle.Due.{guarded_free}
use namros.Lifecycle.{
  uploads_request, no_uploads, with_refs, Action, ActionKind, ActionStatus, BlockReason, Plan,
  PlanRequest, PlanRepository, planned, build_plan, guarded_version_action, lifecycle_rule_matches,
  over_versions, plan_aborts, plan_delete_markers, plan_of, plan_rules, plan_time, plan_versions,
  refs_of_version, rule_uploads, unless_referenced, version_action, versions_request, with_rule,
}
use namros.Lifecycle.Reads.{build_plan_over}
use namros.Lifecycle.Origins.{expiring_kind, action_of, Due, plan_versions-cases}

plan_versions-In :
    (repo : PlanRepository) (rule : LifecycleRule) (now : Time) (entry : ObjectVersionEntry)
    → Due rule now entry
    → (entries : List ObjectVersionEntry) → In entry entries
    → In (action_of repo rule now entry) (plan_versions repo rule now entries)
plan_versions-In repo rule now entry due [] i = absurd i
plan_versions-In repo rule now entry due (other ∷ entries) (inl e) =
    plan_versions-cases repo rule now other entries (In (action_of repo rule now entry))
      (λ spared. absurd (spared (subst (Due rule now) (sym e) due)))
      (λ _. inl (ap (action_of repo rule now) e))
plan_versions-In repo rule now entry due (other ∷ entries) (inr i) =
    plan_versions-cases repo rule now other entries (In (action_of repo rule now entry))
      (λ _. plan_versions-In repo rule now entry due entries i)
      (λ _. inr (plan_versions-In repo rule now entry due entries i))

module _ (repo : PlanRepository) (req : PlanRequest) where
  -- The uploads of the bucket can be listed.
  abbrev pub ListsUploads : Type 0
  ListsUploads =
      (rule : LifecycleRule)
      → (uploads : ListMultipartUploadsResult) × (repo.list_multipart_uploads
            (uploads_request req rule)
          ≡ ok uploads)

  rule_uploads_ok :
      ListsUploads
      → (rule : LifecycleRule)
      → (uploads : ListMultipartUploadsResult) × (rule_uploads repo req rule ≡ ok uploads)
  rule_uploads_ok lists rule =
      if-cases
        (λ (r : Result ListMultipartUploadsResult).
          (uploads : ListMultipartUploadsResult) × (r ≡ ok uploads))
        (is_positive rule.days_after_initiation)
        (repo.list_multipart_uploads (uploads_request req rule)) (ok no_uploads) (λ _. lists rule)
        (λ _. (no_uploads, refl))

  -- A list of actions that holds what each enabled rule has planned.
  record Covers (now : Time) (versions : ListObjectVersionsResult) (rules : List LifecycleRule)
      : Type 0 where
    actions : List Action
    made : plan_rules repo req now versions rules ≡ ok actions
    holds :
        (rule : LifecycleRule) (a : Action)
        → In rule rules
        → is_enabled rule.status ≡ true
        → In a (plan_versions repo rule now versions.versions)
        → In a actions

  with_rule-Covers :
      (now : Time) (versions : ListObjectVersionsResult) (rule : LifecycleRule)
      (rules : List LifecycleRule)
      → is_enabled rule.status ≡ true
      → (uploads : ListMultipartUploadsResult) → rule_uploads repo req rule ≡ ok uploads
      → Covers now versions rules
      → Covers now versions (rule ∷ rules)
  unfolding plan_rules
  with_rule-Covers now versions rule rules on uploads listed deeper =
      let first : List Action = plan_versions repo rule now versions.versions in
      let markers : List Action = plan_delete_markers rule versions.delete_markers in
      let aborts : List Action = plan_aborts rule now uploads.uploads in
      record {
        actions = first ++ (markers ++ (aborts ++ deeper.actions));
        made =
            rw (on, plan_rules)
              (ap
                  (λ r.
                    with_rule repo req rule now versions r (plan_rules repo req now versions rules))
                  listed
                ∙ ap (with_rule repo req rule now versions (ok uploads)) deeper.made);
        holds = λ r a i enabled p. elim i [
          | inl e ↦ In-left a first (markers ++ (aborts ++ deeper.actions)) (
              subst (λ (x : LifecycleRule). In a (plan_versions repo x now versions.versions))
                (sym e) p)
          | inr j ↦ In-right a first (markers ++ (aborts ++ deeper.actions)) (
              In-right a markers (aborts ++ deeper.actions)
                (In-right a aborts deeper.actions (deeper.holds r a j enabled p)))
        ];
      }

  plan_rules-Covers :
      (now : Time) (versions : ListObjectVersionsResult)
      → ListsUploads
      → (rules : List LifecycleRule) → Covers now versions rules
  unfolding plan_rules
  plan_rules-Covers now versions lists [] = record {
    actions = [];
    made = refl;
    holds = λ rule a i. absurd i;
  }
  plan_rules-Covers now versions lists (rule ∷ rules) =
      let deeper = plan_rules-Covers now versions lists rules in
      elim (Bool-cases (is_enabled rule.status)) [
        | inr off ↦ record {
          actions = deeper.actions;
          made = rw (off, plan_rules) deeper.made;
          holds = λ r a i on p. elim i [
            | inl e ↦ cc (ap (λ (x : LifecycleRule). is_enabled x.status) e)
            | inr j ↦ deeper.holds r a j on p
          ];
        }
        | inl on ↦
            let (uploads, listed) = rule_uploads_ok lists rule in
            with_rule-Covers now versions rule rules on uploads listed deeper
      ]

  build_plan_reads :
      (time_now : Time) (configuration : BucketLifecycleConfiguration)
      (versions : ListObjectVersionsResult) (actions : List Action)
      → is_empty req.bucket_id ≡ false
      → repo.get_bucket_lifecycle req.bucket_id ≡ ok configuration
      → repo.list_object_versions (versions_request req) ≡ ok versions
      → plan_rules repo req (plan_time repo req time_now) versions configuration.rules ≡ ok actions
      → build_plan repo req time_now
        ≡ planned (record { bucket_id = req.bucket_id; actions = actions })
  build_plan_reads time_now configuration versions actions given got listed made =
      build_plan_over repo req time_now configuration given got
      ∙ ap (over_versions repo req (plan_time repo req time_now) configuration) listed
      ∙ ap (plan_of repo req) made

-- The version has an identifier and stands in a bucket under a key.
abbrev pub Named : ObjectVersion → Type 0
Named v =
    (is_empty v.bucket_id ≡ false) × (is_empty v.key ≡ false) × (is_empty v.version_id ≡ false)

module _ (repo : PlanRepository) (refs : Map String ProtectedRef) (ref_now : Time)
    (req : PlanRequest) (time_now : Time) where
  guarded_eligible :
      (rule : LifecycleRule) (v : ObjectVersion) (kind : ActionKind) (now : Time)
      → Named v
      → Unprotected v now refs ref_now
      → guarded_version_action (with_refs repo refs ref_now) rule v kind now
        ≡ version_action rule v kind ActionStatus.eligible BlockReason.unset
  guarded_eligible rule v kind now named u =
      guarded_free (with_refs repo refs ref_now) rule v kind now
        (object_version_protected_lem v now ∙ u.0)
      ∙ ap (λ found. unless_referenced rule v kind (ok found))
          (list_protected_refs_none refs ref_now (refs_of_version v)
            (NoneAskedFor-of v refs ref_now named.0 named.1 named.2 u.1))

  -- A plan is made, with an action that deletes the version, for every listed version with names that an
  -- enabled rule of the bucket with its prefix expires at the time of the plan, that object lock does not
  -- protect at that time, and to which no protected reference of the in-memory repository is active,
  -- where the configuration, the versions and the uploads of the bucket can be read.
  pub due_version_is_planned :
      (configuration : BucketLifecycleConfiguration) (versions : ListObjectVersionsResult)
      (rule : LifecycleRule) (entry : ObjectVersionEntry)
      → is_empty req.bucket_id ≡ false
      → repo.get_bucket_lifecycle req.bucket_id ≡ ok configuration
      → repo.list_object_versions (versions_request req) ≡ ok versions
      → ListsUploads repo req
      → In rule configuration.rules
      → is_enabled rule.status ≡ true
      → In entry versions.versions
      → Named entry.version
      → lifecycle_rule_matches rule entry.version.key ≡ true
      → Expired rule entry (plan_time repo req time_now)
      → Unprotected entry.version (plan_time repo req time_now) refs ref_now
      → (plan : Plan) × (build_plan (with_refs repo refs ref_now) req time_now ≡ planned plan)
        × In
            (version_action rule entry.version
              (expiring_kind entry.is_latest)
              ActionStatus.eligible
              BlockReason.unset)
            plan.actions
  due_version_is_planned configuration versions rule entry given got listed lists among on i named
        matches due u =
      let reading = with_refs repo refs ref_now in
      let now : Time = plan_time repo req time_now in
      let c = plan_rules-Covers reading req now versions lists configuration.rules in
      (
        record { bucket_id = req.bucket_id; actions = c.actions },
        build_plan_reads reading req time_now configuration versions c.actions given got listed
            c.made,
        subst (λ (a : Action). In a c.actions)
            (guarded_eligible rule entry.version (expiring_kind entry.is_latest) now named u)
            (c.holds rule (action_of reading rule now entry) among on
              (plan_versions-In reading rule now entry (matches, due) versions.versions i)),
      )

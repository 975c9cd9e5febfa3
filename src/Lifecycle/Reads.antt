-- ===== src/Lifecycle/Reads.antt =====
-- What `BuildPlan` reads before it makes a plan.
use namros.Base.{
  ◌≡◌, inl, inr, refl, sym, ap, ◌∙◌, subst, true, false, List, [], is_empty, Bool-cases,
  string_equality,
}
use namros.Base.Sorting.{In}
use namros.Base.Exec.{Err, not_found, Result, ok, err, Result-cases}
use namros.Meta.Model.Segment.{Time}
use namros.Meta.Model.Lifecycle.{BucketLifecycleConfiguration}
use namros.Meta.Listing.{ListObjectVersionsResult}
use namros.Lifecycle.{
  Action, Plan, PlanRequest, PlanRepository, planned, failed, bucket_id_required, build_plan,
  over_versions, plan_of, plan_rules, plan_time, versions_request, without_configuration,
}

planned_injective : {x y : Plan} → planned x ≡ planned y → x ≡ y
planned_injective p = cc p

module _ (repo : PlanRepository) (req : PlanRequest) where
  without_configuration-planned :
      (e : Err) (plan : Plan) → without_configuration repo req e ≡ planned plan → plan.actions ≡ []
  without_configuration-planned not_found plan h =
      ap (λ (p : Plan). p.actions) (sym (planned_injective h))
  without_configuration-planned _ plan h = cc h

  plan_of-planned :
      (actions : Result (List Action)) (plan : Plan)
      → plan_of repo req actions ≡ planned plan
      → actions ≡ ok plan.actions
  plan_of-planned (ok actions) plan h = ap (λ (p : Plan). ok p.actions) (planned_injective h)
  plan_of-planned (err e) plan h = cc h

  build_plan_blank :
      (time_now : Time)
      → is_empty req.bucket_id ≡ true
      → build_plan repo req time_now ≡ failed bucket_id_required
  unfolding build_plan
  build_plan_blank time_now blank = rw (blank, build_plan) refl

  build_plan_unconfigured :
      (time_now : Time) (e : Err)
      → is_empty req.bucket_id ≡ false
      → repo.get_bucket_lifecycle req.bucket_id ≡ err e
      → build_plan repo req time_now ≡ without_configuration repo req e
  unfolding build_plan
  build_plan_unconfigured time_now e given missing = rw (given, build_plan) (rw missing refl)

  pub build_plan_over :
      (time_now : Time) (configuration : BucketLifecycleConfiguration)
      → is_empty req.bucket_id ≡ false
      → repo.get_bucket_lifecycle req.bucket_id ≡ ok configuration
      → build_plan repo req time_now
        ≡ over_versions repo req
            (plan_time repo req time_now)
            configuration
            (repo.list_object_versions (versions_request req))
  unfolding build_plan
  build_plan_over time_now configuration given got = rw (given, build_plan) (rw got refl)

  over_versions-planned :
      (now : Time) (configuration : BucketLifecycleConfiguration)
      (listing : Result ListObjectVersionsResult) (plan : Plan)
      → over_versions repo req now configuration listing ≡ planned plan
      → (versions : ListObjectVersionsResult) × (listing ≡ ok versions)
        × (plan_rules repo req now versions configuration.rules ≡ ok plan.actions)
  over_versions-planned now configuration (err e) plan h = cc h
  over_versions-planned now configuration (ok versions) plan h = (
    versions,
    refl,
    plan_of-planned (plan_rules repo req now versions configuration.rules) plan h,
  )

  -- The reads that a plan with an action was made from.
  pub planned_reads :
      (time_now : Time) (plan : Plan) (a : Action)
      → build_plan repo req time_now ≡ planned plan
      → In a plan.actions
      → (configuration : BucketLifecycleConfiguration) × (versions : ListObjectVersionsResult)
        × (repo.get_bucket_lifecycle req.bucket_id ≡ ok configuration)
        × (repo.list_object_versions (versions_request req) ≡ ok versions)
        × (plan_rules repo req (plan_time repo req time_now) versions configuration.rules
            ≡ ok plan.actions)
  unfolding build_plan
  planned_reads time_now plan a h i = elim (Bool-cases (is_empty req.bucket_id)) [
    | inl blank ↦ cc (sym (build_plan_blank time_now blank) ∙ h)
    | inr given ↦ elim (Result-cases (repo.get_bucket_lifecycle req.bucket_id)) [
      | inl (e, missing) ↦ absurd (
          subst (In a)
            (without_configuration-planned e plan
              (sym (build_plan_unconfigured time_now e given missing) ∙ h))
            i)
      | inr (configuration, got) ↦
          let (versions, listed, actions) =
            over_versions-planned (plan_time repo req time_now) configuration
              (repo.list_object_versions (versions_request req)) plan
              (sym (build_plan_over time_now configuration given got) ∙ h) in
          (configuration, versions, got, listed, actions)
    ]
  ]

-- ===== src/Lifecycle/Origins.antt =====
-- The rule and the entry of the listing behind an action (internal/lifecycle/planner.go).
use namros.Base.{
  ◌≡◌, ◌⊎◌, inl, inr, refl, sym, ap, ◌∙◌, subst, Bool, true, false, not, ◌&&◌, ◌||◌, List, [], ◌∷◌,
  ◌++◌, arith, if◌then◌else◌, Bool-cases, if-cases, string_equality,
}
use namros.Base.Sorting.{In, In-append}
use namros.Base.Exec.{Result, ok, err}
use namros.Meta.Model.Segment.{Time}
use namros.Meta.Model.Multipart.{MultipartUpload}
use namros.Meta.Model.Lifecycle.{LifecycleRule, is_enabled}
use namros.Meta.Listing.{ListObjectVersionsResult, ListMultipartUploadsResult, ObjectVersionEntry}
use namros.Lifecycle.Expiry.{
  Expired, deletes_version, current_version_expired_iff, noncurrent_version_expired_iff,
}
use namros.Lifecycle.{
  abort_action, Action, ActionKind, ActionStatus, BlockReason, PlanRequest, PlanRepository,
  current_version_expired, guarded_version_action, has_aged, lifecycle_rule_matches,
  noncurrent_version_expired, plan_aborts, plan_delete_markers, plan_rules, plan_versions,
  rule_uploads, version_action, with_rule,
}

pub ok_injective : {A : Type 0} {x y : A} → ok x ≡ ok y → x ≡ y
ok_injective p = cc p

-- the kind of action for a version
abbrev pub expiring_kind : Bool → ActionKind
expiring_kind true = ActionKind.expire_current_object
expiring_kind false = ActionKind.expire_noncurrent_version

-- What the planner makes of an entry that a rule expires.
abbrev pub action_of : PlanRepository → LifecycleRule → Time → ObjectVersionEntry → Action
action_of repo rule now entry =
    guarded_version_action repo rule entry.version (expiring_kind entry.is_latest) now

-- The rule has the prefix of the entry's key and expires it.
abbrev pub Due : LifecycleRule → Time → ObjectVersionEntry → Type 0
Due rule now entry = (lifecycle_rule_matches rule entry.version.key ≡ true) × Expired rule entry now

module _ (repo : PlanRepository) (rule : LifecycleRule) (now : Time)
    (entry : ObjectVersionEntry) where
  of_kind :
      (b : Bool)
      → entry.is_latest ≡ b
      → guarded_version_action repo rule entry.version (expiring_kind b) now
        ≡ action_of repo rule now entry
  of_kind b e =
      ap (λ (x : Bool). guarded_version_action repo rule entry.version (expiring_kind x) now)
        (sym e)

  not_due :
      (entry.is_latest && current_version_expired rule entry.version now) ≡ false
      → (not entry.is_latest && noncurrent_version_expired rule entry.version now) ≡ false
      → ¬ Expired rule entry now
  not_due not_latest not_older (inl d) = cc ((current_version_expired_iff rule entry now).1 d)
  not_due not_latest not_older (inr d) = cc ((noncurrent_version_expired_iff rule entry now).1 d)

  -- An entry adds its action to the plan where it is due, and nothing where it is not.
  pub plan_versions-cases :
      (entries : List ObjectVersionEntry) (Q : List Action → Type 0)
      → ((¬ Due rule now entry) → Q (plan_versions repo rule now entries))
      → (Due rule now entry
          → Q (action_of repo rule now entry ∷ plan_versions repo rule now entries))
      → Q (plan_versions repo rule now (entry ∷ entries))
  unfolding plan_versions
  plan_versions-cases entries Q spared due =
      let rest : List Action = plan_versions repo rule now entries in
      let with_kind : (ActionKind → List Action) =
        λ kind. guarded_version_action repo rule entry.version kind now ∷ rest in
      let latest : Bool = entry.is_latest && current_version_expired rule entry.version now in
      let older : Bool = not entry.is_latest && noncurrent_version_expired rule entry.version now in
      let as_older : List Action =
        if older then with_kind ActionKind.expire_noncurrent_version else rest in
      if-cases Q (not (lifecycle_rule_matches rule entry.version.key)) rest
        (if latest then with_kind ActionKind.expire_current_object else as_older)
        (λ misses. spared (λ d. cc (sym (ap not d.0) ∙ misses)))
        (λ matches.
          let hit : (lifecycle_rule_matches rule entry.version.key ≡ true) = ground arith in
          if-cases Q latest (with_kind ActionKind.expire_current_object) as_older
            (λ l.
              let d = (current_version_expired_iff rule entry now).0 l in
              subst (λ (a : Action). Q (a ∷ rest)) (sym (of_kind true d.0)) (due (hit, inl d)))
            (λ not_latest.
              if-cases Q older (with_kind ActionKind.expire_noncurrent_version) rest
                (λ o.
                  let d = (noncurrent_version_expired_iff rule entry now).0 o in
                  subst (λ (a : Action). Q (a ∷ rest)) (sym (of_kind false d.0)) (due (hit, inr d)))
                (λ not_older. spared (λ d. not_due not_latest not_older d.1))))

-- Where an action on a version in a rule's plan comes from.
pub record Origin (repo : PlanRepository) (rule : LifecycleRule) (now : Time)
    (entries : List ObjectVersionEntry) (a : Action) : Type 0 where
  pub entry : ObjectVersionEntry
  pub listed : In entry entries
  pub due : Due rule now entry
  pub guarded : action_of repo rule now entry ≡ a

module _ (repo : PlanRepository) (rule : LifecycleRule) (now : Time) (a : Action) where
  later :
      (entry : ObjectVersionEntry) (entries : List ObjectVersionEntry)
      → Origin repo rule now entries a
      → Origin repo rule now (entry ∷ entries) a
  later entry entries o = record {
    entry = o.entry;
    listed = inr o.listed;
    due = o.due;
    guarded = o.guarded;
  }

  plan_versions-Origin :
      (entries : List ObjectVersionEntry)
      → In a (plan_versions repo rule now entries)
      → Origin repo rule now entries a
  unfolding plan_versions
  plan_versions-Origin [] i = absurd i
  plan_versions-Origin (entry ∷ entries) i =
      plan_versions-cases repo rule now entry entries
        (λ actions. In a actions → Origin repo rule now (entry ∷ entries) a)
        (λ _ j. later entry entries (plan_versions-Origin entries j))
        (λ due j. elim j [
          | inl e ↦ record { entry = entry; listed = inl refl; due = due; guarded = e }
          | inr k ↦ later entry entries (plan_versions-Origin entries k)
        ])
        i

plan_delete_markers-kind :
    (rule : LifecycleRule) (a : Action) (entries : List ObjectVersionEntry)
    → In a (plan_delete_markers rule entries)
    → deletes_version a.kind ≡ false
unfolding plan_delete_markers
plan_delete_markers-kind rule a [] i = absurd i
plan_delete_markers-kind rule a (entry ∷ entries) i =
    (if-cases (λ actions. In a actions → deletes_version a.kind ≡ false)
        (not entry.is_latest
          || (not (lifecycle_rule_matches rule entry.version.key)
              || not rule.expiration.expired_object_delete_marker))
        (plan_delete_markers rule entries)
        (version_action rule entry.version ActionKind.expire_delete_marker ActionStatus.eligible
            BlockReason.unset
          ∷ plan_delete_markers rule entries)
        (λ _ j. plan_delete_markers-kind rule a entries j)
        (λ _ j. elim j [
          | inl e ↦ ap (λ (x : Action). deletes_version x.kind) (sym e)
          | inr k ↦ plan_delete_markers-kind rule a entries k
        ]))
      i

plan_aborts-kind :
    (rule : LifecycleRule) (now : Time) (a : Action) (uploads : List MultipartUpload)
    → In a (plan_aborts rule now uploads)
    → deletes_version a.kind ≡ false
unfolding plan_aborts
plan_aborts-kind rule now a [] i = absurd i
plan_aborts-kind rule now a (upload ∷ uploads) i =
    (if-cases (λ actions. In a actions → deletes_version a.kind ≡ false)
        (not (has_aged upload.created_at rule.days_after_initiation now))
        (plan_aborts rule now uploads) (abort_action rule upload ∷ plan_aborts rule now uploads)
        (λ _ j. plan_aborts-kind rule now a uploads j)
        (λ _ j. elim j [
          | inl e ↦ ap (λ (x : Action). deletes_version x.kind) (sym e)
          | inr k ↦ plan_aborts-kind rule now a uploads k
        ]))
      i

-- The rule of a plan that an action on a version comes from.
pub record RuleOrigin (repo : PlanRepository) (now : Time) (versions : ListObjectVersionsResult)
    (rules : List LifecycleRule) (a : Action) : Type 0 where
  pub rule : LifecycleRule
  pub among : In rule rules
  pub enabled : is_enabled rule.status ≡ true
  pub origin : Origin repo rule now versions.versions a

module _ (repo : PlanRepository) (req : PlanRequest) (now : Time)
    (versions : ListObjectVersionsResult) (a : Action) (kind : deletes_version a.kind ≡ true) where
  in_rule :
      (rule : LifecycleRule) (uploads : List MultipartUpload) (rest : List Action)
      → In a (
          plan_versions repo rule now versions.versions
          ++ (plan_delete_markers rule versions.delete_markers
              ++ (plan_aborts rule now uploads ++ rest)))
      → Origin repo rule now versions.versions a ⊎ In a rest
  in_rule rule uploads rest i =
      elim (In-append a (plan_versions repo rule now versions.versions)
        (plan_delete_markers rule versions.delete_markers ++ (plan_aborts rule now uploads ++ rest))
        i) [
          | inl j ↦ inl (plan_versions-Origin repo rule now a versions.versions j)
          | inr j ↦
              elim (In-append a (plan_delete_markers rule versions.delete_markers)
                (plan_aborts rule now uploads ++ rest) j) [
                  | inl k ↦ cc (plan_delete_markers-kind rule a versions.delete_markers k)
                  | inr k ↦ elim (In-append a (plan_aborts rule now uploads) rest k) [
                    | inl l ↦ cc (plan_aborts-kind rule now a uploads l)
                    | inr l ↦ inr l
                  ]
                ]
        ]

  above :
      (rule : LifecycleRule) (rules : List LifecycleRule)
      → RuleOrigin repo now versions rules a
      → RuleOrigin repo now versions (rule ∷ rules) a
  above rule rules o = record {
    rule = o.rule;
    among = inr o.among;
    enabled = o.enabled;
    origin = o.origin;
  }

  with_rule-RuleOrigin :
      (rule : LifecycleRule) (rules : List LifecycleRule) (on : is_enabled rule.status ≡ true)
      (uploads : Result ListMultipartUploadsResult) (rest : Result (List Action))
      (actions : List Action)
      → with_rule repo req rule now versions uploads rest ≡ ok actions
      → In a actions
      → ((later_actions : List Action)
          → rest ≡ ok later_actions
          → In a later_actions
          → RuleOrigin repo now versions rules a)
      → RuleOrigin repo now versions (rule ∷ rules) a
  with_rule-RuleOrigin rule rules on (err e) rest actions h i deeper = cc h
  with_rule-RuleOrigin rule rules on (ok uploads) (err e) actions h i deeper = cc h
  with_rule-RuleOrigin rule rules on (ok uploads) (ok rest) actions h i deeper =
      elim (in_rule rule uploads.uploads rest (subst (In a) (sym (ok_injective h)) i)) [
        | inl o ↦ record { rule = rule; among = inl refl; enabled = on; origin = o }
        | inr j ↦ above rule rules (deeper rest refl j)
      ]

  pub plan_rules-RuleOrigin :
      (rules : List LifecycleRule) (actions : List Action)
      → plan_rules repo req now versions rules ≡ ok actions
      → In a actions
      → RuleOrigin repo now versions rules a
  unfolding plan_rules
  plan_rules-RuleOrigin [] actions h i = absurd (subst (In a) (sym (ok_injective h)) i)
  plan_rules-RuleOrigin (rule ∷ rules) actions h i = elim (Bool-cases (is_enabled rule.status)) [
    | inr off ↦
        above rule rules
          (plan_rules-RuleOrigin rules actions (sym (rw (off, plan_rules) refl) ∙ h) i)
    | inl on ↦
        with_rule-RuleOrigin rule rules on (rule_uploads repo req rule)
          (plan_rules repo req now versions rules) actions (sym (rw (on, plan_rules) refl) ∙ h) i
          (plan_rules-RuleOrigin rules)
  ]

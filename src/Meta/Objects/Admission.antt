-- ===== src/Meta/Objects/Admission.antt =====
-- The object-lock check of a deletion, and what it leaves in the audit log
-- (internal/meta/memory/repository.go).
use namros.Base.{
  String, ◌≡◌, refl, ◌⊎◌, inl, inr, Bool, true, false, not, ◌||◌, Option, none, some, [], ◌∷◌, ◌++◌,
  arith, if-cases, Bool-cases, ◌==◌, string_equality,
}
use namros.Base.Maps.{get}
use namros.Base.Exec.{Exec, Leaves, ◌>>◌}
use namros.Meta.Model.Segment.{Time}
use namros.Meta.Model.Object.{ObjectVersion, ObjectHead, AuditEvent}
use namros.Meta.ObjectLock.{object_version_protected_by_object_lock, valid_governance_bypass_audit}
use namros.Meta.Repository.{Repository, Env, ObjectKey, VersionKey, object_key_eq, version_key_eq}
use namros.Meta.Objects.{
  DeleteObjectRequest, set_head, append_audit_event, latest_committed_version,
}
use namros.Meta.Objects.Delete.{
  governance_bypass_audit_event, admit_delete, bypass_delete_action, promote, promote_if,
  promote_after,
}

-- The governance bypass let the deletion of the version through, and the audit log says so.
pub record Bypassed (req : DeleteObjectRequest) (id : String) (beyond : Bool) (r r' : Repository)
    : Type 0 where
  pub asked : req.bypass_governance_retention ≡ true
  pub audited : valid_governance_bypass_audit req.bypass_audit ≡ true
  pub within : beyond ≡ false
  pub logged :
      (event : AuditEvent) × (r'.audit_events ≡ r.audit_events ++ (event ∷ []))
      × (event.action ≡ bypass_delete_action)
      × (event.bucket_id ≡ req.bucket_id)
      × (event.key ≡ req.key)
      × (event.version_id ≡ id)
      × (event.principal ≡ req.bypass_audit.principal)

-- What admission leaves when it lets the deletion through.
pub record Admitted (req : DeleteObjectRequest) (id : String) (protected beyond : Bool)
    (r r' : Repository) : Type 0 where
  pub heads : r'.heads ≡ r.heads
  pub versions : r'.versions ≡ r.versions
  pub buckets : r'.buckets_by_id ≡ r.buckets_by_id
  pub bypass : protected ≡ true → Bypassed req id beyond r r'

pub admit_delete_then :
    {B : Type 0} {Q : Repository → Type 0} (env : Env) (req : DeleteObjectRequest)
    (target id : String) (protected beyond : Bool) (n : Exec Repository B) (r : Repository)
    → Q r
    → ((r' : Repository) → Admitted req id protected beyond r r' → Leaves Q n r')
    → Leaves Q (admit_delete env req target id protected beyond >> n) r
unfolding admit_delete governance_bypass_audit_event append_audit_event ◌>>◌
admit_delete_then env req target id false beyond n r stop go = record {
  holds =
      (go r (record { heads = refl; versions = refl; buckets = refl; bypass = λ p. cc p })).holds;
}
admit_delete_then env req target id true beyond n r stop go =
    elim (Bool-cases (
      not (
        beyond
        || (not req.bypass_governance_retention
            || not (valid_governance_bypass_audit req.bypass_audit))))) [
              | inl passed ↦ record {
                holds =
                    rw passed
                      (go _ (record {
                        heads = refl;
                        versions = refl;
                        buckets = refl;
                        bypass = λ _. record {
                          asked = ground arith;
                          audited = ground arith;
                          within = ground arith;
                          logged = (_, refl, refl, refl, refl, refl, refl);
                        };
                      })).holds;
              }
              | inr refused ↦ record { holds = rw refused stop }
            ]

-- The version is still there, or the bypass let the deletion of it through.
abbrev pub Outcome :
    DeleteObjectRequest → VersionKey → ObjectVersion → Time → Repository → Repository → Type 0
Outcome req vk v now r r' =
    (get vk r'.versions ≡ some v)
    ⊎ ((vk.bucket_id ≡ req.bucket_id)
        × (vk.key ≡ req.key)
        × Bypassed req vk.version_id (object_version_protected_by_object_lock v now true) r r')

-- Moving the head changes neither the versions, nor the log, nor the buckets.
abbrev pub Quiet : Repository → Repository → Type 0
Quiet r r' =
    (r'.versions ≡ r.versions)
    × (r'.audit_events ≡ r.audit_events)
    × (r'.buckets_by_id ≡ r.buckets_by_id)

promote-Quiet :
    (k : ObjectKey) (o : Option ObjectVersion) (r : Repository) → Quiet r (promote k o r)
unfolding set_head
promote-Quiet k none r = (refl, refl, refl)
promote-Quiet k (some v) r = (refl, refl, refl)

promote_if-Quiet :
    (k : ObjectKey) (i : String) (o : Option ObjectHead) (r : Repository)
    → Quiet r (promote_if k i o r)
promote_if-Quiet k i none r = (refl, refl, refl)
promote_if-Quiet k i (some head) r =
    if-cases (Quiet r) (head.version_id == i) (promote k (latest_committed_version k r) r) r
      (λ _. promote-Quiet k (latest_committed_version k r) r) (λ _. (refl, refl, refl))

pub promote_after-Quiet :
    (k : ObjectKey) (i : String) (r : Repository) → Quiet r (promote_after k i r)
unfolding promote_after
promote_after-Quiet k i r = promote_if-Quiet k i (get k r.heads) r

-- ===== src/Meta/ObjectLock/Scenarios.antt =====
-- Concrete cases of object lock.
use namros.Base.{◌≡◌, ◌↔◌, ◌⊎◌, refl, true, false, arith, []}
use namros.Meta.Model.Lock.{ObjectLockMode, LegalHold, ObjectLockRetention}
use namros.Meta.Model.Object.{ObjectVersion, ObjectVersionState}
use namros.Meta.ObjectLock.{
  object_lock_protected, object_version_protected_by_object_lock, retention_update_blocked,
  protected_ref_active, protected_ref_from_version,
}
use namros.Meta.ObjectLock.Protection.{
  Retains, object_lock_protected_iff, retention_update_keeps_protection,
  protected_ref_active-protected_ref_from_version,
}
use namros.Meta.Samples.{env, standard, plain, a_segment}

abbrev governed : ObjectLockRetention
governed = record { mode = ObjectLockMode.governance; retain_until_date = 50 }

object_lock_protected_iff_example :
    (object_lock_protected false governed LegalHold.off 10 true ≡ true)
    ↔ ((false ≡ false) × ((LegalHold.off ≡ LegalHold.on) ⊎ Retains governed 10 true))
object_lock_protected_iff_example = object_lock_protected_iff false governed LegalHold.off 10 true

abbrev complied : ObjectLockRetention
complied = record { mode = ObjectLockMode.compliance; retain_until_date = 50 }

abbrev longer : ObjectLockRetention
longer = record { mode = ObjectLockMode.compliance; retain_until_date = 60 }

retention_update_keeps_protection_example :
    object_lock_protected false longer LegalHold.unset 40 true ≡ true
unfolding retention_update_blocked object_lock_protected
retention_update_keeps_protection_example =
    retention_update_keeps_protection complied longer LegalHold.unset 10 40 true refl (omega arith)
      refl

abbrev a_version : ObjectVersion
a_version = record {
  bucket_id = "b";
  key = "k";
  version_id = "v";
  version_sort_key = "v";
  size_bytes = 5;
  etag = "e";
  content_type = "";
  storage_class = standard;
  server_side_encryption = plain;
  segment_ref = a_segment;
  segment_refs = [];
  user_metadata = [];
  tags = [];
  object_lock_retention = governed;
  object_lock_legal_hold = LegalHold.off;
  state = ObjectVersionState.committed;
  created_at = 1;
  committed_at = 2;
  delete_marker = false;
}

protected_ref_active-protected_ref_from_version_example :
    protected_ref_active (protected_ref_from_version env.protected_ref_id a_version a_segment 3) 40
    ≡ object_version_protected_by_object_lock a_version 40 false
protected_ref_active-protected_ref_from_version_example =
    protected_ref_active-protected_ref_from_version env.protected_ref_id a_version a_segment 3 40
      refl

-- ===== src/Meta/Objects/Scenarios.antt =====
-- Concrete runs of object operations.
use namros.Base.{
  arith, String, refl, sym, ap, Bool, Option, true, false, none, some, List, [], ◌∷◌, is_empty,
}
use namros.Base.Maps.{get, put}
use namros.Meta.Model.Lock.{ObjectLockMode, LegalHold, ObjectLockRetention}
use namros.Meta.Model.Object.{ObjectVersion, ObjectVersionState, ObjectHead, AuditContext}
use namros.Meta.ObjectLock.{object_version_protected_by_object_lock}
use namros.Meta.Repository.{Env, Repository, ObjectKey, object_key_eq, version_key_eq}
use namros.Meta.Objects.{
  BeginPutObjectRequest, DeleteObjectRequest, object_key, version_key, head_from_version,
}
use namros.Meta.Objects.Delete.{delete_object}
use namros.Meta.Objects.Put.{new_version}
use namros.Meta.Objects.Heads.{
  Named, WellHeaded, AllNamed, put-AllNamed, Untouched-put, WellHeaded-put,
}
use namros.Meta.Objects.Ready.{HeadsAgree, DrawsNames, no_change}
use namros.Meta.Objects.Calls.{
  ObjectCall, begin, commit, put_version, delete_one, apply_calls, object_calls_keep_heads,
}
use namros.Meta.Objects.Admission.{Outcome}
use namros.Meta.Objects.Worm.{Kept, Stored}
use namros.Meta.Objects.WormCalls.{compliance_version_stays}
use namros.Meta.Objects.Retained.{delete_object_keeps_protected}
use namros.Meta.Samples.{env, a_segment, standard, plain, root, a_repository}

abbrev governed : ObjectLockRetention
governed = record { mode = ObjectLockMode.governance; retain_until_date = 1000 }

abbrev asked : BeginPutObjectRequest
asked = record {
  bucket_id = "b";
  key = "k";
  size_bytes = 5;
  etag = "e";
  content_type = "";
  storage_class = standard;
  server_side_encryption = plain;
  segment_ref = a_segment;
  segment_refs = [];
  user_metadata = [];
  tags = [];
  object_lock_retention = governed;
  object_lock_legal_hold = LegalHold.unset;
}

abbrev nobody : AuditContext
nobody = record { request_id = ""; reason = ""; principal = root }

abbrev removal : DeleteObjectRequest
removal = record {
  bucket_id = "b";
  key = "k";
  version_id = "v";
  bypass_governance_retention = true;
  bypass_audit = nobody;
}

abbrev calls : List ObjectCall
calls =
    begin asked
    ∷ commit
        (record { bucket_id = "b"; key = "k"; version_id = "id"; expected_head_version_id = "" })
    ∷ put_version asked
    ∷ delete_one removal
    ∷ []

abbrev unnamed : Option String → Bool
unnamed none = false
unnamed (some id) = is_empty id

env-DrawsNames : DrawsNames env
env-DrawsNames n id drawn = ap unnamed (sym drawn)

nothing-AllNamed : AllNamed []
unfolding get
nothing-AllNamed = record { unique = tt; each = λ vk v there. cc there }

nothing-HeadsAgree : WellHeaded [] []
unfolding get
nothing-HeadsAgree = record { named = nothing-AllNamed; backed = λ k head there. cc there }

object_calls_keep_heads_example : HeadsAgree (apply_calls env (λ t. "") calls a_repository)
object_calls_keep_heads_example =
    object_calls_keep_heads env (λ t. "") calls a_repository env-DrawsNames nothing-HeadsAgree

abbrev the_object : ObjectKey
the_object = object_key "b" "k"

abbrev the_version : ObjectVersion
the_version = new_version asked (a_segment ∷ []) "v" ObjectVersionState.committed 1 1

abbrev the_head : ObjectHead
the_head = record (head_from_version the_version 1) { revision = 1 }

abbrev one_object : Repository
one_object = record a_repository {
  heads = put the_object the_head [];
  versions = put (version_key the_object "v") the_version [];
}

named : Named (version_key the_object "v") the_version
unfolding new_version
named = record { bucket_id = refl; key = refl; version_id = refl; id = refl }

one_object-HeadsAgree : HeadsAgree one_object
unfolding get put new_version head_from_version
one_object-HeadsAgree =
    WellHeaded-put [] [] (put (version_key the_object "v") the_version []) the_object
      nothing-HeadsAgree (Untouched-put the_object "v" the_version [] [] (no_change the_object []))
      (put-AllNamed (version_key the_object "v") the_version [] nothing-AllNamed named) the_head
      (the_version, refl, refl, refl)

delete_object_keeps_protected_example :
    Outcome removal
      (version_key the_object "v")
      the_version
      100
      one_object
      (delete_object env removal one_object).1
unfolding get put new_version object_version_protected_by_object_lock
delete_object_keeps_protected_example =
    delete_object_keeps_protected env removal one_object (version_key the_object "v") the_version
      one_object-HeadsAgree refl refl

abbrev sealed : ObjectVersion
sealed = record the_version {
  object_lock_retention = record { mode = ObjectLockMode.compliance; retain_until_date = 1000 };
}

abbrev sealed_object : Repository
sealed_object = record a_repository {
  heads = put the_object (record (head_from_version sealed 1) { revision = 1 }) [];
  versions = put (version_key the_object "v") sealed [];
}

-- a clock that stands at 100
abbrev stopped : Env
stopped = record env { now = λ n. 100 }

sealed_object-HeadsAgree : HeadsAgree sealed_object
unfolding get put new_version head_from_version
sealed_object-HeadsAgree =
    WellHeaded-put [] [] (put (version_key the_object "v") sealed []) the_object nothing-HeadsAgree
      (Untouched-put the_object "v" sealed [] [] (no_change the_object []))
      (put-AllNamed (version_key the_object "v") sealed [] nothing-AllNamed
        (record { bucket_id = refl; key = refl; version_id = refl; id = refl }))
      _ (sealed, refl, refl, refl)

sealed-Kept : Kept 900 sealed sealed
unfolding new_version
sealed-Kept = record {
  committed = refl;
  marker = refl;
  mode = refl;
  until = omega arith;
  size = refl;
  etag = refl;
  segment_ref = refl;
  segment_refs = refl;
}

compliance_version_stays_example :
    Stored 900
      (version_key the_object "v")
      sealed
      (apply_calls stopped (λ t. "") calls sealed_object).versions
unfolding get put new_version
compliance_version_stays_example =
    compliance_version_stays 900 (version_key the_object "v") sealed stopped (λ t. "") calls
      sealed_object (λ n id drawn. ap unnamed (sym drawn)) (λ n. omega arith)
      sealed_object-HeadsAgree refl (sealed, refl, sealed-Kept)

-- ===== src/Meta/Objects/Writes.antt =====
-- Writes of objects, and the agreement of heads and versions
-- (internal/meta/memory/repository.go).
use namros.Base.{String, ◌≡◌, refl, inl, inr, true, some, arith, Bool-cases, string_equality}
use namros.Base.Maps.{Map, get, get-put_self}
use namros.Base.Exec.{
  Leaves, guard_then, lift_then, lift_then_, gets_then, modify_then, pure_then, then_pure,
}
use namros.Meta.Model.Object.{BucketVersioningState, ObjectVersion, ObjectHead}
use namros.Meta.Repository.{
  Repository, Env, ObjectKey, VersionKey, object_key_eq, version_key_eq, read_clock_then,
  draw_id_then,
}
use namros.Meta.Objects.{
  BeginPutObjectRequest, CommitObjectVersionRequest, object_key, version_key, head_at,
  store_version, is_committed,
}
use namros.Meta.Objects.Put.{
  new_version, commit_object_version, put_object_version, commit_found, drop_replaced,
}
use namros.Meta.Objects.Heads.{Named, WellHeaded, AllNamed, Untouched, put-AllNamed, Untouched-put}
use namros.Meta.Objects.Ready.{
  HeadsAgree, DrawsNames, no_change, Ready, publish-HeadsAgree, drop_replaced-cases,
  drop_replaced-Untouched, drop_replaced-Ready,
}

-- Storing a committed version where others may have been dropped.
stored-Ready :
    (m : Map VersionKey ObjectVersion) (k : ObjectKey) (v : ObjectVersion)
    (versioning : BucketVersioningState) (head : ObjectHead) (r : Repository)
    → WellHeaded r.heads m
    → Untouched k m r.versions
    → AllNamed r.versions
    → Named (version_key k v.version_id) v
    → is_committed v.state ≡ true
    → Ready m k v (
        store_version
          (version_key k v.version_id)
          v
          (drop_replaced k versioning head v.version_id r))
stored-Ready m k v versioning head r w same named new committed =
    let r' = drop_replaced k versioning head v.version_id r in
    let (heads, versions) = drop_replaced-cases k versioning head v.version_id r in
    let (same', named') = drop_replaced-Untouched m k versioning head v.version_id r same named in
    record {
      agreed = rw heads w;
      untouched = Untouched-put k v.version_id v m r'.versions same';
      named = put-AllNamed (version_key k v.version_id) v r'.versions named' new;
      there = get-put_self (version_key k v.version_id) v r'.versions;
      committed = committed;
    }

pub put_object_version-HeadsAgree :
    (env : Env) (req : BeginPutObjectRequest) (r : Repository)
    → DrawsNames env
    → HeadsAgree r
    → Leaves HeadsAgree (put_object_version env req) r
unfolding put_object_version new_version
put_object_version-HeadsAgree env req r names w =
    let k = object_key req.bucket_id req.key in
    guard_then _ w λ _. lift_then_ w λ _ _. lift_then_ w λ _ _. gets_then _ _ (
      lift_then w λ bucket _. gets_then _ _ (
        read_clock_then env _ (
          draw_id_then env _ _ _ _ (λ d. w)
            λ id d d' fresh drawn. lift_then_ w λ _ _. modify_then _ (
              modify_then _ (
                then_pure _ _ (
                  publish-HeadsAgree env r.versions k _ (env.now r.clock_reads) _ (
                    stored-Ready r.versions k _ bucket.versioning_state (head_at k r) _ w
                      (no_change k r.versions) w.named
                      (record {
                        bucket_id = refl;
                        key = refl;
                        version_id = refl;
                        id = names d' id drawn;
                      })
                      refl)))))))

commit_found-HeadsAgree :
    (env : Env) (k : ObjectKey) (versioning : BucketVersioningState) (head : ObjectHead)
    (id : String) (v : ObjectVersion) (r : Repository)
    → HeadsAgree r
    → get (version_key k id) r.versions ≡ some v
    → Leaves HeadsAgree (commit_found env k versioning head id v) r
commit_found-HeadsAgree env k versioning head id v r w there =
    elim (Bool-cases (is_committed v.state)) [
      | inl done ↦ rw done (pure_then _ w)
      | inr pending ↦
          let new = w.named.each (version_key k id) v there in
          rw pending (
            read_clock_then env _ (
              modify_then _ (
                modify_then _ (
                  publish-HeadsAgree env r.versions k _ (env.now r.clock_reads) _ (
                    drop_replaced-Ready r.versions k _ versioning head _ record {
                      agreed = w;
                      untouched =
                          Untouched-put k id _ r.versions r.versions (no_change k r.versions);
                      named = put-AllNamed (version_key k id) _ r.versions w.named record {
                        bucket_id = new.bucket_id;
                        key = new.key;
                        version_id = new.version_id;
                        id = new.id;
                      };
                      there = rw new.version_id (get-put_self (version_key k id) _ r.versions);
                      committed = refl;
                    })))))
    ]

pub commit_object_version-HeadsAgree :
    (env : Env) (req : CommitObjectVersionRequest) (r : Repository)
    → HeadsAgree r
    → Leaves HeadsAgree (commit_object_version env req) r
unfolding commit_object_version
commit_object_version-HeadsAgree env req r w = guard_then _ w λ _. gets_then _ _ (
    gets_then _ _ (
      guard_then _ w λ _. gets_then _ _ (
        lift_then w λ v there.
          commit_found-HeadsAgree env (object_key req.bucket_id req.key) _ _ req.version_id v r w
            (ground arith))))

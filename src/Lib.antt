-- ===== src/Lib.antt =====
-- A verification library for namros, an S3-compatible object store. It models the metadata authority
-- (internal/meta), in the form of its in-memory repository (internal/meta/memory/repository.go), which
-- the other repositories are tested against, and the admission of requests by the gateway
-- (internal/gateway), the decisions about what a caller may do (internal/auth), and
-- the planner of lifecycle rules (internal/lifecycle) and the worker of garbage collection (internal/gc).
--
-- How the program works. The gateway admits a request, stores segments of data in a segment store, and
-- then calls the metadata repository, which decides what the object is: it keeps heads (the current
-- version of each key), versions, multipart uploads and their parts, quotas, leases of background
-- workers, an audit log, and the references that keep garbage collection away from locked segments.
--
-- Which file models what:
--   Base holds what the modules share: tests and comparisons, Go's maps as association lists
--     (Base.Maps), 64-bit words (Base.Int64), strings (Base.Text, TextOrder, TextPrefix, Bytes),
--     `sort.Slice` and `sort.Search` (Base.Sorting, Base.Searching), and methods that read and write a
--     state and may fail (Base.Exec).
--   Meta.Model: the records of internal/meta/model/model.go and internal/storage/storage.go.
--   Meta.Repository: the maps and counters of `Repository` that the operations below use, its
--     clock, and the loop that draws identifiers.
--   Meta.Buckets: creation, versioning, object lock and deletion of buckets; Names and Calls are
--     about the agreement of buckets and their names.
--   Meta.Listing: `ListObjects`, and `ListObjectVersions` (Versions) and `ListMultipartUploads` (Uploads).
--     Prefixes, Gather and Distinct are about the entries, Pages about cutting and searching, Objects,
--     Following and Tokens about `ListObjects`.
--   Meta.Keyspace: internal/meta/keyspace/keyspace.go, on bytes: escaping (Escape) and the keys (Keys).
--   Meta.ObjectLock: the rules of retention, legal hold and protected references.
--   Meta.Objects: `BeginPutObject`, `CommitObjectVersion`, `PutObjectVersion` (Put),
--     `DeleteObject` (Delete), tags (Tags), retention and legal hold (Lock). Heads, Ready,
--     Writes, Promotion, Deletes, Changes, Holds and Calls are about the agreement of heads and versions;
--     Admission, Retained and Buckets are about deletion under object lock; Worm, WormChanges and
--     WormCalls are about compliance retention.
--   Meta.Multipart: `CreateMultipartUpload` and the lookups, the parts (Parts), completion
--     records (Completion), completion, abort and cleanup (Lifecycle). Step is the step relation
--     that every call follows (Ends, Calls); Outcome, Weight, Summing and Counting are its invariants.
--   Meta.Worker: leases of internal/meta/worker.go with `AcquireWorkerLease` and
--     `ReleaseWorkerLease`.
--   Meta.Quota: tenant quotas and the count of active uploads (internal/meta/quota.go).
--   Auth.Principal, Auth.Policy: internal/auth/auth.go and internal/auth/policy.go. What the JSON decoder
--     finds in a field is the type `RawValue`; Unicode's tables for letter case are the record
--     `CaseTables`.
--   Lifecycle: internal/lifecycle/planner.go, over the record `PlanRepository` of the reads that the
--     planner makes, with `ListProtectedRefs` of the in-memory repository (Meta.ObjectLock.Refs). Expiry
--     says when a version is due, Origins and Reads where an action comes from, Due and Planned
--     are about whole plans.
--   Gc: `Worker.RunOnce` of internal/gc/worker.go over the record `Worker` of the interfaces that it is
--     given, and `admitProtectedRefSegmentDelete` of internal/gateway/gc.go. Counts is about the record of a
--     run, Admitted about what it deletes. Times, metrics and error messages are left out.
--   Gateway.DataBudget: internal/gateway/data_budget.go.
--   Gateway.RequestLimiter: internal/gateway/request_limiter.go; Granted and Tally are about its counters.
-- Modules named Types hold the records and data types of their parent.
-- Scenarios modules run the definitions on concrete states; Meta.Samples is such a state.
--
-- How it corresponds to the code. A method that holds the repository's mutex is one function from the
-- state to a result and a state; what it wrote before an error stays written. The interleavings of
-- concurrent callers are sequences of such calls (`apply_calls`). A function of the model has the name
-- of the Go function in this library's spelling, and a comment above it gives the Go name. A
-- `time.Time` is a number of nanoseconds, 0 for the zero time; the conversion to UTC changes nothing,
-- and `now.Add(ttl)` does not overflow. `int`, `int64` and `uint64` are patterns below 2 ^ 64 with
-- wrap-around written out. Values are copied by assignment, so the `clone` functions are identities.
-- Strings are compared by code points, as UTF-8 bytes are. Error messages and contexts are left out;
-- the sentinels of internal/meta/errors.go are kept.
--
-- The planner's reads are taken to answer the same while one plan is made, and `now.AddDate(0, 0, -n)` to
-- be `n` times 24 hours earlier, whatever `n` is; both sides are moved so that no subtraction is needed.
--
-- What stands outside is the record `Env` of Meta.Repository: the readings of the clock, the
-- identifiers drawn (an interface that internal/meta/id implements), digests, and
-- `ValidateObjectVersionScale`, which measures an encoding in JSON. No law is assumed of them, except
-- where a theorem asks that no empty identifier is drawn.
--
-- Bounds: the retry loop over identifiers is recursion on the attempts left, 8 as in the code; a
-- binary search has a round for each entry, which is enough since a round halves the range; every other
-- loop is a recursion on a list. `follow_tokens`, a client of the listing, takes the number of pages
-- that it asks for at most.
--
-- Not modelled: the key-value, TiKV and Pebble repositories, the segment stores, HTTP handlers,
-- signatures, the workers that carry out lifecycle plans, the schedulers, and the operations tools; the
-- other documents of buckets, and the administration of tenants.
pub mod Base
pub mod Auth
pub mod Gateway
pub mod Gc
pub mod Lifecycle
pub mod Meta

-- ===== src/Meta/Model.antt =====
-- The records of internal/meta/model/model.go and internal/storage/storage.go that the metadata
-- repository keeps. A `time.Time` is its number of nanoseconds, and 0 is the zero time. An `int64`
-- or `int` is its 64-bit pattern. A Go type that is a string with named constants is a data type
-- with a constructor for each constant and `other` for the rest.
pub mod Segment
pub mod Lock
pub mod Object
pub mod Multipart
pub mod Operations
pub mod Lifecycle
pub mod Zero

-- ===== src/Store.antt =====
-- The sharded key-value store (internal/store/store.go and helpers.go). A method that takes a
-- shard's lock for its whole body is one atomic function here, and takes what `time.Now()` gives
-- it as an argument.
pub mod Time
pub mod Entry
pub mod Shards
pub mod Strings
pub mod Generic
pub mod Hashes
pub mod Lists
pub mod Walks
pub mod Refine
pub mod Sound

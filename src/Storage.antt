-- ===== src/Storage.antt =====
-- src/core/storage-batch.ts: the class `BatchingStorageWriter`.
pub mod Writer
pub mod Reads
pub mod Flushing
pub mod Attempts
pub mod Live
pub mod Keys

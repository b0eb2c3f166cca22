-- ===== src/Db.antt =====
-- src/db: the binary formats, the files, the write-ahead log and the database.
pub mod WalCodec
pub mod DbEncoder
pub mod DbDecoder
pub mod Records
pub mod DbDeleter
pub mod IndexCodec
pub mod IndexFromDb
pub mod System
pub mod FileHandler
pub mod FileTask
pub mod Wal
pub mod Database

-- ===== src/Dtypes.antt =====
-- src/dtypes.rs: the types of values, keys, and their bytes.
pub mod Dtype
pub mod Key
pub mod Field
pub mod Codec

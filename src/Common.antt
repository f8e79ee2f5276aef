-- ===== src/Common.antt =====
-- common/: error codes, errors, results, the types of columns, the hash, and the floating-point
-- numbers and the files that the code takes from the system.
pub mod Result
pub mod Types
pub mod Double
pub mod Files
pub mod Hash
pub mod Sample

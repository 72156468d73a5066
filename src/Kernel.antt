-- ===== src/Kernel.antt =====
-- packages/kernel: the values that every other package is written in.
pub mod Result
pub mod Instant
pub mod Authz
pub mod Ids

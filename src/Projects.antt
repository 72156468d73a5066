-- ===== src/Projects.antt =====
-- packages/projects/domain: a project, and the rules about the keys that reach it.
pub mod Errors
pub mod Retention
pub mod Digest
pub mod Project
pub mod Credential
pub mod Grant
pub mod Tests

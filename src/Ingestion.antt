-- ===== src/Ingestion.antt =====
-- packages/ingestion: what the server does with a batch that it is sent, from its admission to the
-- commit that it rides on.
pub mod Errors
pub mod Batch
pub mod Country
pub mod Person
pub mod OsName
pub mod SystemProperties
pub mod EventName
pub mod Admission
pub mod Dedup
pub mod Policy
pub mod GroupCommit
pub mod AdmissionTests
pub mod CommitTests
pub mod Tests

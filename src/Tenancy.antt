-- ===== src/Tenancy.antt =====
-- packages/tenancy/domain: plans, what they entitle to, and the workspace that holds one.
pub mod Plan
pub mod Limits
pub mod Entitlement
pub mod Quota
pub mod Retention
pub mod ProjectCount
pub mod Workspace
pub mod Subscription
pub mod Tests
pub mod Store
pub mod Billing
pub mod UseCases
pub mod ChangePlan
pub mod StoreTests

-- ===== src/Access.antt =====
-- packages/authorization: who is asking, what they hold, and how far they reach.
pub mod Principal
pub mod Grants
pub mod Placement
pub mod Decide
pub mod Tests

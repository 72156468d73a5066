-- ===== src/Dashboarding.antt =====
-- packages/dashboarding/domain: monitors over an analysis, and dashboards of tiles. An analysis is
-- another context's value, which nothing here looks into.
pub mod Threshold
pub mod Monitor
pub mod Tile
pub mod Dashboard
pub mod Tests
pub mod TileTests

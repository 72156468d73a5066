-- ===== src/Analytics.antt =====
-- packages/analytics/domain/src: what is made of the counts of the analysis engine.
pub mod Funnel
pub mod Tests

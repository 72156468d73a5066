-- ===== src/Geo.antt =====
-- packages/ingestion/adapter-geoip/src: the country of an address, from a table that is searched.
pub mod Address
pub mod Reader
pub mod Writer
pub mod Table
pub mod Tests

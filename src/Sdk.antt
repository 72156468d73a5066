-- ===== src/Sdk.antt =====
-- packages/sdk-js/src: the client library's queue on the device.
pub mod Queue
pub mod Visit
pub mod Tests

-- ===== src/Mock.antt =====
-- The mock server of internal/mockserver, against which the clients and the runner are tested.
pub mod Lifecycle
pub mod Server
mod Tests

-- ===== src/Runner.antt =====
-- The test runner of internal/runner.
pub mod Evaluator
pub mod Host
pub mod Transport
pub mod Http
pub mod JsonRpc
pub mod Mcp
pub mod Run
mod Tests

-- ===== src/Schema.antt =====
-- internal/schema: specs, test cases and results.
pub mod Spec
pub mod Result
mod Tests

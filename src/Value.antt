-- ===== src/Value.antt =====
-- Go's `any` as JSON and YAML decoding fill it: internal/runner/evaluator.go matches such values,
-- and arp/server keeps agent cards as them. A `float` holds the 64-bit pattern of a float64.
mod Convert
pub use Convert.*

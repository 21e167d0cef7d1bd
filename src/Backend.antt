-- ===== src/Backend.antt =====
-- The agent backends of arp/backend that answer calls themselves.
pub mod MockAgent
mod Tests

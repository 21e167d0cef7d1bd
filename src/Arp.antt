-- ===== src/Arp.antt =====
-- The reference ARP server of arp/server: its messages, its state, and its handlers.
pub mod Handler
pub mod Messages
pub mod State
pub mod Scope
pub mod Auth
pub mod Tokens
pub mod Ports
pub mod Cards
pub mod Events
pub mod Agents
pub mod Projects
pub mod Workspaces
pub mod Discovery
pub mod Seed
pub mod Rpc
pub mod Steps
mod Tests
mod Witnesses

-- ===== src/Dns.antt =====
-- crates/solon-agent/src/dns.rs: the relay that notes which name an address answers to.
pub mod Name
pub mod Table
pub mod Answers
mod Tests

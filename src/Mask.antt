-- ===== src/Mask.antt =====
-- crates/solon-core/src/mask.rs: what hides sensitive values before they are stored.
pub mod Names
pub mod FreeText
pub mod Params
pub mod Json
pub mod JsonEnds
pub mod Body
pub mod Hides
pub mod Phones
pub mod Emails
pub mod Plain
mod Tests

-- ===== src/FileServer.antt =====
-- crates/solon-core/src/fs.rs and crates/solon-service/src/fileserver.rs: the server of the files of
-- shared drives. Texts of JSON are opaque bytes.
pub mod Frame
pub mod HostPath
pub mod Handle
pub mod HandleLaws
mod Tests

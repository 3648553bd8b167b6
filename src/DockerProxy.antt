-- ===== src/DockerProxy.antt =====
-- crates/solon-service/src/docker_proxy.rs: the proxy in front of the API of Docker, which translates
-- the Windows paths of a container creation and passes everything else on.
pub mod Path
pub mod PathLaws
pub mod Numbers
pub mod Head
pub mod Copy
pub mod Forward
pub mod Conserve
pub mod Chunked
pub mod Rounds
pub mod Reading
pub mod Requests
pub mod Pipelined
pub mod Rewrite
mod Tests

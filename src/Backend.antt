-- ===== src/Backend.antt =====
-- crates/containerproxy/src/backend: what the server keeps for its container backends.
pub mod Ports
mod Examples

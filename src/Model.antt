-- ===== src/Model.antt =====
-- crates/containerproxy/src/model: running proxies, their containers and runtime values.
pub mod RuntimeValues
pub mod Parameters
pub mod Keys
pub mod Labels
pub mod Proxies
mod Examples

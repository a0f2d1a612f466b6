-- ===== src/Service.antt =====
-- crates/containerproxy/src/service: the services that keep a realm in order.
pub mod Leader
pub mod Stores
pub mod Parameters
pub mod Release
pub mod Proxies
pub mod Starting
mod Examples
mod ProxyExamples
mod StartExamples
mod ParameterExamples

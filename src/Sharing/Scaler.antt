-- ===== src/Sharing/Scaler.antt =====
-- crates/containerproxy/src/service/sharing/scaler.rs: `ProxySharingScaler`. An operation runs
-- from its start to its end; the answers of the backend and of the clock are arguments.
pub mod State
pub mod Create
pub mod Removal
pub mod Reconcile
pub mod Custody
pub mod Events

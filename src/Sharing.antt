-- ===== src/Sharing.antt =====
-- crates/containerproxy/src/service/sharing: pre-started containers whose seats users claim.
pub mod Seats
pub mod SeatStore
pub mod Delegates
pub mod Dispatcher
pub mod Scaler
pub mod Examples
mod ScalerExamples
pub mod DispatcherExamples

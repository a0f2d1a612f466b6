-- ===== src/Sharing/Scaler/State.antt =====
-- The state of a scaler and what it reads of its app definition.
use shinyproxy_rust.Base.{ℕ, String, Option, List}
use shinyproxy_rust.Base.Int.{ℤ}
use shinyproxy_rust.Sharing.Seats.{ProxySharingSpecExtension}
use shinyproxy_rust.Sharing.SeatStore.{MemorySeatStore}
use shinyproxy_rust.Sharing.Delegates.{MemoryDelegateProxyStore}

pub data ReconcileStatus : Type 0 where
  stable scale_up scale_down : ReconcileStatus

-- What `new` keeps of the app definition and of the server's identifiers.
pub record Config : Type 0 where
  pub spec_id : String
  pub max_total_instances : ℤ
  pub extension : ProxySharingSpecExtension
  pub spec_hash : String
  pub public_path_prefix : String
  pub instance_id : String
  pub realm_id : Option String

-- `stopped` lists the proxies that the backend was asked to stop, the latest first.
pub record Scaler : Type 0 where
  pub seats : MemorySeatStore
  pub delegates : MemoryDelegateProxyStore
  pub pending_seats : ℤ
  pub status : ReconcileStatus
  pub last_scale_up : Option ℕ
  pub stopped : List String

-- ===== src/Sharing/Seats.antt =====
-- crates/containerproxy/src/service/sharing/mod.rs: seats, delegate proxies and the sharing fields
-- of an app definition.
use shinyproxy_rust.Base.{
  ℕ, ◌*◌, ◌≤◌, max, String, ◌≡◌, ◌↔◌, Bool, true, false, not, ◌&&◌, Option, none, List, [], arith,
  ◌==◌, if◌then◌else◌, is_some, unwrap_or,
}
use shinyproxy_rust.Base.Int.{ℤ, pos, pos_part}
use shinyproxy_rust.Model.Proxies.{Proxy}

pub record Seat : Type 0 where
  pub id : String
  pub delegate_proxy_id : String
  pub delegating_proxy_id : Option String

-- `Seat::new`, with the generated uuid as an argument.
abbrev pub new_seat : String → String → Seat
new_seat uuid delegate_proxy_id = record {
  id = uuid;
  delegate_proxy_id = delegate_proxy_id;
  delegating_proxy_id = none;
}

abbrev pub is_claimed : Seat → Bool
is_claimed seat = is_some seat.delegating_proxy_id

pub data DelegateProxyStatus : Type 0 where
  pending available to_remove : DelegateProxyStatus

abbrev pub delegate_status_eq : DelegateProxyStatus → DelegateProxyStatus → Bool
delegate_status_eq pending pending = true
delegate_status_eq available available = true
delegate_status_eq to_remove to_remove = true
delegate_status_eq _ _ = false

pub record DelegateProxy : Type 0 where
  pub proxy : Proxy
  pub seat_ids : List String
  pub status : DelegateProxyStatus
  pub proxy_spec_hash : String

abbrev pub pending_delegate : Proxy → String → DelegateProxy
pending_delegate proxy proxy_spec_hash = record {
  proxy = proxy;
  seat_ids = [];
  status = pending;
  proxy_spec_hash = proxy_spec_hash;
}

-- The sharing fields, as they were read from the app definition.
pub record ProxySharingSpecExtension : Type 0 where
  pub minimum_seats_available_field : Option ℤ
  pub allow_container_re_use_field : Bool
  pub scale_down_delay_field : ℤ
  pub seats_per_container_field : ℤ

pub default_extension : ProxySharingSpecExtension
default_extension = record {
  minimum_seats_available_field = none;
  allow_container_re_use_field = true;
  scale_down_delay_field = pos 2;
  seats_per_container_field = pos 1;
}

pub enabled : ProxySharingSpecExtension → Bool
enabled e = is_some e.minimum_seats_available_field

unfoldable pub minimum_seats_available : ProxySharingSpecExtension → ℤ
minimum_seats_available e = unwrap_or e.minimum_seats_available_field (pos 0)

-- `max(1)`, as the natural number that it is.
unfoldable pub seats_per_container : ProxySharingSpecExtension → ℕ
seats_per_container e = max (pos_part e.seats_per_container_field) 1

unfoldable pub allow_container_re_use : ProxySharingSpecExtension → Bool
allow_container_re_use e = e.allow_container_re_use_field

-- In seconds.
unfoldable pub scale_down_delay : ProxySharingSpecExtension → ℕ
scale_down_delay e = pos_part e.scale_down_delay_field * 60

pub data Validation : Type 0 where
  ok : Validation
  re_use_needs_one_seat : String → Validation

pub validate : ProxySharingSpecExtension → String → Validation
unfolding enabled seats_per_container allow_container_re_use
validate e spec_id =
    if not (enabled e)
    then ok
    else if not (allow_container_re_use e) && not (seats_per_container e == 1)
    then re_use_needs_one_seat spec_id
    else ok

-- `validate` refuses exactly the enabled extensions that forbid re-use with several seats, and a
-- container has at least one seat.
pub validate-ok_iff :
    (e : ProxySharingSpecExtension) (spec_id : String)
    → (1 ≤ seats_per_container e)
      × ((validate e spec_id ≡ ok)
          ↔ (enabled e ≡ true → allow_container_re_use e ≡ false → seats_per_container e ≡ 1))
unfolding validate
validate-ok_iff e spec_id = (omega arith, ground arith)

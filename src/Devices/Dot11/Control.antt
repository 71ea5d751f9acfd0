-- ===== src/Devices/Dot11/Control.antt =====
-- src/Plugins/Devices/DeviceProxy_dot11.cpp: control requests.
use usbproxy_legacy.Prelude.{
  ℕ, ◌%◌, ◌/◌, ◌^◌, ◌&&◌, ◌||◌, List, [], ◌∷◌, ◌++◌, ◌==◌, ◌/=◌, leb, ltb, if◌then◌else◌, take,
  drop, has_bits,
}
use usbproxy_legacy.Packet.{CtrlRequest}
use usbproxy_legacy.Descriptors.{endpoint_bytes, interface_bytes, config_bytes}
use usbproxy_legacy.Usb.Interface.{Parsed, ok, ◌>>=◌}
use usbproxy_legacy.Devices.Loopback.{device_bytes, string_bytes, at_most}
use usbproxy_legacy.Devices.Dot11.{
  Lorcon, Dot11, dot11_device_descriptor, dot11_config_descriptor, dot11_interface_descriptor,
  dot11_ep, dot11_strings,
}
use usbproxy_legacy.Devices.Dot11.Vendor.{
  Transfer, Ended, returned, ran_off, write_to, vendor_request,
}

-- A stall, a result of 0, or undefined behaviour, with the state at the end of vendor_request.
pub data Handled (E : Type 0) : Type 0 where
  stalled : Handled E
  handled undefined : E → Dot11 → Transfer → Handled E

-- The result of vendor_request is not used.
abbrev pub ended : {E : Type 0} → Ended E → Handled E
ended (returned e d t) = handled e d t
ended (ran_off e d t) = undefined e d t

abbrev pub config_buffer : List ℕ
config_buffer =
    config_bytes dot11_config_descriptor
    ++ interface_bytes dot11_interface_descriptor
    ++ endpoint_bytes (dot11_ep 0x81)
    ++ endpoint_bytes (dot11_ep 2)

module _ {E : Type 0} (e : E) (d : Dot11) (t : Transfer) where
  unfoldable pub reply : List ℕ → Parsed (Handled E)
  reply bytes = write_to bytes t.buffer >>= λ t'. ok (handled e d t')

  string_reply : CtrlRequest → ℕ → Parsed (Handled E)
  unfolding reply
  string_reply r idx =
      if ltb 0 idx && r.w_index /= 0x409 then ok stalled else elim (drop idx dot11_strings) [
        | [] ↦ ok stalled
        | s ∷ ss ↦ reply (take (at_most s.b_length r.w_length) (string_bytes s))
      ]

  pub get_descriptor : CtrlRequest → Parsed (Handled E)
  unfolding reply string_reply
  get_descriptor r =
      let kind = r.w_value / 2 ^ 8 in
      let idx = r.w_value % 2 ^ 8 in
      if kind == 1
      then reply (device_bytes dot11_device_descriptor)
      else if kind == 2
      then (if leb dot11_device_descriptor.b_num_configurations idx
          then ok stalled
          else reply
              (take (at_most dot11_config_descriptor.w_total_length r.w_length) config_buffer))
      else if kind == 3
      then string_reply r idx
      else if kind == 6 || kind == 7
      then ok stalled
      else ok (handled e d t)

module _ {E : Type 0} (lorcon : Lorcon E) (e : E) (d : Dot11) (t : Transfer) where
  unfoldable pub control_request : CtrlRequest → Parsed (Handled E)
  control_request r =
      if has_bits r.b_request_type 0x80 && r.b_request == 6
      then get_descriptor e d t r
      else if r.b_request == 8
      then reply e d t (1 ∷ [])
      else if r.b_request == 9
      then ok (handled e d t)
      else if r.b_request == 10
      then reply e d t (1 ∷ [])
      else if has_bits r.b_request_type 0x40
      then (vendor_request lorcon d t e r.b_request >>= λ s. ok (ended s))
      else ok (handled e d t)

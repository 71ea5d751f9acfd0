-- ===== src/Devices/Dot11/Reached.antt =====
-- src/Plugins/Devices/DeviceProxy_dot11.cpp: which requests of the vendor reach the wireless
-- library, and what is left of a value on its way there.
use usbproxy_legacy.Prelude.{
  ap, ℕ, zero, suc, ◌+◌, ◌*◌, ◌%◌, ◌/◌, ◌^◌, ◌≡◌, ◌<◌, refl, Bool, true, false, ◌&&◌, ◌||◌, Option,
  none, some, List, ◌==◌, has_bits, arith,
}
use usbproxy_legacy.Packet.{CtrlRequest}
use usbproxy_legacy.Devices.LibUsb.{Answer, got, refused, Failure, success, failure}
use usbproxy_legacy.Usb.Interface.{Parsed, ok, null_pointer, ◌>>=◌}
use usbproxy_legacy.Devices.Dot11.{is_negative, Lorcon, Dot11}
use usbproxy_legacy.Tools.Dot11Control.{from_int, ctrl_out, cmd_set_channel}
use usbproxy_legacy.Devices.Dot11.Vendor.{Transfer, vendor_request}
use usbproxy_legacy.Devices.Dot11.Vendor.{int_bytes}
use usbproxy_legacy.Devices.Dot11.Control.{Handled, control_request, undefined, ended}

-- Requests of the vendor that are taken for standard ones: GET_DATALINK, SET_DATALINK and
-- GET_CHANNEL have the numbers of GET_CONFIGURATION, SET_CONFIGURATION and GET_INTERFACE, and
-- GET_DRIVER_NAME that of GET_DESCRIPTOR.
abbrev pub is_shadowed : CtrlRequest → Bool
is_shadowed r =
    has_bits r.b_request_type 0x80 && r.b_request == 6
    || (r.b_request == 8 || (r.b_request == 9 || r.b_request == 10))

-- The two sides of a request of the vendor.
module _ {E : Type 0} (lorcon : Lorcon E) (e : E) (d : Dot11) (t : Transfer) where
  vendor_reached :
      (r : CtrlRequest)
      → has_bits r.b_request_type 0x40 ≡ true
      → is_shadowed r ≡ false
      → control_request lorcon e d t r
        ≡ (vendor_request lorcon d t e r.b_request >>= λ s. ok (ended s))
  unfolding control_request
  vendor_reached r v h = ground arith

  -- A request with the number of GET_DATALINK, SET_DATALINK or GET_CHANNEL, or one to read
  -- with that of GET_DRIVER_NAME, never reaches the wireless library, also if it is one of the
  -- vendor: its outcome is the same whatever the library does.
  pub shadowed_unreached :
      (lorcon' : Lorcon E) (r : CtrlRequest)
      → is_shadowed r ≡ true
      → control_request lorcon e d t r ≡ control_request lorcon' e d t r
  unfolding control_request
  shadowed_unreached lorcon' r h = ground arith

from_int_lem :
    (v : ℕ)
    → v < 2 ^ 32
    → v % 256 + v / 256 % 256 * 256 + v / 2 ^ 16 % 256 * 2 ^ 16 + v / 2 ^ 24 % 256 * 2 ^ 24 ≡ v
from_int_lem v h = omega arith

module _ {E : Type 0} (lorcon : Lorcon E) (e : E) (d : Dot11) where
  -- What SET_CHANNEL leaves behind: the state of the library, and its result in the buffer.
  abbrev pub channel_set : ℕ → Parsed (Handled E)
  channel_set v = ok (
      undefined (lorcon.set_channel e d.lorcon_context v).0 d (record {
        nbytes = 4;
        buffer = some (int_bytes (lorcon.set_channel e d.lorcon_context v).1);
      }))

  -- A transfer that hands the request and its data to the device, keeps what the device makes of
  -- them, and tells the tool `a`.
  abbrev pub passed_on :
      Answer (List ℕ)
      → Parsed (Handled E)
      → CtrlRequest
      → Option (List ℕ)
      → Parsed (Handled E) × Answer (List ℕ)
  passed_on a s r bytes =
      (control_request lorcon e d (record { nbytes = r.w_length; buffer = bytes }) r, a)

  -- cmd_set_channel of the tool, over a transfer that hands its request to the device, has the device
  -- call the library once, with the channel that the tool was given, a number of 32 bits, and write
  -- what it returns into the four bytes of the buffer; then the device runs into the end of a function
  -- without a return statement. The tool reports what the transfer does.
  pub cmd_set_channel-control_request :
      (v : ℕ) (s : Parsed (Handled E)) (bytes : List ℕ) (f : Failure)
      → v < 2 ^ 32
      → (cmd_set_channel (passed_on (got bytes)) s v ≡ (channel_set v, success))
        × (cmd_set_channel (passed_on (refused f)) s v ≡ (channel_set v, failure f))
  unfolding control_request vendor_request from_int cmd_set_channel
  cmd_set_channel-control_request v s bytes f h = (
    ap (λ w. (channel_set w, success)) (from_int_lem v h),
    ap (λ w. (channel_set w, failure f)) (from_int_lem v h),
  )

  -- A request of the tool to open an interface has no buffer: once the library has opened it, the
  -- result is written through a null pointer.
  pub control_request-open :
      (n : ℕ)
      → n < 3
      → is_negative (lorcon.open_inject e d.lorcon_context).1 ≡ false
      → is_negative (lorcon.open_monitor e d.lorcon_context).1 ≡ false
      → is_negative (lorcon.open_injmon e d.lorcon_context).1 ≡ false
      → control_request lorcon e d (record { nbytes = 0; buffer = none }) (ctrl_out n 0)
        ≡ null_pointer
  unfolding control_request vendor_request
  control_request-open zero h i m j = rw i refl
  control_request-open (suc zero) h i m j = rw m refl
  control_request-open (suc (suc zero)) h i m j = rw j refl
  control_request-open (suc (suc (suc n))) h i m j = absurd (omega arith)

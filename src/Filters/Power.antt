-- ===== src/Filters/Power.antt =====
-- src/Plugins/Filters/PacketFilter_Power.cpp: sets the power that a configuration asks for.
use usbproxy_legacy.Prelude.{
  ℕ, ◌+◌, ◌≡◌, Bool, ◌&&◌, Option, none, some, List, ◌==◌, if◌then◌else◌, set, arith,
}
use usbproxy_legacy.Packet.{SetupPacket}
use usbproxy_legacy.Usb.Interface.{Parsed, ok, null_pointer}

-- Byte 7 of a configuration descriptor is `bmAttributes`, and byte 8 `bMaxPower`, in units of 2 mA.
abbrev low_power : List ℕ → List ℕ
low_power bytes = set (set bytes 7 0x80) 8 0x32

change : SetupPacket → Option (List ℕ) → Parsed SetupPacket
change p none = null_pointer
change p (some bytes) = ok (record p { data_bytes = some (low_power bytes) })

-- The whole of `wValue` is compared with the type of a configuration descriptor.
filter_setup_packet : SetupPacket → Bool → Parsed SetupPacket
unfolding change
filter_setup_packet p direction_in =
    if direction_in && p.ctrl_req.b_request == 6 && p.ctrl_req.w_value == 2
    then change p p.data_bytes
    else ok p

-- A request for a configuration descriptor has its type in the high byte of `wValue`, and the index
-- of the configuration in the low one: the filter changes the reply to none of them.
power_unchanged :
    (p : SetupPacket) (direction_in : Bool) (idx : ℕ)
    → p.ctrl_req.w_value ≡ 0x200 + idx
    → filter_setup_packet p direction_in ≡ ok p
unfolding filter_setup_packet
power_unchanged p direction_in idx h = ground arith

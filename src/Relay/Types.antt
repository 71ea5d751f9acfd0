-- ===== src/Relay/Types.antt =====
-- What the relay threads call: the filters of a writer, the device proxy behind it, and the
-- manager.
use usbproxy_legacy.Prelude.{ℕ, Bool, Option, List}
use usbproxy_legacy.Packet.{Packet, SetupPacket, CtrlRequest}

-- What `DeviceProxy::control_request` gives back: whether its result is not negative, `*nbytes`,
-- and the buffer behind the data pointer.
pub record Reply : Type 0 where
  pub accepted : Bool
  pub nbytes : ℕ
  pub bytes : Option (List ℕ)

-- The virtual calls of `PacketFilter` and `DeviceProxy`, and `Manager::setConfig`. `F` is the type
-- of the filters, and `E` the state that the calls share: that of the filters, the proxies, the
-- manager.
pub record Ops (F E : Type 0) : Type 0 where
  pub test_setup_packet : F → SetupPacket → Bool → Bool
  pub filter_setup_packet : F → E → SetupPacket → Bool → E × SetupPacket
  pub test_packet : F → Packet → Bool
  pub filter_packet : F → E → Packet → E × Packet
  pub control_request : E → CtrlRequest → ℕ → Option (List ℕ) → E × Reply
  pub set_config : E → ℕ → E

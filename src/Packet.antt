-- ===== src/Packet.antt =====
-- src/lib/Packet.h: the packets that travel between readers, filters and writers.
-- Bytes are numbers below 256; `data` is the buffer that the C pointer names.
use usbproxy_legacy.Prelude.{ℕ, Bool, true, Option, List}

-- `struct usb_ctrlrequest` of linux/usb/ch9.h, as the code reads and writes it.
pub record CtrlRequest : Type 0 where
  pub b_request_type : ℕ
  pub b_request : ℕ
  pub w_value : ℕ
  pub w_index : ℕ
  pub w_length : ℕ

pub record Packet : Type 0 where
  pub b_endpoint : ℕ
  pub w_length : ℕ
  pub filter : Bool
  pub transmit : Bool
  pub data_bytes : List ℕ

-- The constructor `Packet(_endpoint, _data, _length, _filter)`.
unfoldable pub new_packet : ℕ → List ℕ → ℕ → Bool → Packet
new_packet endpoint bytes len flag = record {
  b_endpoint = endpoint;
  w_length = len;
  filter = flag;
  transmit = true;
  data_bytes = bytes;
}

-- A null buffer is `none`. The inherited fields that only `Packet` uses are constant: endpoint 0,
-- length 0, `transmit` true.
pub record SetupPacket : Type 0 where
  pub ctrl_req : CtrlRequest
  pub data_bytes : Option (List ℕ)
  pub filter_out : Bool
  pub transmit_out : Bool
  pub filter_in : Bool
  pub transmit_in : Bool

-- The constructor `SetupPacket(_ctrl_req, _data, _filter)`.
unfoldable pub new_setup_packet : CtrlRequest → Option (List ℕ) → Bool → SetupPacket
new_setup_packet req bytes flag = record {
  ctrl_req = req;
  data_bytes = bytes;
  filter_out = flag;
  transmit_out = true;
  filter_in = flag;
  transmit_in = true;
}

-- A `PacketPtr`: null, or a shared packet whose dynamic type is what `dynamic_cast` finds.
pub data PacketPtr : Type 0 where
  null : PacketPtr
  plain : Packet → PacketPtr
  setup : SetupPacket → PacketPtr

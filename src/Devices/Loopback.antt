-- ===== src/Devices/Loopback.antt =====
-- src/Plugins/Devices/DeviceProxy_Loopback.cpp and DeviceProxy_Loopback.h: a device that is all in
-- the program, with a ring of packets. The output for debugging is left out.
pub mod Ring
pub mod Replies
mod Tests
use usbproxy_legacy.Prelude.{
  ℕ, zero, suc, ◌+◌, ◌*◌, ◌-◌, ◌%◌, ◌/◌, ◌^◌, Bool, true, false, ◌&&◌, not, Option, none, some,
  List, [], ◌∷◌, ◌++◌, ◌==◌, ◌/=◌, ltb, if◌then◌else◌, get_or, set, length, take, drop, replicate,
  bit_and, has_bits,
}
use usbproxy_legacy.Packet.{CtrlRequest}
use usbproxy_legacy.Descriptors.{
  EndpointDescriptor, InterfaceDescriptor, ConfigDescriptor, DeviceDescriptor, endpoint_bytes,
  interface_bytes, config_bytes, low_byte, high_byte,
}
use usbproxy_legacy.Usb.Interface.{Parsed, ok, null_pointer}
use usbproxy_legacy.Usb.UsbString.{UsbString, string_of_ascii, string_of_words}

-- `BUF_LEN`.
abbrev pub buf_len : ℕ
buf_len = 100

-- `struct pkt`: its length, and what `data` points to. That of `calloc` is all zero.
pub record RingPacket : Type 0 where
  pub size : ℕ
  pub bytes : Option (List ℕ)

abbrev pub zero_packet : RingPacket
zero_packet = record { size = 0; bytes = none }

pub record Loopback : Type 0 where
  pub device_descriptor : DeviceDescriptor
  pub config_descriptor : ConfigDescriptor
  pub interface_descriptor : InterfaceDescriptor
  pub eps : EndpointDescriptor × EndpointDescriptor
  pub strings : List UsbString
  pub string_max_index : ℕ
  pub buffer : Option (List RingPacket)
  pub full : Bool
  pub head : ℕ
  pub tail : ℕ
  pub connected : Bool

abbrev interrupt_endpoint : ℕ → EndpointDescriptor
interrupt_endpoint address = record {
  b_length = 7;
  b_descriptor_type = 5;
  b_endpoint_address = address;
  bm_attributes = 3;
  w_max_packet_size = 64;
  b_interval = 10;
}

-- The languages, whose array ends with a zero word, and "Manufacturer", "Product", "Serial" and "Loopback".
abbrev loopback_strings : List UsbString
loopback_strings =
    string_of_words (0x0409 ∷ []) 0 0
    ∷ string_of_ascii (77 ∷ 97 ∷ 110 ∷ 117 ∷ 102 ∷ 97 ∷ 99 ∷ 116 ∷ 117 ∷ 114 ∷ 101 ∷ 114 ∷ []) 1
        0x409
    ∷ string_of_ascii (80 ∷ 114 ∷ 111 ∷ 100 ∷ 117 ∷ 99 ∷ 116 ∷ []) 2 0x409
    ∷ string_of_ascii (83 ∷ 101 ∷ 114 ∷ 105 ∷ 97 ∷ 108 ∷ []) 3 0x409
    ∷ string_of_ascii (76 ∷ 111 ∷ 111 ∷ 112 ∷ 98 ∷ 97 ∷ 99 ∷ 107 ∷ []) 4 0x409
    ∷ []

-- The constructor from two numbers; `int` is read as not negative.
pub loopback : ℕ → ℕ → Loopback
loopback vendor product = record {
  device_descriptor = record {
    b_length = 18;
    b_descriptor_type = 1;
    bcd_usb = 0x0100;
    b_device_class = 0xff;
    b_device_sub_class = 0;
    b_device_protocol = 0;
    b_max_packet_size0 = 64;
    id_vendor = vendor % 2 ^ 16;
    id_product = product % 2 ^ 16;
    bcd_device = 0;
    i_manufacturer = 1;
    i_product = 2;
    i_serial_number = 3;
    b_num_configurations = 1;
  };
  config_descriptor = record {
    b_length = 9;
    b_descriptor_type = 2;
    w_total_length = 9 + 9 + 7 + 7;
    b_num_interfaces = 1;
    b_configuration_value = 1;
    i_configuration = 4;
    bm_attributes = 0xc0;
    b_max_power = 1;
  };
  interface_descriptor = record {
    b_length = 9;
    b_descriptor_type = 4;
    b_interface_number = 0;
    b_alternate_setting = 0;
    b_num_endpoints = 2;
    b_interface_class = 0xff;
    b_interface_sub_class = 0;
    b_interface_protocol = 0;
    i_interface = 4;
  };
  eps = (interrupt_endpoint 0x81, interrupt_endpoint 1);
  strings = loopback_strings;
  string_max_index = 4;
  buffer = none;
  full = false;
  head = 0;
  tail = 0;
  connected = false;
}

-- The constructor that the plugin uses.
abbrev configured_loopback : Loopback
configured_loopback = loopback 0xffff 0xffff

unfoldable pub connect : Loopback → Loopback
connect d = record d {
  buffer = some (replicate buf_len zero_packet);
  head = 0;
  tail = 0;
  full = false;
  connected = true;
}

unfoldable pub disconnect : Loopback → Loopback
disconnect d = record d { buffer = none; full = false; connected = false }

reset : Loopback → Loopback
reset d = record d { head = 0; tail = 0; full = false }

-- The bytes of a packed `usb_device_descriptor`.
unfoldable pub device_bytes : DeviceDescriptor → List ℕ
device_bytes d =
    d.b_length
    ∷ d.b_descriptor_type
    ∷ low_byte d.bcd_usb
    ∷ high_byte d.bcd_usb
    ∷ d.b_device_class
    ∷ d.b_device_sub_class
    ∷ d.b_device_protocol
    ∷ d.b_max_packet_size0
    ∷ low_byte d.id_vendor
    ∷ high_byte d.id_vendor
    ∷ low_byte d.id_product
    ∷ high_byte d.id_product
    ∷ low_byte d.bcd_device
    ∷ high_byte d.bcd_device
    ∷ d.i_manufacturer
    ∷ d.i_product
    ∷ d.i_serial_number
    ∷ d.b_num_configurations
    ∷ []

-- The buffer in which the configuration descriptor is put together.
pub config_buffer : Loopback → List ℕ
config_buffer d =
    take d.config_descriptor.b_length (config_bytes d.config_descriptor)
    ++ take d.interface_descriptor.b_length (interface_bytes d.interface_descriptor)
    ++ take d.eps.0.b_length (endpoint_bytes d.eps.0)
    ++ take d.eps.1.b_length (endpoint_bytes d.eps.1)

pub string_bytes : UsbString → List ℕ
string_bytes s = s.b_length ∷ s.b_descriptor_type ∷ word_bytes s.w_data
  where
    word_bytes : List ℕ → List ℕ
    word_bytes [] = []
    word_bytes (w ∷ ws) = low_byte w ∷ high_byte w ∷ word_bytes ws

-- A result of 0 with the bytes that are written; `unset` leaves `*nbytes` and the buffer alone.
pub data Answer : Type 0 where
  stall unset : Answer
  written : List ℕ → Answer

-- `a>b?b:a`.
abbrev pub at_most : ℕ → ℕ → ℕ
at_most a b = if ltb b a then b else a

-- The cases of the switch for a configuration and for a string.
pub get_config : Loopback → CtrlRequest → Answer
get_config d r =
    if ltb (r.w_value % 2 ^ 8) d.device_descriptor.b_num_configurations
    then written (take (at_most d.config_descriptor.w_total_length r.w_length) (config_buffer d))
    else stall

unfoldable pub get_string : Loopback → CtrlRequest → Answer
get_string d r =
    let idx = r.w_value % 2 ^ 8 in
    if ltb 0 idx && r.w_index /= 0x409
    then stall
    else if ltb d.string_max_index idx
    then stall
    else elim (drop idx d.strings) [
      | [] ↦ stall
      | s ∷ ss ↦ written (take (at_most s.b_length r.w_length) (string_bytes s))
    ]

pub get_descriptor : Loopback → CtrlRequest → Answer
get_descriptor d r =
    let kind = r.w_value / 2 ^ 8 in
    if kind == 1
    then written (take d.device_descriptor.b_length (device_bytes d.device_descriptor))
    else if kind == 2
    then get_config d r
    else if kind == 3
    then get_string d r
    else if kind == 6
    then stall
    else if kind == 7
    then stall
    else unset

pub control_request : Loopback → CtrlRequest → Answer
control_request d r =
    if has_bits r.b_request_type 0x80 && r.b_request == 6
    then get_descriptor d r
    else if has_bits r.b_request_type 0x80 && r.b_request == 8
    then written (1 ∷ [])
    else if has_bits r.b_request_type 0x80 && r.b_request == 10
    then written (1 ∷ [])
    else unset

-- The copy of the bytes goes to a copy of the slot, so the slot only loses its pointer.
pub send_data : Loopback → List ℕ → Parsed Loopback
send_data d bytes = if d.head == d.tail && d.full then ok d else elim d.buffer [
  | none ↦ null_pointer
  | some slots ↦
      let tail = (d.tail + 1) % buf_len in
      let slot = get_or slots d.tail zero_packet in
      ok (record d {
        buffer = some (set slots d.tail (record slot { bytes = none }));
        tail = tail;
        full = d.head == tail;
      })
]

-- The slot that is received, if there is one.
pub receive_data : Loopback → Parsed (Option RingPacket × Loopback)
receive_data d = if d.head == d.tail && not d.full then ok (none, d) else elim d.buffer [
  | none ↦ null_pointer
  | some slots ↦
      let head = (d.head + 1) % buf_len in
      ok (
        some (get_or slots d.head zero_packet),
        record d { head = head; full = not (head == d.tail) },
      )
]

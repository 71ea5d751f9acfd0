-- ===== src/Devices/Dot11.antt =====
-- src/Plugins/Devices/DeviceProxy_dot11.cpp and DeviceProxy_dot11.h: a device that is a wireless
-- interface. The calls of lorcon are a parameter; the output for debugging is left out. The
-- requests of the vendor are in Vendor, and those of every device in Control.
pub mod Vendor
pub mod Control
pub mod Reached
mod Tests
use usbproxy_legacy.Prelude.{
  ℕ, zero, suc, ◌+◌, ◌*◌, ◌-◌, ◌%◌, ◌/◌, ◌^◌, Bool, true, false, ◌&&◌, not, Option, none, some,
  List, [], ◌∷◌, ◌++◌, ◌==◌, ltb, if◌then◌else◌, length, drop,
}
use usbproxy_legacy.ConfigParser.{Text}
use usbproxy_legacy.Descriptors.{
  EndpointDescriptor, InterfaceDescriptor, ConfigDescriptor, DeviceDescriptor,
}
use usbproxy_legacy.Usb.Interface.{Parsed, ok, overflow, null_pointer, ◌>>=◌}
use usbproxy_legacy.Usb.UsbString.{UsbString, string_of_ascii, string_of_words}

-- What the code reads of a captured packet.
pub record Captured : Type 0 where
  pub length_header : ℕ
  pub length_payload : ℕ

-- The calls of lorcon over its state `E`. A context or a driver is a number, a null pointer `none`;
-- an `int` is its bit pattern.
pub record Lorcon (E : Type 0) : Type 0 where
  pub auto_driver : E → Text → E × Option ℕ
  pub create : E → Text → ℕ → E × Option ℕ
  pub open_inject : E → Option ℕ → E × ℕ
  pub open_monitor : E → Option ℕ → E × ℕ
  pub open_injmon : E → Option ℕ → E × ℕ
  pub free_driver_list : E → Option ℕ → E
  pub free : E → Option ℕ → E
  pub close : E → Option ℕ → E
  pub set_timeout : E → Option ℕ → ℕ → E
  pub get_timeout : E → Option ℕ → ℕ
  pub get_capiface : E → Option ℕ → Text
  pub get_driver_name : E → Option ℕ → Text
  pub get_datalink : E → Option ℕ → ℕ
  pub set_datalink : E → Option ℕ → ℕ → E × ℕ
  pub get_channel : E → Option ℕ → ℕ
  pub set_channel : E → Option ℕ → ℕ → E × ℕ
  pub get_hwmac : E → Option ℕ → List ℕ
  pub set_hwmac : E → Option ℕ → ℕ → Option (List ℕ) → E × ℕ
  pub add_wepkey : E → Option ℕ → List ℕ → List ℕ → E × ℕ
  pub next_ex : E → Option ℕ → E × Option Captured

-- The static `driver` and `context` belong to the state.
pub record Dot11 : Type 0 where
  pub interface : Text
  pub monitor : Bool
  pub connected : Bool
  pub driver : Option ℕ
  pub lorcon_context : Option ℕ

pub dot11 : Text → Dot11
dot11 interface = record {
  interface = interface;
  monitor = false;
  connected = false;
  driver = none;
  lorcon_context = none;
}

-- The descriptors of the constructor, which nothing changes.
abbrev pub dot11_device_descriptor : DeviceDescriptor
dot11_device_descriptor = record {
  b_length = 18;
  b_descriptor_type = 1;
  bcd_usb = 0x0100;
  b_device_class = 3;
  b_device_sub_class = 0;
  b_device_protocol = 0;
  b_max_packet_size0 = 64;
  id_vendor = 0xffff;
  id_product = 5;
  bcd_device = 0;
  i_manufacturer = 1;
  i_product = 2;
  i_serial_number = 3;
  b_num_configurations = 1;
}

abbrev pub dot11_config_descriptor : ConfigDescriptor
dot11_config_descriptor = record {
  b_length = 9;
  b_descriptor_type = 2;
  w_total_length = 9 + 9 + 7 + 7;
  b_num_interfaces = 1;
  b_configuration_value = 1;
  i_configuration = 4;
  bm_attributes = 0xc0;
  b_max_power = 1;
}

abbrev pub dot11_interface_descriptor : InterfaceDescriptor
dot11_interface_descriptor = record {
  b_length = 9;
  b_descriptor_type = 4;
  b_interface_number = 0;
  b_alternate_setting = 0;
  b_num_endpoints = 2;
  b_interface_class = 3;
  b_interface_sub_class = 0;
  b_interface_protocol = 0;
  i_interface = 4;
}

abbrev pub dot11_ep : ℕ → EndpointDescriptor
dot11_ep address = record {
  b_length = 7;
  b_descriptor_type = 5;
  b_endpoint_address = address;
  bm_attributes = 2;
  w_max_packet_size = 64;
  b_interval = 10;
}

-- The languages, whose array ends with a zero word, and "USBProxy", "802.11 HID Device", "0001" and "802.11".
pub dot11_strings : List UsbString
dot11_strings =
    string_of_words (0x0409 ∷ []) 0 0
    ∷ string_of_ascii (85 ∷ 83 ∷ 66 ∷ 80 ∷ 114 ∷ 111 ∷ 120 ∷ 121 ∷ []) 1 0x409
    ∷ string_of_ascii
        (56 ∷ 48 ∷ 50 ∷ 46 ∷ 49 ∷ 49 ∷ 32 ∷ 72 ∷ 73 ∷ 68 ∷ 32 ∷ 68 ∷ 101 ∷ 118 ∷ 105 ∷ 99 ∷ 101
          ∷ [])
        2 0x409
    ∷ string_of_ascii (48 ∷ 48 ∷ 48 ∷ 49 ∷ []) 3 0x409
    ∷ string_of_ascii (56 ∷ 48 ∷ 50 ∷ 46 ∷ 49 ∷ 49 ∷ []) 4 0x409
    ∷ []

-- An `int` is negative.
abbrev pub is_negative : ℕ → Bool
is_negative w = not (ltb w (2 ^ 31))

module _ {E : Type 0} (lorcon : Lorcon E) where
  monitored : Dot11 → E × ℕ → E × Dot11 × Bool
  monitored d (e, rv) =
      if is_negative rv
      then (e, d, false)
      else (lorcon.free_driver_list e d.driver, record d { monitor = true; connected = true }, true)

  created : Dot11 → E × Option ℕ → E × Dot11 × Bool
  unfolding monitored
  created d (e, none) = (e, record d { lorcon_context = none }, false)
  created d (e, some c) =
      monitored (record d { lorcon_context = some c }) (lorcon.open_monitor e (some c))

  with_driver : Dot11 → E × Option ℕ → E × Dot11 × Bool
  unfolding created
  with_driver d (e, none) = (e, record d { driver = none }, false)
  with_driver d (e, some n) = created (record d { driver = some n }) (lorcon.create e d.interface n)

  -- Whether the result is 0.
  connect_if : Text → E → Dot11 → E × Dot11 × Bool
  connect_if [] e d = (e, d, false)
  connect_if (c ∷ cs) e d = with_driver d (lorcon.auto_driver e (c ∷ cs))

  connect : E → Dot11 → E × Dot11 × Bool
  unfolding with_driver connect_if
  connect e d = connect_if d.interface e d

  disconnect : E → Dot11 → E × Dot11
  disconnect e d = (lorcon.free e d.lorcon_context, record d { connected = false })

  -- The header of the packet, 24 bytes, is written over the pointer that the caller keeps.
  captured : E × Option Captured → Parsed E
  captured (e, none) = ok e
  captured (e, some c) = overflow

  receive_data : E → Dot11 → Parsed E
  unfolding captured
  receive_data e d = if d.monitor then captured (lorcon.next_ex e d.lorcon_context) else ok e

-- ===== src/Usb/Tests.antt =====
-- A configuration with one HID interface: the theorems at its bytes.
use usbproxy_legacy.Prelude.{ℕ, ◌≡◌, refl, false, some, List, [], ◌∷◌, ◌++◌, length, arith}
use usbproxy_legacy.Descriptors.{EndpointDescriptor, InterfaceDescriptor}
use usbproxy_legacy.Usb.Errors.{no_error}
use usbproxy_legacy.Usb.Interface
use usbproxy_legacy.Usb.Interface.{Interface, Parsed, ok, interface_of, add_generic_descriptor}
use usbproxy_legacy.Usb.Interface.Bytes.{IsStored}
use usbproxy_legacy.Usb.Interface.Parts.{IsComplete}
use usbproxy_legacy.Usb.Interface.RoundTrip.{parse-get_full_descriptor}
use usbproxy_legacy.Usb.InterfaceGroup.{InterfaceGroup}
use usbproxy_legacy.Usb.Configuration
use usbproxy_legacy.Usb.Configuration.{Configuration, configuration_of, parse_interfaces}
use usbproxy_legacy.Usb.Configuration.Bytes.{is_defined-total_length}
use usbproxy_legacy.Usb.Configuration.Parse.{bytes_of, add_all, parse_interfaces-bytes_of}

abbrev key_endpoint : EndpointDescriptor
key_endpoint = record {
  b_length = 7;
  b_descriptor_type = 5;
  b_endpoint_address = 0x81;
  bm_attributes = 3;
  w_max_packet_size = 8;
  b_interval = 10;
}

abbrev key_header : InterfaceDescriptor
key_header = record {
  b_length = 9;
  b_descriptor_type = 4;
  b_interface_number = 0;
  b_alternate_setting = 0;
  b_num_endpoints = 1;
  b_interface_class = 3;
  b_interface_sub_class = 1;
  b_interface_protocol = 1;
  i_interface = 0;
}

abbrev key_hid : List ℕ
key_hid = 9 ∷ 0x21 ∷ 0x11 ∷ 1 ∷ 0 ∷ 1 ∷ 0x22 ∷ 63 ∷ 0 ∷ []

-- A descriptor of type 0x25 stands behind the HID descriptor.
abbrev keyboard : Interface
keyboard = record {
  descriptor = key_header;
  hid_descriptor = some key_hid;
  generic_descriptors = (3 ∷ 0x25 ∷ 7 ∷ []) ∷ [];
  endpoints = some key_endpoint ∷ [];
}

abbrev key_group : InterfaceGroup
key_group = record {
  number = 0;
  alternate_count = 1;
  interfaces = some keyboard ∷ [];
  active_alternate_index = some 0;
}

abbrev key_config : Configuration
key_config = record {
  descriptor = record {
    b_length = 9;
    b_descriptor_type = 2;
    w_total_length = 37;
    b_num_interfaces = 1;
    b_configuration_value = 1;
    i_configuration = 0;
    bm_attributes = 0xa0;
    b_max_power = 50;
  };
  interface_groups = some key_group ∷ [];
}

keyboard-IsComplete : IsComplete keyboard
keyboard-IsComplete = record {
  b_length = refl;
  b_type = refl;
  hid = record { own_length = refl; type_byte = omega arith; hid_type = refl };
  generics = (
    record {
      own_length = refl;
      type_byte = omega arith;
      interface_type = omega arith;
      endpoint_type = omega arith;
      hid_type = omega arith;
    },
    tt,
  );
  endpoints = key_endpoint ∷ [];
  filled = refl;
  endpoint_count = refl;
  endpoint_descriptors = (record { b_length = refl; b_type = refl; packet_size = omega arith }, tt);
}

keyboard-IsStored : IsStored keyboard
keyboard-IsStored = record {
  header = omega arith;
  hid = omega arith;
  generics = (omega arith, tt);
  slots = (omega arith, tt);
}

parse-get_full_descriptor_example :
    Interface.parse 4 (Interface.get_full_descriptor keyboard ++ []) ≡ ok (keyboard, [])
parse-get_full_descriptor_example =
    parse-get_full_descriptor 4 keyboard [] keyboard-IsComplete refl (omega arith)

-- The keyboard again, as alternate setting 1.
abbrev second : Interface
second = record keyboard { descriptor = record key_header { b_alternate_setting = 1 } }

second-IsComplete : IsComplete second
second-IsComplete = record {
  b_length = refl;
  b_type = refl;
  hid = record { own_length = refl; type_byte = omega arith; hid_type = refl };
  generics = (
    record {
      own_length = refl;
      type_byte = omega arith;
      interface_type = omega arith;
      endpoint_type = omega arith;
      hid_type = omega arith;
    },
    tt,
  );
  endpoints = key_endpoint ∷ [];
  filled = refl;
  endpoint_count = refl;
  endpoint_descriptors = (record { b_length = refl; b_type = refl; packet_size = omega arith }, tt);
}

key_config-defined : (Configuration.is_defined key_config false).error ≡ no_error
unfolding Configuration.is_defined
key_config-defined = refl

is_defined-total_length_example : length (Configuration.get_full_descriptor key_config) ≡ 37
is_defined-total_length_example =
    is_defined-total_length key_config false key_config-defined ((keyboard-IsStored, tt), tt)

parse_interfaces-bytes_of_example :
    parse_interfaces 4 3 (bytes_of (keyboard ∷ second ∷ [])) key_config
    ≡ add_all key_config (keyboard ∷ second ∷ [])
parse_interfaces-bytes_of_example =
    parse_interfaces-bytes_of 4 3 (keyboard ∷ second ∷ []) key_config
      (keyboard-IsComplete, (second-IsComplete, tt)) (omega arith, (omega arith, tt)) (omega arith)

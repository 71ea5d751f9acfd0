-- ===== src/Usb/Device/Tests.antt =====
-- A device with US English and two strings: the theorems about strings and configurations.
use usbproxy_legacy.Prelude.{ℕ, ◌≡◌, refl, none, some, [], ◌∷◌, arith}
use usbproxy_legacy.Usb.Interface.{ok, ◌>>=◌}
use usbproxy_legacy.Usb.Configuration.{Configuration}
use usbproxy_legacy.Usb.UsbString.{UsbString}
use usbproxy_legacy.Usb.Device.{Device, language_string, add_string, get_string}
use usbproxy_legacy.Usb.Device.Strings.{HasLanguages, get_string-add_string}
use usbproxy_legacy.Usb.DeviceQualifier.{DeviceQualifier}

abbrev english : UsbString
english = record {
  index = 0;
  language_id = 0;
  b_length = 4;
  b_descriptor_type = 3;
  w_data = 0x0409 ∷ [];
}

abbrev text : ℕ → ℕ → ℕ → UsbString
text index language word = record {
  index = index;
  language_id = language;
  b_length = 4;
  b_descriptor_type = 3;
  w_data = word ∷ [];
}

abbrev device : Device
device = record {
  descriptor = record {
    b_length = 18;
    b_descriptor_type = 1;
    bcd_usb = 0x0200;
    b_device_class = 0;
    b_device_sub_class = 0;
    b_device_protocol = 0;
    b_max_packet_size0 = 64;
    id_vendor = 0x1d50;
    id_product = 0x6018;
    bcd_device = 0x0100;
    i_manufacturer = 1;
    i_product = 0;
    i_serial_number = 0;
    b_num_configurations = 2;
  };
  configurations = none ∷ none ∷ [];
  max_string_idx = 1;
  strings = some (english ∷ []) ∷ some (text 1 0x0409 65 ∷ []) ∷ [];
  device_configuration_index = none;
  qualifier = none;
}

device-HasLanguages : HasLanguages device
unfolding language_string
device-HasLanguages = record {
  first = english;
  found = refl;
  index_zero = refl;
  language_zero = refl;
  header = omega arith;
}

get_string-add_string_example :
    (add_string device (text 3 0x0407 66) >>= λ e. get_string e 3 0x0407)
    ≡ ok (some (text 3 0x0407 66))
get_string-add_string_example =
    get_string-add_string device (text 3 0x0407 66) 3 0x0407 refl device-HasLanguages (omega arith)
      (omega arith) (omega arith)

abbrev config : Configuration
config = record {
  descriptor = record {
    b_length = 9;
    b_descriptor_type = 2;
    w_total_length = 9;
    b_num_interfaces = 0;
    b_configuration_value = 2;
    i_configuration = 0;
    bm_attributes = 0x80;
    b_max_power = 50;
  };
  interface_groups = [];
}

abbrev other_speed : DeviceQualifier
other_speed = record {
  descriptor = record {
    b_length = 10;
    b_descriptor_type = 6;
    bcd_usb = 0x0200;
    b_device_class = 0;
    b_device_sub_class = 0;
    b_device_protocol = 0;
    b_max_packet_size0 = 64;
    b_num_configurations = 1;
  };
  configurations = none ∷ [];
}

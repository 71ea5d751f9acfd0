-- ===== src/Manager/Tests.antt =====
-- A keyboard between a device and a host: the theorems about the manager.
use usbproxy_legacy.Prelude.{
  ℕ, ◌≡◌, ◌≤◌, ◌++◌, get_or, refl, none, some, List, [], ◌∷◌, ◌==◌, if◌then◌else◌, replicate, false,
  arith,
}
use usbproxy_legacy.Descriptors.{EndpointDescriptor}
use usbproxy_legacy.Criteria.{
  criteria_endpoint, criteria_interface, criteria_configuration, criteria_device, pos,
}
use usbproxy_legacy.Usb.Interface.{Interface, ok, get_endpoint_by_idx}
use usbproxy_legacy.Usb.InterfaceGroup.{InterfaceGroup, get_interface}
use usbproxy_legacy.Usb.Configuration.{
  Configuration, get_interface_alternate, get_interface_alternate_count,
}
use usbproxy_legacy.Usb.Device.{Device, get_active_configuration, get_configuration}
use usbproxy_legacy.Manager.{Plugin, Manager, manager, relaying, OwnedEndpoint, record_events}
use usbproxy_legacy.Manager.Control.{start_control_relaying, timed_out}
use usbproxy_legacy.Manager.Stop.{interface_count}
use usbproxy_legacy.Manager.Data.{empty_port, endpoints_of, start_data_relaying}
use usbproxy_legacy.Manager.Plugins.{cleanup}
use usbproxy_legacy.Manager.Arrays.{loaded, delete_all, cleanup-loaded}
use usbproxy_legacy.Manager.Outcome.{Returns}
use usbproxy_legacy.Manager.Started.{Ended, start_control_relaying-Returns}
use usbproxy_legacy.Manager.Configured.{configured, start_data_relaying-configured}

abbrev key_endpoint : EndpointDescriptor
key_endpoint = record {
  b_length = 7;
  b_descriptor_type = 5;
  b_endpoint_address = 0x81;
  bm_attributes = 3;
  w_max_packet_size = 8;
  b_interval = 10;
}

abbrev keyboard : Interface
keyboard = record {
  descriptor = record {
    b_length = 9;
    b_descriptor_type = 4;
    b_interface_number = 0;
    b_alternate_setting = 0;
    b_num_endpoints = 1;
    b_interface_class = 3;
    b_interface_sub_class = 1;
    b_interface_protocol = 1;
    i_interface = 0;
  };
  hid_descriptor = none;
  generic_descriptors = [];
  endpoints = some key_endpoint ∷ [];
}

abbrev key_group : InterfaceGroup
key_group = record {
  number = 0;
  alternate_count = 1;
  interfaces = some keyboard ∷ [];
  active_alternate_index = none;
}

abbrev key_configuration : Configuration
key_configuration = record {
  descriptor = record {
    b_length = 9;
    b_descriptor_type = 2;
    w_total_length = 25;
    b_num_interfaces = 1;
    b_configuration_value = 1;
    i_configuration = 0;
    bm_attributes = 0xa0;
    b_max_power = 50;
  };
  interface_groups = some key_group ∷ [];
}

abbrev key_device : Device
key_device = record {
  descriptor = record {
    b_length = 18;
    b_descriptor_type = 1;
    bcd_usb = 0x0200;
    b_device_class = 0;
    b_device_sub_class = 0;
    b_device_protocol = 0;
    b_max_packet_size0 = 64;
    id_vendor = 0x1d50;
    id_product = 0x6018;
    bcd_device = 0x0100;
    i_manufacturer = 0;
    i_product = 0;
    i_serial_number = 0;
    b_num_configurations = 1;
  };
  configurations = some key_configuration ∷ [];
  max_string_idx = 0;
  strings = none ∷ [];
  device_configuration_index = some 1;
  qualifier = none;
}

abbrev plugin : ℕ → Plugin
plugin name = record {
  name = name;
  endpoint = criteria_endpoint;
  interface = criteria_interface;
  configuration = criteria_configuration;
  device = criteria_device;
}

-- The second filter is for another vendor.
abbrev two_filters : List Plugin
two_filters =
    plugin 1 ∷ record (plugin 2) { device = record criteria_device { vendor = pos 5 } } ∷ []

abbrev ready : Manager
ready = record (loaded manager two_filters (plugin 3 ∷ [])) { stops = false ∷ [] }

abbrev second_time : ℕ → ℕ
second_time k = if k == 0 then timed_out else 0

start_control_relaying-Returns_example :
    Returns
      (Ended key_device two_filters (plugin 3 ∷ []) empty_port (replicate 15 empty_port))
      (start_control_relaying 4 second_time second_time (ok key_device) ready)
unfolding interface_count get_active_configuration get_configuration
start_control_relaying-Returns_example =
    start_control_relaying-Returns key_device 1 4 1 1 second_time second_time ready empty_port
      (replicate 15 empty_port) refl (omega arith) (λ e. absurd (omega (arith, e))) (omega arith)
      (λ e. absurd (omega (arith, e)))
      (record { status = refl; device = refl; threads = refl; ports = refl }) refl

abbrev key_owned : OwnedEndpoint
key_owned = record { descriptor = key_endpoint; interface = some (keyboard.descriptor) }

abbrev controlled : Manager
controlled = record ready { device = some key_device; status = relaying }

start_data_relaying-configured_example :
    Returns
      (λ m'.
        (j : ℕ)
        → 1 ≤ j
        → get_or m'.ports j empty_port
          ≡ configured key_device key_configuration two_filters
              (key_owned ∷ [])
              j
              (get_or (replicate 16 empty_port) j empty_port))
      (start_data_relaying controlled)
unfolding get_active_configuration get_configuration endpoints_of get_endpoint_by_idx
    get_interface_alternate get_interface_alternate_count get_interface
start_data_relaying-configured_example =
    start_data_relaying-configured controlled key_device key_configuration (key_owned ∷ [])
      empty_port (replicate 15 empty_port) refl refl refl refl refl refl

cleanup-loaded_example :
    cleanup 3 (loaded manager two_filters (plugin 3 ∷ []))
    ≡ ok (
        record_events (loaded manager [] []) (delete_all (plugin 3 ∷ []) ++ delete_all two_filters))
cleanup-loaded_example =
    cleanup-loaded 3 manager two_filters (plugin 3 ∷ []) (omega arith) (omega arith)

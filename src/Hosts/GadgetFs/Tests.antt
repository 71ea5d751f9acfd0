-- ===== src/Hosts/GadgetFs/Tests.antt =====
-- src/Plugins/Hosts/HostProxy_GadgetFS.cpp: runs on small inputs.
use usbproxy_legacy.Prelude.{
  ℕ, ◌+◌, ◌≡◌, refl, true, false, none, some, List, [], ◌∷◌, ◌++◌, length, arith,
}
use usbproxy_legacy.Packet.{CtrlRequest}
use usbproxy_legacy.Descriptors.{EndpointDescriptor}
use usbproxy_legacy.Usb.Interface
use usbproxy_legacy.Usb.Interface.{Interface, ok, ◌>>=◌}
use usbproxy_legacy.Usb.InterfaceGroup
use usbproxy_legacy.Usb.InterfaceGroup.{InterfaceGroup}
use usbproxy_legacy.Usb.Configuration
use usbproxy_legacy.Usb.Configuration.{Configuration}
use usbproxy_legacy.Usb.Device
use usbproxy_legacy.Usb.Device.{Device}
use usbproxy_legacy.Devices.Loopback.{device_bytes}
use usbproxy_legacy.Hosts.Kernel.{Kernel, setup, other, in_progress}
use usbproxy_legacy.Hosts.GadgetFs.{GadgetFs, gadget_fs, control_request}
use usbproxy_legacy.Hosts.GadgetFs.Generate.{
  new_interval, generate_descriptor, choose, blocks, block_of, full_block, high_block, patched,
  adjust_interfaces, adjust_interface, adjust_endpoints,
}
use usbproxy_legacy.Hosts.GadgetFs.Endpoints.{set_config}
use usbproxy_legacy.Hosts.GadgetFs.Slots.{Going, IsOpen}
use usbproxy_legacy.Hosts.GadgetFs.Opened.{set_config-IsOpen}
use usbproxy_legacy.Hosts.GadgetFs.Requests.{first_setup, taken, control_request-first}

abbrev endpoint : EndpointDescriptor
endpoint = record {
  b_length = 7;
  b_descriptor_type = 5;
  b_endpoint_address = 0x81;
  bm_attributes = 3;
  w_max_packet_size = 8;
  b_interval = 10;
}

abbrev interface : Interface
interface = record {
  descriptor = record {
    b_length = 9;
    b_descriptor_type = 4;
    b_interface_number = 0;
    b_alternate_setting = 0;
    b_num_endpoints = 1;
    b_interface_class = 3;
    b_interface_sub_class = 0;
    b_interface_protocol = 0;
    i_interface = 0;
  };
  hid_descriptor = none;
  generic_descriptors = [];
  endpoints = some endpoint ∷ [];
}

abbrev pub config : Configuration
config = record {
  descriptor = record {
    b_length = 9;
    b_descriptor_type = 2;
    w_total_length = 25;
    b_num_interfaces = 1;
    b_configuration_value = 1;
    i_configuration = 0;
    bm_attributes = 0xa0;
    b_max_power = 50;
  };
  interface_groups =
      some (record {
        number = 0;
        alternate_count = 1;
        interfaces = some interface ∷ [];
        active_alternate_index = some 0;
      })
      ∷ [];
}

abbrev mouse : Device
mouse = record {
  descriptor = record {
    b_length = 18;
    b_descriptor_type = 1;
    bcd_usb = 0x200;
    b_device_class = 0;
    b_device_sub_class = 0;
    b_device_protocol = 0;
    b_max_packet_size0 = 8;
    id_vendor = 0x46d;
    id_product = 0xc077;
    bcd_device = 0x7200;
    i_manufacturer = 0;
    i_product = 0;
    i_serial_number = 0;
    b_num_configurations = 1;
  };
  configurations = some config ∷ [];
  max_string_idx = 0;
  strings = [];
  device_configuration_index = some 1;
  qualifier = none;
}

-- The interval of 10 milliseconds becomes 7, 64 microframes.
abbrev full_bytes : ℕ → List ℕ
full_bytes interval =
    9 ∷ 2 ∷ 25 ∷ 0 ∷ 1 ∷ 1 ∷ 0 ∷ 0x80 ∷ 50 ∷ 9 ∷ 4 ∷ 0 ∷ 0 ∷ 1 ∷ 3 ∷ 0 ∷ 0 ∷ 0 ∷ 7 ∷ 5 ∷ 0x81 ∷ 3
    ∷ 8 ∷ 0 ∷ interval ∷ []

abbrev mouse_bytes : List ℕ
mouse_bytes =
    18 ∷ 1 ∷ 0 ∷ 2 ∷ 0 ∷ 0 ∷ 0 ∷ 8 ∷ 0x6d ∷ 0x04 ∷ 0x77 ∷ 0xc0 ∷ 0 ∷ 0x72 ∷ 0 ∷ 0 ∷ 0 ∷ 1 ∷ []

generated :
    generate_descriptor false mouse
    ≡ ok ((0 ∷ 0 ∷ 0 ∷ 0 ∷ []) ++ (full_bytes 10 ++ (full_bytes 7 ++ mouse_bytes)))
unfolding generate_descriptor blocks block_of full_block high_block patched adjust_interfaces
    adjust_interface adjust_endpoints choose device_bytes new_interval Device.get_configuration
    Configuration.get_full_descriptor_length Configuration.get_full_descriptor
    Configuration.get_interface InterfaceGroup.get_active_interface
generated = refl

abbrev get_status : CtrlRequest
get_status = record { b_request_type = 0x80; b_request = 0; w_value = 0; w_index = 0; w_length = 2 }

abbrev get_configuration : CtrlRequest
get_configuration = record {
  b_request_type = 0x80;
  b_request = 8;
  w_value = 0;
  w_index = 0;
  w_length = 1;
}

-- Every file opens; two requests arrive at once.
abbrev linux : Kernel ℕ
linux = record {
  mounts = λ e. [];
  mount = λ e n d. e;
  umount2 = λ e d. e;
  mkdtemp = λ e t. (e, t);
  rmdir = λ e d. e;
  read_dir = λ e d. none;
  open_file = λ e n. (e + 1, some (e + 3));
  close = λ e fd. e;
  write = λ e fd bytes. (e, some (length bytes));
  read = λ e fd n. (e, some []);
  poll_in = λ e fd t. (e, true);
  read_events = λ e fd. (e, some (other ∷ setup get_status ∷ setup get_configuration ∷ []));
  aio_write = λ e a. (e, true);
  aio_read = λ e a. (e, true);
  aio_cancel = λ e a. e;
  aio_error = λ e a. in_progress;
  aio_suspend = λ e a t. (e, false);
  aio_return_write = λ e a. (e, none);
  aio_return_read = λ e a. (e, none);
}

abbrev gadget : GadgetFs
gadget = (gadget_fs linux 0).1

abbrev running : GadgetFs
running = record gadget { connected = true; device_file = some 3; device_filename = some (97 ∷ []) }

control_request-first_example :
    control_request linux 0 running 500
    ≡ taken linux 0 running (first_setup (other ∷ setup get_status ∷ setup get_configuration ∷ []))
control_request-first_example =
    control_request-first linux 0 running 500 3
      (other ∷ setup get_status ∷ setup get_configuration ∷ []) refl refl refl

set_config-IsOpen_example : Going (IsOpen 1) (set_config linux false config none 0 running)
set_config-IsOpen_example =
    set_config-IsOpen linux false endpoint refl config none interface 0 0 0 0 running (omega arith)
      (unfold Configuration.get_interface_alternate_count in omega arith)
      (unfold Configuration.get_interface_alternate InterfaceGroup.get_interface in refl)
      (omega arith) (unfold Interface.get_endpoint_by_idx in refl) (unfold gadget_fs in refl)

-- ===== src/Criteria/Tests.antt =====
-- The criteria at a bulk IN endpoint of a full-speed device.
use usbproxy_legacy.Descriptors.{
  EndpointDescriptor, InterfaceDescriptor, ConfigDescriptor, DeviceDescriptor,
}
use usbproxy_legacy.Criteria.{criteria_endpoint, CriteriaEndpoint}

abbrev endpoint : EndpointDescriptor
endpoint = record {
  b_length = 7;
  b_descriptor_type = 5;
  b_endpoint_address = 0x81;
  bm_attributes = 2;
  w_max_packet_size = 64;
  b_interval = 0;
}

abbrev interface : InterfaceDescriptor
interface = record {
  b_length = 9;
  b_descriptor_type = 4;
  b_interface_number = 0;
  b_alternate_setting = 0;
  b_num_endpoints = 1;
  b_interface_class = 8;
  b_interface_sub_class = 6;
  b_interface_protocol = 80;
  i_interface = 0;
}

abbrev config : ConfigDescriptor
config = record {
  b_length = 9;
  b_descriptor_type = 2;
  w_total_length = 25;
  b_num_interfaces = 1;
  b_configuration_value = 1;
  i_configuration = 0;
  bm_attributes = 0x80;
  b_max_power = 50;
}

abbrev device : DeviceDescriptor
device = record {
  b_length = 18;
  b_descriptor_type = 1;
  bcd_usb = 0x200;
  b_device_class = 0;
  b_device_sub_class = 0;
  b_device_protocol = 0;
  b_max_packet_size0 = 64;
  id_vendor = 0x1d50;
  id_product = 0x6000;
  bcd_device = 1;
  i_manufacturer = 1;
  i_product = 2;
  i_serial_number = 0;
  b_num_configurations = 1;
}

-- Only IN endpoints, as the UDP HID filter asks for.
abbrev in_only : CriteriaEndpoint
in_only = record criteria_endpoint { address = 0x80; address_mask = 0x80 }

-- ===== src/Descriptors.antt =====
-- The descriptors of linux/usb/ch9.h as records, in the order of their fields, and the packed
-- little-endian bytes that a `memcpy` of such a struct reads and writes.
use usbproxy_legacy.Prelude.{ℕ, ◌/◌, ◌%◌, List, [], ◌∷◌}

pub record EndpointDescriptor : Type 0 where
  pub b_length : ℕ
  pub b_descriptor_type : ℕ
  pub b_endpoint_address : ℕ
  pub bm_attributes : ℕ
  pub w_max_packet_size : ℕ
  pub b_interval : ℕ

pub record InterfaceDescriptor : Type 0 where
  pub b_length : ℕ
  pub b_descriptor_type : ℕ
  pub b_interface_number : ℕ
  pub b_alternate_setting : ℕ
  pub b_num_endpoints : ℕ
  pub b_interface_class : ℕ
  pub b_interface_sub_class : ℕ
  pub b_interface_protocol : ℕ
  pub i_interface : ℕ

pub record ConfigDescriptor : Type 0 where
  pub b_length : ℕ
  pub b_descriptor_type : ℕ
  pub w_total_length : ℕ
  pub b_num_interfaces : ℕ
  pub b_configuration_value : ℕ
  pub i_configuration : ℕ
  pub bm_attributes : ℕ
  pub b_max_power : ℕ

pub record DeviceDescriptor : Type 0 where
  pub b_length : ℕ
  pub b_descriptor_type : ℕ
  pub bcd_usb : ℕ
  pub b_device_class : ℕ
  pub b_device_sub_class : ℕ
  pub b_device_protocol : ℕ
  pub b_max_packet_size0 : ℕ
  pub id_vendor : ℕ
  pub id_product : ℕ
  pub bcd_device : ℕ
  pub i_manufacturer : ℕ
  pub i_product : ℕ
  pub i_serial_number : ℕ
  pub b_num_configurations : ℕ

pub record QualifierDescriptor : Type 0 where
  pub b_length : ℕ
  pub b_descriptor_type : ℕ
  pub bcd_usb : ℕ
  pub b_device_class : ℕ
  pub b_device_sub_class : ℕ
  pub b_device_protocol : ℕ
  pub b_max_packet_size0 : ℕ
  pub b_num_configurations : ℕ

-- The two bytes of a `__le16`.
abbrev pub low_byte : ℕ → ℕ
low_byte w = w % 256

abbrev pub high_byte : ℕ → ℕ
high_byte w = w / 256 % 256

unfoldable pub endpoint_bytes : EndpointDescriptor → List ℕ
endpoint_bytes d =
    d.b_length
    ∷ d.b_descriptor_type
    ∷ d.b_endpoint_address
    ∷ d.bm_attributes
    ∷ low_byte d.w_max_packet_size
    ∷ high_byte d.w_max_packet_size
    ∷ d.b_interval
    ∷ []

unfoldable pub interface_bytes : InterfaceDescriptor → List ℕ
interface_bytes d =
    d.b_length ∷ d.b_descriptor_type ∷ d.b_interface_number ∷ d.b_alternate_setting
    ∷ d.b_num_endpoints ∷ d.b_interface_class ∷ d.b_interface_sub_class ∷ d.b_interface_protocol
    ∷ d.i_interface ∷ []

unfoldable pub config_bytes : ConfigDescriptor → List ℕ
config_bytes d =
    d.b_length
    ∷ d.b_descriptor_type
    ∷ low_byte d.w_total_length
    ∷ high_byte d.w_total_length
    ∷ d.b_num_interfaces
    ∷ d.b_configuration_value
    ∷ d.i_configuration
    ∷ d.bm_attributes
    ∷ d.b_max_power
    ∷ []

-- ===== src/Criteria.antt =====
-- src/lib/Criteria.h and src/lib/Criteria.cpp: which endpoints, interfaces, configurations and
-- devices a filter or an injector is attached to.
mod Tests
use Prim.Native.Nat.{bit_and-bitwise}
use usbproxy_legacy.Prelude.{
  ℕ, zero, suc, ◌<◌, ◌≤◌, ◌≡◌, ◌↔◌, refl, Bool, true, false, not, ◌&&◌, ◌||◌, ltb, ◌==◌, ◌/=◌,
  if◌then◌else◌, bit_and, arith,
}
use usbproxy_legacy.Descriptors.{
  EndpointDescriptor, InterfaceDescriptor, ConfigDescriptor, DeviceDescriptor,
}

-- A C `short` or `int`; `negsuc n` is -(n + 1).
pub data ℤ : Type 0 where
  pos : ℕ → ℤ
  negsuc : ℕ → ℤ

abbrev any_value : ℤ
any_value = negsuc 0

-- `field != -1 && field != value`.
differs : ℤ → ℕ → Bool
differs (pos n) v = n /= v
differs (negsuc zero) v = false
differs (negsuc (suc n)) v = true

pub record CriteriaEndpoint : Type 0 where
  pub address : ℕ
  pub address_mask : ℕ
  pub attributes : ℕ
  pub attributes_mask : ℕ
  pub packet_size_min : ℕ
  pub packet_size_max : ℕ
  pub interval_min : ℕ
  pub interval_max : ℕ

pub record CriteriaInterface : Type 0 where
  pub number : ℤ
  pub alternate : ℤ
  pub device_class : ℤ
  pub sub_class : ℤ
  pub protocol : ℤ

pub record CriteriaConfiguration : Type 0 where
  pub number : ℤ
  pub attributes : ℕ
  pub attributes_mask : ℕ

pub record CriteriaDevice : Type 0 where
  pub device_class : ℤ
  pub sub_class : ℤ
  pub protocol : ℤ
  pub ep0packet_size_min : ℕ
  pub ep0packet_size_max : ℕ
  pub vendor : ℤ
  pub product : ℤ
  pub release : ℤ

-- The constructors of the four structs.
abbrev pub criteria_endpoint : CriteriaEndpoint
criteria_endpoint = record {
  address = 0;
  address_mask = 0;
  attributes = 0;
  attributes_mask = 0;
  packet_size_min = 0;
  packet_size_max = 65535;
  interval_min = 0;
  interval_max = 255;
}

abbrev pub criteria_interface : CriteriaInterface
criteria_interface = record {
  number = any_value;
  alternate = any_value;
  device_class = any_value;
  sub_class = any_value;
  protocol = any_value;
}

abbrev pub criteria_configuration : CriteriaConfiguration
criteria_configuration = record { number = any_value; attributes = 0; attributes_mask = 0 }

abbrev pub criteria_device : CriteriaDevice
criteria_device = record {
  device_class = any_value;
  sub_class = any_value;
  protocol = any_value;
  ep0packet_size_min = 0;
  ep0packet_size_max = 255;
  vendor = any_value;
  product = any_value;
  release = any_value;
}

pub test_endpoint : CriteriaEndpoint → EndpointDescriptor → Bool
test_endpoint c desc =
    if bit_and c.address_mask c.address /= bit_and c.address_mask desc.b_endpoint_address
    then false
    else if bit_and c.attributes_mask c.attributes /= bit_and c.attributes_mask desc.bm_attributes
    then false
    else if ltb desc.w_max_packet_size c.packet_size_min
        || ltb c.packet_size_max desc.w_max_packet_size
    then false
    else if ltb desc.b_interval c.interval_min || ltb c.interval_max desc.b_interval
    then false
    else true

pub test_interface : CriteriaInterface → InterfaceDescriptor → Bool
unfolding differs
test_interface c desc =
    if differs c.number desc.b_interface_number
    then false
    else if differs c.alternate desc.b_alternate_setting
    then false
    else if differs c.device_class desc.b_interface_class
    then false
    else if differs c.sub_class desc.b_interface_sub_class
    then false
    else if differs c.protocol desc.b_interface_protocol
    then false
    else true

pub test_configuration : CriteriaConfiguration → ConfigDescriptor → Bool
unfolding differs
test_configuration c desc =
    if differs c.number desc.b_configuration_value
    then false
    else if bit_and c.attributes_mask c.attributes /= bit_and c.attributes_mask desc.bm_attributes
    then false
    else true

pub test_device : CriteriaDevice → DeviceDescriptor → Bool
unfolding differs
test_device c desc =
    if differs c.device_class desc.b_device_class
    then false
    else if differs c.sub_class desc.b_device_sub_class
    then false
    else if differs c.protocol desc.b_device_protocol
    then false
    else if ltb desc.b_max_packet_size0 c.ep0packet_size_min
        || ltb c.ep0packet_size_max desc.b_max_packet_size0
    then false
    else if differs c.vendor desc.id_vendor
    then false
    else if differs c.product desc.id_product
    then false
    else if differs c.release desc.bcd_device
    then false
    else true

-- Criteria as they are constructed accept every endpoint, interface, configuration and device whose
-- fields are bytes and words.
default_accepts :
    (e : EndpointDescriptor) (i : InterfaceDescriptor) (c : ConfigDescriptor) (d : DeviceDescriptor)
    → e.w_max_packet_size < 65536
    → e.b_interval < 256
    → d.b_max_packet_size0 < 256
    → (test_endpoint criteria_endpoint e ≡ true)
      × (test_interface criteria_interface i ≡ true)
      × (test_configuration criteria_configuration c ≡ true)
      × (test_device criteria_device d ≡ true)
unfolding test_endpoint test_interface test_configuration test_device
default_accepts e i c d hs hi hp = (
  ground (arith, bit_and-bitwise 0 e.b_endpoint_address, bit_and-bitwise 0 e.bm_attributes),
  refl,
  ground (arith, bit_and-bitwise 0 c.bm_attributes),
  ground arith,
)

-- The endpoint test accepts exactly the endpoints whose masked address and attributes are those of
-- the criteria, and whose packet size and interval lie in the two ranges.
pub test_endpoint_iff :
    (c : CriteriaEndpoint) (e : EndpointDescriptor)
    → (test_endpoint c e ≡ true) ↔ (
        (bit_and c.address_mask c.address ≡ bit_and c.address_mask e.b_endpoint_address)
        × (bit_and c.attributes_mask c.attributes ≡ bit_and c.attributes_mask e.bm_attributes)
        × (c.packet_size_min ≤ e.w_max_packet_size)
        × (e.w_max_packet_size ≤ c.packet_size_max)
        × (c.interval_min ≤ e.b_interval)
        × (e.b_interval ≤ c.interval_max))
unfolding test_endpoint
test_endpoint_iff c e = (λ h. ground arith, λ h. ground arith)

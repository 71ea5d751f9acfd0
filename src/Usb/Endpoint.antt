-- ===== src/Usb/Endpoint.antt =====
-- src/lib/Endpoint.h, src/lib/Endpoint.cpp: an endpoint is its descriptor. The pointer to the
-- interface is left out: the owner is known wherever it is used.
use usbproxy_legacy.Prelude.{
  ℕ, ◌+◌, ◌*◌, ◌≡◌, ◌≢◌, ◌⊎◌, ◌↔◌, ◌&&◌, ◌||◌, List, ◌==◌, ◌/=◌, if◌then◌else◌, get_or, take,
  bit_and, has_bits, arith,
}
use usbproxy_legacy.Descriptors.{EndpointDescriptor, endpoint_bytes}
use usbproxy_legacy.Usb.Errors.{
  DefinitionError, no_error, invalid_descriptor, endpoint_object, defined, definition_error,
}

-- The constructor from bytes copies seven of them.
unfoldable pub parse : List ℕ → EndpointDescriptor
parse p = record {
  b_length = get_or p 0 0;
  b_descriptor_type = get_or p 1 0;
  b_endpoint_address = get_or p 2 0;
  bm_attributes = get_or p 3 0;
  w_max_packet_size = get_or p 4 0 + get_or p 5 0 * 256;
  b_interval = get_or p 6 0;
}

-- The constructor from an address, attributes, packet size and interval.
endpoint_of : ℕ → ℕ → ℕ → ℕ → EndpointDescriptor
endpoint_of address attributes size interval = record {
  b_length = 7;
  b_descriptor_type = 5;
  b_endpoint_address = address;
  bm_attributes = attributes;
  w_max_packet_size = size;
  b_interval = interval;
}

unfoldable pub get_full_descriptor_length : EndpointDescriptor → ℕ
get_full_descriptor_length d = d.b_length

-- The bytes that `get_full_descriptor` writes.
unfoldable pub get_full_descriptor : EndpointDescriptor → List ℕ
unfolding endpoint_bytes
get_full_descriptor d = take d.b_length (endpoint_bytes d)

unfoldable pub is_defined : EndpointDescriptor → ℕ → ℕ → ℕ → DefinitionError
is_defined d config ifc alternate =
    let invalid = λ (detail : ℕ).
      definition_error invalid_descriptor detail endpoint_object config ifc alternate
        d.b_endpoint_address in
    if d.b_length /= 7
    then invalid 1
    else if d.b_descriptor_type /= 5
    then invalid 2
    else if has_bits d.b_endpoint_address 0x70
    then invalid 3
    else if has_bits d.bm_attributes 0xc0
        || (bit_and d.bm_attributes 0x03 /= 1 && has_bits d.bm_attributes 0xfc)
    then invalid 4
    else if (bit_and d.bm_attributes 0x03 == 1 && d.b_interval /= 1)
        || (bit_and d.bm_attributes 0x03 == 3 && d.b_interval == 1)
    then invalid 5
    else defined

-- What the checks of is_defined come to: the length and type of an endpoint descriptor; no reserved bit of the
-- address or the attributes, and only the transfer type unless it is isochronous; an interval of 1
-- if it is isochronous, and not of 1 if it is an interrupt endpoint.
pub record IsDefined (d : EndpointDescriptor) : Type 0 where
  pub b_length : d.b_length ≡ 7
  pub b_type : d.b_descriptor_type ≡ 5
  pub address : bit_and d.b_endpoint_address 0x70 ≡ 0
  pub reserved : bit_and d.bm_attributes 0xc0 ≡ 0
  pub type_only : (bit_and d.bm_attributes 0x03 ≡ 1) ⊎ (bit_and d.bm_attributes 0xfc ≡ 0)
  pub isochronous : (bit_and d.bm_attributes 0x03 ≢ 1) ⊎ (d.b_interval ≡ 1)
  pub interrupt : (bit_and d.bm_attributes 0x03 ≢ 3) ⊎ (d.b_interval ≢ 1)

-- is_defined finds no error exactly if the descriptor meets these conditions.
pub endpoint_is_defined_iff :
    (d : EndpointDescriptor) (config ifc alternate : ℕ)
    → ((is_defined d config ifc alternate).error ≡ no_error) ↔ IsDefined d
unfolding is_defined
endpoint_is_defined_iff d config ifc alternate = (λ h. ground arith, λ h. ground arith)

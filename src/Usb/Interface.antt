-- ===== src/Usb/Interface.antt =====
-- src/lib/Interface.h, src/lib/Interface.cpp, src/lib/HID.h and src/lib/HID.cpp: an interface with
-- its endpoints, its HID descriptor and its other descriptors. The pointer to the configuration is
-- left out.
pub mod Bytes
pub mod Parts
pub mod RoundTrip
pub mod Defined
pub mod Generics
use usbproxy_legacy.Prelude.{
  ℕ, zero, suc, ◌+◌, ◌*◌, ◌-◌, ◌%◌, ◌^◌, Bool, true, false, ◌&&◌, ◌||◌, Option, none, some, List,
  [], ◌∷◌, ◌++◌, ◌==◌, ◌/=◌, ltb, if◌then◌else◌, get_or, set, length, take, drop, replicate,
}
use usbproxy_legacy.Descriptors.{
  EndpointDescriptor, InterfaceDescriptor, interface_bytes, low_byte, high_byte,
}
use usbproxy_legacy.Usb.Errors.{
  DefinitionError, DeError, invalid_descriptor, null_object, DeObjType, interface_object,
  endpoint_object, defined, definition_error, or_else,
}
use usbproxy_legacy.Usb.Endpoint

-- `endpoints` has one slot for each of `bNumEndpoints`; a null slot is `none`. A HID or a generic
-- descriptor is its bytes, the first of which is its length.
pub record Interface : Type 0 where
  pub descriptor : InterfaceDescriptor
  pub hid_descriptor : Option (List ℕ)
  pub generic_descriptors : List (List ℕ)
  pub endpoints : List (Option EndpointDescriptor)

-- The constructor from a descriptor, and the one from its fields.
pub interface_of : InterfaceDescriptor → Interface
interface_of d = record {
  descriptor = d;
  hid_descriptor = none;
  generic_descriptors = [];
  endpoints = replicate d.b_num_endpoints none;
}

-- How a constructor from bytes ends. A descriptor of length 0 would keep the loop in place for
-- ever: `no_fuel`. An array is accessed out of bounds: `overflow`; a null pointer is followed:
-- `null_pointer`; a request to the device fails and the program exits: `failed`.
pub data Parsed (A : Type 0) : Type 0 where
  ok : A → Parsed A
  overflow null_pointer failed no_fuel : Parsed A

infixl 5 ◌>>=◌
abbrev pub ◌>>=◌ : {A B : Type 0} → Parsed A → (A → Parsed B) → Parsed B
ok a >>= f = f a
overflow >>= f = overflow
null_pointer >>= f = null_pointer
failed >>= f = failed
no_fuel >>= f = no_fuel

-- `memcpy(&descriptor, p, p[0])`, for a descriptor of at most nine bytes.
pub parse_descriptor : List ℕ → InterfaceDescriptor
parse_descriptor p = record {
  b_length = get_or p 0 0;
  b_descriptor_type = get_or p 1 0;
  b_interface_number = get_or p 2 0;
  b_alternate_setting = get_or p 3 0;
  b_num_endpoints = get_or p 4 0;
  b_interface_class = get_or p 5 0;
  b_interface_sub_class = get_or p 6 0;
  b_interface_protocol = get_or p 7 0;
  i_interface = get_or p 8 0;
}

-- The first `bLength` bytes, and the bytes behind them.
abbrev pub chunk : List ℕ → List ℕ
chunk p = take (get_or p 0 0) p

abbrev pub behind : List ℕ → List ℕ
behind p = drop (get_or p 0 0) p

abbrev pub at_end : List ℕ → Bool
at_end [] = true
at_end (b ∷ p) = false

-- The first loop: descriptors before the interface descriptor are generic ones. The list is what
-- stands between `*p` and `e`; the type byte of an empty rest, which the code reads before it looks
-- at `e`, is taken for another than 4.
pub parse_leading : ℕ → List ℕ → List (List ℕ) → Parsed (List (List ℕ) × List ℕ)
parse_leading zero p gs = no_fuel
parse_leading (suc n) p gs =
    let more = parse_leading n (behind p) (gs ++ (chunk p ∷ [])) in
    if get_or p 1 0 == 4 || at_end p then ok (gs, p) else more

-- One round of the second loop: `ep` is the index of the next slot.
pub add_descriptor : ℕ → List ℕ → Interface → Parsed (ℕ × Interface)
add_descriptor ep p i =
    if get_or p 1 0 == 5
    then (if ltb ep (length i.endpoints)
        then ok (ep + 1, record i { endpoints = set i.endpoints ep (some (Endpoint.parse p)) })
        else overflow)
    else if get_or p 1 0 == 0x21
    then ok (ep, record i { hid_descriptor = some (chunk p) })
    else ok (ep, record i { generic_descriptors = i.generic_descriptors ++ (chunk p ∷ []) })

-- The second loop, up to the next interface descriptor or the end.
pub parse_body : ℕ → ℕ → List ℕ → Interface → Parsed (Interface × List ℕ)
parse_body zero ep p i = no_fuel
parse_body (suc n) ep p i =
    let more = add_descriptor ep p i >>= λ r. parse_body n r.0 (behind p) r.1 in
    if at_end p || get_or p 1 0 == 4 then ok (i, p) else more

-- `Interface(configuration, &p, e)`, with fuel for the rounds of each loop.
pub parse : ℕ → List ℕ → Parsed (Interface × List ℕ)
parse n p = parse_leading n p [] >>= λ r.
    let d = parse_descriptor r.1 in
    parse_body n 0 (behind r.1) (record {
      descriptor = d;
      hid_descriptor = none;
      generic_descriptors = r.0;
      endpoints = replicate d.b_num_endpoints none;
    })

-- The constructor of a HID descriptor from its fields; the records are given as bytes, three each.
hid_of : ℕ → ℕ → ℕ → List ℕ → List ℕ
hid_of bcd_hid country num records =
    (6 + num * 3) % 256
    ∷ 0x21
    ∷ low_byte bcd_hid
    ∷ high_byte bcd_hid
    ∷ country
    ∷ num
    ∷ take (num * 3) records

-- The sums and the bytes of the parts.
pub length_hid : Option (List ℕ) → ℕ
length_hid none = 0
length_hid (some h) = get_or h 0 0

pub length_generics : List (List ℕ) → ℕ
length_generics [] = 0
length_generics (g ∷ gs) = get_or g 0 0 + length_generics gs

pub length_endpoints : List (Option EndpointDescriptor) → ℕ
unfolding Endpoint.get_full_descriptor_length
length_endpoints [] = 0
length_endpoints (none ∷ es) = length_endpoints es
length_endpoints (some e ∷ es) = Endpoint.get_full_descriptor_length e + length_endpoints es

unfoldable pub get_full_descriptor_length : Interface → ℕ
unfolding length_hid length_generics length_endpoints
get_full_descriptor_length i =
    i.descriptor.b_length
    + length_hid i.hid_descriptor
    + length_generics i.generic_descriptors
    + length_endpoints i.endpoints

pub write_hid : Option (List ℕ) → List ℕ
write_hid none = []
write_hid (some h) = chunk h

pub write_generics : List (List ℕ) → List ℕ
write_generics [] = []
write_generics (g ∷ gs) = chunk g ++ write_generics gs

unfoldable pub write_endpoints : List (Option EndpointDescriptor) → List ℕ
unfolding Endpoint.get_full_descriptor
write_endpoints [] = []
write_endpoints (none ∷ es) = write_endpoints es
write_endpoints (some e ∷ es) = Endpoint.get_full_descriptor e ++ write_endpoints es

-- The bytes that `get_full_descriptor` writes.
unfoldable pub get_full_descriptor : Interface → List ℕ
unfolding interface_bytes write_hid write_generics write_endpoints
get_full_descriptor i =
    take i.descriptor.b_length (interface_bytes i.descriptor)
    ++ (write_hid i.hid_descriptor
        ++ (write_generics i.generic_descriptors ++ write_endpoints i.endpoints))

-- The first free slot, or the one of the same address; a full array leaves the endpoint out.
add_to_slots :
    List (Option EndpointDescriptor) → EndpointDescriptor → List (Option EndpointDescriptor)
add_to_slots [] e = []
add_to_slots (none ∷ es) e = some e ∷ es
add_to_slots (some d ∷ es) e =
    if d.b_endpoint_address == e.b_endpoint_address then some e ∷ es else some d ∷ add_to_slots es e

add_endpoint : Interface → EndpointDescriptor → Interface
add_endpoint i e = record i { endpoints = add_to_slots i.endpoints e }

-- The array is not made larger and its count stays: the last descriptor is replaced, and without
-- one the write is before the array.
pub add_generic_descriptor : Interface → List ℕ → Parsed Interface
add_generic_descriptor i g = elim i.generic_descriptors [
  | [] ↦ overflow
  | h ∷ gs ↦ ok (record i { generic_descriptors = set (h ∷ gs) (length gs) (chunk g) })
]

slot : List (Option EndpointDescriptor) → ℕ → Option EndpointDescriptor
slot [] n = none
slot (e ∷ es) zero = e
slot (e ∷ es) (suc n) = slot es n

unfoldable pub get_endpoint_by_idx : Interface → ℕ → Option EndpointDescriptor
unfolding slot
get_endpoint_by_idx i n = if ltb n i.descriptor.b_num_endpoints then slot i.endpoints n else none

-- `none` inside: the code follows a null slot; outside: no such endpoint.
find_address : List (Option EndpointDescriptor) → ℕ → Option (Option EndpointDescriptor)
find_address [] a = some none
find_address (none ∷ es) a = none
find_address (some d ∷ es) a =
    if d.b_endpoint_address == a then some (some d) else find_address es a

pub endpoints_defined : List (Option EndpointDescriptor) → ℕ → ℕ → ℕ → ℕ → DefinitionError
unfolding Endpoint.is_defined
endpoints_defined [] n config ifc alternate = defined
endpoints_defined (none ∷ es) n config ifc alternate =
    definition_error null_object 0 endpoint_object config ifc alternate n
endpoints_defined (some e ∷ es) n config ifc alternate =
    or_else (Endpoint.is_defined e config ifc alternate)
      (endpoints_defined es (n + 1) config ifc alternate)

unfoldable pub is_defined : Interface → ℕ → ℕ → DefinitionError
unfolding endpoints_defined
is_defined i config ifc =
    let invalid = λ (detail : ℕ).
      definition_error invalid_descriptor detail interface_object config ifc
        i.descriptor.b_alternate_setting 0 in
    if i.descriptor.b_length /= 9
    then invalid 1
    else if i.descriptor.b_descriptor_type /= 4
    then invalid 2
    else endpoints_defined i.endpoints 0 config ifc i.descriptor.b_alternate_setting

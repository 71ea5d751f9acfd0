-- ===== src/Usb/Interface/Bytes.antt =====
-- src/lib/Interface.cpp: get_full_descriptor fills exactly the space that
-- get_full_descriptor_length announces.
use usbproxy_legacy.Prelude.{
  ℕ, ◌≤◌, ◌≡◌, refl, Option, none, some, List, [], ◌∷◌, ◌++◌, get_or, length, take, length-append,
  length-take, All, Given, arith,
}
use usbproxy_legacy.Descriptors.{EndpointDescriptor, interface_bytes, endpoint_bytes}
use usbproxy_legacy.Usb.Endpoint
use usbproxy_legacy.Usb.Interface.{
  Interface, chunk, length_hid, length_generics, length_endpoints, get_full_descriptor_length,
  write_hid, write_generics, write_endpoints, get_full_descriptor,
}

-- The bytes are all there that the first of them counts.
abbrev pub IsLong : List ℕ → Type 0
IsLong g = get_or g 0 0 ≤ length g

-- No descriptor claims to be longer than what is stored of it.
pub record IsStored (i : Interface) : Type 0 where
  pub header : i.descriptor.b_length ≤ 9
  pub hid : Given IsLong i.hid_descriptor
  pub generics : All IsLong i.generic_descriptors
  pub slots : All (Given (λ (e : EndpointDescriptor). e.b_length ≤ 7)) i.endpoints

length-chunk : (g : List ℕ) → IsLong g → length (chunk g) ≡ get_or g 0 0
length-chunk g h = omega (arith, length-take (get_or g 0 0) g)

pub length-write_hid : (o : Option (List ℕ)) → Given IsLong o → length (write_hid o) ≡ length_hid o
unfolding write_hid length_hid
length-write_hid none h = refl
length-write_hid (some g) h = length-chunk g h

pub length-write_generics :
    (gs : List (List ℕ)) → All IsLong gs → length (write_generics gs) ≡ length_generics gs
unfolding write_generics length_generics
length-write_generics [] h = refl
length-write_generics (g ∷ gs) h = omega (
  arith,
  length-append (chunk g) (write_generics gs),
  length-chunk g h.0,
  length-write_generics gs h.1,
)

length-endpoint :
    (e : EndpointDescriptor)
    → e.b_length ≤ 7
    → length (Endpoint.get_full_descriptor e) ≡ Endpoint.get_full_descriptor_length e
unfolding Endpoint.get_full_descriptor Endpoint.get_full_descriptor_length endpoint_bytes
length-endpoint e h = omega (arith, length-take e.b_length (endpoint_bytes e))

length-write_endpoints :
    (es : List (Option EndpointDescriptor))
    → All (Given (λ (e : EndpointDescriptor). e.b_length ≤ 7)) es
    → length (write_endpoints es) ≡ length_endpoints es
unfolding write_endpoints length_endpoints
length-write_endpoints [] h = refl
length-write_endpoints (none ∷ es) h = length-write_endpoints es h.1
length-write_endpoints (some e ∷ es) h = omega (
  arith,
  length-append (Endpoint.get_full_descriptor e) (write_endpoints es),
  length-endpoint e h.0,
  length-write_endpoints es h.1,
)

pub length-header :
    (i : Interface)
    → i.descriptor.b_length ≤ 9
    → length (take i.descriptor.b_length (interface_bytes i.descriptor)) ≡ i.descriptor.b_length
unfolding interface_bytes
length-header i h = omega (arith, length-take i.descriptor.b_length (interface_bytes i.descriptor))

-- If no descriptor claims to be longer than what is stored of it, get_full_descriptor writes
-- exactly get_full_descriptor_length bytes.
pub length-get_full_descriptor :
    (i : Interface) → IsStored i → length (get_full_descriptor i) ≡ get_full_descriptor_length i
unfolding get_full_descriptor get_full_descriptor_length
length-get_full_descriptor i h =
    let hid = write_hid i.hid_descriptor in
    let generics = write_generics i.generic_descriptors in
    let endpoints = write_endpoints i.endpoints in
    omega (
      arith,
      length-append (take i.descriptor.b_length (interface_bytes i.descriptor))
          (hid ++ (generics ++ endpoints)),
      length-append hid (generics ++ endpoints),
      length-append generics endpoints,
      length-header i h.header,
      length-write_hid i.hid_descriptor h.hid,
      length-write_generics i.generic_descriptors h.generics,
      length-write_endpoints i.endpoints h.slots,
    )

-- ===== src/Usb/Interface/Parts.antt =====
-- src/lib/Interface.cpp: one round of the constructor from bytes over each kind of descriptor that
-- get_full_descriptor writes.
use usbproxy_legacy.Prelude.{
  ℕ, suc, ◌+◌, ◌≤◌, ◌<◌, ◌≡◌, ◌≢◌, refl, ap, ◌∙◌, sym, Bool, false, ◌||◌, Option, none, some, List,
  [], ◌∷◌, ◌++◌, map, ◌==◌, get_or, length, length-append, take, drop, append_assoc, append-nil,
  set-append, take-append, drop-append, All, Given, arith,
}
use usbproxy_legacy.Descriptors.{EndpointDescriptor, endpoint_bytes}
use usbproxy_legacy.Usb.Endpoint
use usbproxy_legacy.Usb.Interface.{
  Interface, ok, ◌>>=◌, chunk, behind, at_end, add_descriptor, parse_body, write_generics,
  write_endpoints,
}

-- A descriptor other than an endpoint, an interface or a HID: its length byte is right, and it has
-- a type byte.
pub record IsGeneric (g : List ℕ) : Type 0 where
  pub own_length : get_or g 0 0 ≡ length g
  pub type_byte : 2 ≤ length g
  pub interface_type : get_or g 1 0 ≢ 4
  pub endpoint_type : get_or g 1 0 ≢ 5
  pub hid_type : get_or g 1 0 ≢ 0x21

pub record IsHid (h : List ℕ) : Type 0 where
  pub own_length : get_or h 0 0 ≡ length h
  pub type_byte : 2 ≤ length h
  pub hid_type : get_or h 1 0 ≡ 0x21

pub record IsEndpoint (e : EndpointDescriptor) : Type 0 where
  pub b_length : e.b_length ≡ 7
  pub b_type : e.b_descriptor_type ≡ 5
  pub packet_size : e.w_max_packet_size < 65536

-- Each endpoint slot is filled, and each descriptor has the length and the type that USB 2.0 gives
-- it.
pub record IsComplete (i : Interface) : Type 0 where
  pub b_length : i.descriptor.b_length ≡ 9
  pub b_type : i.descriptor.b_descriptor_type ≡ 4
  pub hid : Given IsHid i.hid_descriptor
  pub generics : All IsGeneric i.generic_descriptors
  pub endpoints : List EndpointDescriptor
  pub filled : i.endpoints ≡ map some endpoints
  pub endpoint_count : i.descriptor.b_num_endpoints ≡ length endpoints
  pub endpoint_descriptors : All IsEndpoint endpoints

-- The rest of a buffer at which an interface ends.
abbrev pub ends_interface : List ℕ → Bool
ends_interface q = at_end q || get_or q 1 0 == 4

chunk-append : (c q : List ℕ) → get_or c 0 0 ≡ length c → 2 ≤ length c → chunk (c ++ q) ≡ c
chunk-append [] q own two = absurd (omega arith)
chunk-append (b ∷ c) q own two = ap (λ n. take n ((b ∷ c) ++ q)) own ∙ take-append (b ∷ c) q

pub chunk_own : (c : List ℕ) → get_or c 0 0 ≡ length c → 2 ≤ length c → chunk c ≡ c
chunk_own c own two = ap chunk (sym (append-nil c)) ∙ chunk-append c [] own two

behind-append : (c q : List ℕ) → get_or c 0 0 ≡ length c → 2 ≤ length c → behind (c ++ q) ≡ q
behind-append [] q own two = absurd (omega arith)
behind-append (b ∷ c) q own two = ap (λ n. drop n ((b ∷ c) ++ q)) own ∙ drop-append (b ∷ c) q

type-append : (c q : List ℕ) → 2 ≤ length c → get_or (c ++ q) 1 0 ≡ get_or c 1 0
type-append [] q two = absurd (omega arith)
type-append (b ∷ []) q two = absurd (omega arith)
type-append (b ∷ t ∷ c) q two = refl

ends_interface-append :
    (c q : List ℕ) → 2 ≤ length c → get_or c 1 0 ≢ 4 → ends_interface (c ++ q) ≡ false
ends_interface-append [] q two ne = absurd (omega arith)
ends_interface-append (b ∷ []) q two ne = absurd (omega arith)
ends_interface-append (b ∷ t ∷ c) q two ne = ground arith

-- A round of the loop over a descriptor that does not start an interface.
pub parse_body-step :
    (n ep : ℕ) (c q : List ℕ) (i : Interface)
    → get_or c 0 0 ≡ length c
    → 2 ≤ length c
    → get_or c 1 0 ≢ 4
    → parse_body (suc n) ep (c ++ q) i
      ≡ (add_descriptor ep (c ++ q) i >>= λ r. parse_body n r.0 q r.1)
unfolding parse_body
parse_body-step n ep c q i own two ne =
    rw (ends_interface-append c q two ne, behind-append c q own two) refl

-- Each part is written in front of the rest.
write_generics-front :
    (g : List ℕ) (gs : List (List ℕ)) (q : List ℕ)
    → IsGeneric g
    → write_generics (g ∷ gs) ++ q ≡ g ++ (write_generics gs ++ q)
unfolding write_generics
write_generics-front g gs q h =
    rw (append_assoc (chunk g) (write_generics gs) q, chunk_own g h.own_length h.type_byte) refl

add_descriptor-generic :
    (ep : ℕ) (g q : List ℕ) (i : Interface)
    → IsGeneric g
    → add_descriptor ep (g ++ q) i
      ≡ ok (ep, record i { generic_descriptors = i.generic_descriptors ++ (g ∷ []) })
unfolding add_descriptor
add_descriptor-generic ep g q i h =
    rw (chunk-append g q h.own_length h.type_byte, type-append g q h.type_byte)
      (ground (arith, h.endpoint_type, h.hid_type))

pub add_descriptor-hid :
    (ep : ℕ) (g q : List ℕ) (i : Interface)
    → IsHid g
    → add_descriptor ep (g ++ q) i ≡ ok (ep, record i { hid_descriptor = some g })
unfolding add_descriptor
add_descriptor-hid ep g q i h =
    rw (chunk-append g q h.own_length h.type_byte, type-append g q h.type_byte, h.hid_type) refl

-- A round of fuel for each element.
abbrev pub fuel : {A : Type 0} → List A → ℕ → ℕ
fuel [] n = n
fuel (x ∷ xs) n = suc (fuel xs n)

pub fuel_lem : {A : Type 0} (xs : List A) (n : ℕ) → fuel xs n ≡ length xs + n
fuel_lem [] n = omega arith
fuel_lem (x ∷ xs) n = omega (arith, fuel_lem xs n)

pub fuel-suc : {A : Type 0} (xs : List A) (n : ℕ) → fuel xs (suc n) ≡ suc (fuel xs n)
fuel-suc [] n = refl
fuel-suc (x ∷ xs) n = ap suc (fuel-suc xs n)

pub parse_generics :
    (n ep : ℕ) (gs : List (List ℕ)) (q : List ℕ) (i : Interface)
    → All IsGeneric gs
    → parse_body (fuel gs n) ep (write_generics gs ++ q) i
      ≡ parse_body n ep q (record i { generic_descriptors = i.generic_descriptors ++ gs })
unfolding write_generics
parse_generics n ep [] q i h =
    ap (λ gs. parse_body n ep q (record i { generic_descriptors = gs }))
      (sym (append-nil i.generic_descriptors))
parse_generics n ep (g ∷ gs) q i h =
    let rest = write_generics gs ++ q in
    rw
      (
        write_generics-front g gs q h.0,
        parse_body-step (fuel gs n) ep g rest i h.0.own_length h.0.type_byte h.0.interface_type,
        add_descriptor-generic ep g rest i h.0,
        parse_generics n ep gs q
            (record i { generic_descriptors = i.generic_descriptors ++ (g ∷ []) }) h.1,
        append_assoc i.generic_descriptors (g ∷ []) gs,
      )
      refl

parse_endpoint :
    (e : EndpointDescriptor) (q : List ℕ)
    → IsEndpoint e
    → Endpoint.parse (endpoint_bytes e ++ q) ≡ e
unfolding Endpoint.parse endpoint_bytes
parse_endpoint e q h = ap (λ w. record e { w_max_packet_size = w }) (omega (arith, h.packet_size))

type_endpoint :
    (e : EndpointDescriptor) (q : List ℕ) → IsEndpoint e → get_or (endpoint_bytes e ++ q) 1 0 ≡ 5
unfolding endpoint_bytes
type_endpoint e q h = h.b_type

own_endpoint :
    (e : EndpointDescriptor)
    → IsEndpoint e
    → get_or (endpoint_bytes e) 0 0 ≡ length (endpoint_bytes e)
unfolding endpoint_bytes
own_endpoint e h = h.b_length

long_endpoint : (e : EndpointDescriptor) → 2 ≤ length (endpoint_bytes e)
unfolding endpoint_bytes
long_endpoint e = omega arith

other_endpoint : (e : EndpointDescriptor) → IsEndpoint e → get_or (endpoint_bytes e) 1 0 ≢ 4
unfolding endpoint_bytes
other_endpoint e h = omega (arith, h.b_type)

add_descriptor-endpoint :
    (pre : List (Option EndpointDescriptor)) (post : List (Option EndpointDescriptor))
    (e : EndpointDescriptor) (q : List ℕ) (i : Interface)
    → IsEndpoint e
    → i.endpoints ≡ pre ++ (none ∷ post)
    → add_descriptor (length pre) (endpoint_bytes e ++ q) i
      ≡ ok (length pre + 1, record i { endpoints = pre ++ (some e ∷ post) })
unfolding add_descriptor
add_descriptor-endpoint pre post e q i h slots =
    rw (type_endpoint e q h, slots, parse_endpoint e q h, set-append pre post none (some e))
      (ground (arith, length-append pre (none ∷ post)))

pub endpoint_step :
    (n : ℕ) (e : EndpointDescriptor) (pre post : List (Option EndpointDescriptor))
    → (q : List ℕ) (i : Interface) → IsEndpoint e
    → i.endpoints ≡ pre ++ (none ∷ post)
    → parse_body (suc n) (length pre) (endpoint_bytes e ++ q) i
      ≡ parse_body n (length pre + 1) q (record i { endpoints = pre ++ (some e ∷ post) })
endpoint_step n e pre post q i h slots =
    parse_body-step n (length pre) (endpoint_bytes e) q i (own_endpoint e h) (long_endpoint e)
      (other_endpoint e h)
    ∙ rw (add_descriptor-endpoint pre post e q i h slots) refl

pub write_endpoints-front :
    (e : EndpointDescriptor) (es : List (Option EndpointDescriptor)) (q : List ℕ)
    → IsEndpoint e
    → write_endpoints (some e ∷ es) ++ q ≡ endpoint_bytes e ++ (write_endpoints es ++ q)
unfolding write_endpoints Endpoint.get_full_descriptor endpoint_bytes
write_endpoints-front e es q h = rw (h.b_length) refl

-- ===== src/Hosts/GadgetFs/Intervals.antt =====
-- src/Plugins/Hosts/HostProxy_GadgetFS.cpp: the walk of generate_descriptor over the endpoints of a
-- configuration, in the bytes of its descriptor.
use usbproxy_legacy.Prelude.{
  ℕ, zero, suc, ◌+◌, ◌≡◌, refl, ap, sym, ◌∙◌, true, Option, none, some, List, [], ◌∷◌, ◌++◌, map,
  ltb, get_or, set, length, take, length-append, append_assoc, append-nil, All, Given, arith,
}
use usbproxy_legacy.Descriptors.{EndpointDescriptor, endpoint_bytes, interface_bytes}
use usbproxy_legacy.Usb.Endpoint
use usbproxy_legacy.Usb.Interface
use usbproxy_legacy.Usb.Interface.{
  Interface, Parsed, ok, overflow, write_hid, write_generics, write_endpoints, length_hid,
  length_generics,
}
use usbproxy_legacy.Usb.Interface.Bytes.{
  IsLong, length-write_hid, length-write_generics, length-header,
}
use usbproxy_legacy.Usb.Interface.Parts.{IsGeneric, IsHid, IsEndpoint, IsComplete}
use usbproxy_legacy.Hosts.GadgetFs.Generate.{
  new_interval, adjust_endpoints, adjust_interface, header_length,
}

-- The same endpoint with the interval for high speed.
abbrev pub faster_endpoint : EndpointDescriptor → EndpointDescriptor
faster_endpoint e = record e { b_interval = new_interval e.b_interval }

abbrev pub faster_slot : Option EndpointDescriptor → Option EndpointDescriptor
faster_slot none = none
faster_slot (some e) = some (faster_endpoint e)

abbrev pub faster_interface : Interface → Interface
faster_interface i = record i { endpoints = map faster_slot i.endpoints }

-- A position behind some bytes, and the bytes with what follows.
abbrev pub walked : List ℕ → List ℕ → ℕ × List ℕ
walked front rest = (length front, front ++ rest)

get_or-behind :
    (front q : List ℕ) (n k : ℕ) → k ≡ length front + n → get_or (front ++ q) k 0 ≡ get_or q n 0
get_or-behind [] q n k h = ap (λ m. get_or q m 0) (omega (arith, h))
get_or-behind (x ∷ front) q n zero h = absurd (omega (arith, h))
get_or-behind (x ∷ front) q n (suc k) h = get_or-behind front q n k (omega (arith, h))

set-behind :
    (front q : List ℕ) (n k v : ℕ)
    → k ≡ length front + n
    → set (front ++ q) k v ≡ front ++ set q n v
set-behind [] q n k v h = ap (λ m. set q m v) (omega (arith, h))
set-behind (x ∷ front) q n zero v h = absurd (omega (arith, h))
set-behind (x ∷ front) q n (suc k) v h = ap (◌∷◌ x) (set-behind front q n k v (omega (arith, h)))

raw : List EndpointDescriptor → List ℕ
raw [] = []
raw (e ∷ es) = endpoint_bytes e ++ raw es

write_endpoints-raw :
    (es : List EndpointDescriptor) → All IsEndpoint es → write_endpoints (map some es) ≡ raw es
unfolding write_endpoints raw Endpoint.get_full_descriptor endpoint_bytes
write_endpoints-raw [] h = refl
write_endpoints-raw (e ∷ es) h =
    rw (h.0.b_length)
      (ap (λ r. endpoint_bytes (record e { b_length = 7 }) ++ r) (write_endpoints-raw es h.1))

adjust_endpoints-step :
    (n pos : ℕ) (bytes : List ℕ) (size old : ℕ) (next : List ℕ)
    → ltb (pos + 6) (length bytes) ≡ true
    → get_or bytes pos 0 ≡ size
    → get_or bytes (pos + 6) 0 ≡ old
    → set bytes (pos + 6) (new_interval old) ≡ next
    → adjust_endpoints (suc n) pos bytes ≡ adjust_endpoints n (pos + size) next
unfolding adjust_endpoints
adjust_endpoints-step n pos bytes size old next inside s o e = rw (inside, s, o, e) refl

adjust_endpoint :
    (n : ℕ) (e : EndpointDescriptor) (front rest : List ℕ)
    → IsEndpoint e
    → adjust_endpoints (suc n) (length front) (front ++ (endpoint_bytes e ++ rest))
      ≡ adjust_endpoints n
          (length (front ++ endpoint_bytes (faster_endpoint e)))
          ((front ++ endpoint_bytes (faster_endpoint e)) ++ rest)
unfolding endpoint_bytes
adjust_endpoint n e front rest h =
    let q = endpoint_bytes e ++ rest in
    let fast = endpoint_bytes (faster_endpoint e) in
    let long : length (front ++ q) ≡ length front + (length rest + 7) =
      omega (arith, length-append front q) in
    let inside : ltb (length front + 6) (length (front ++ q)) ≡ true = ground (arith, long) in
    adjust_endpoints-step n (length front) (front ++ q) 7 e.b_interval (front ++ (fast ++ rest))
      inside (get_or-behind front q 0 (length front) (omega arith) ∙ h.b_length)
      (get_or-behind front q 6 (length front + 6) refl)
      (set-behind front q 6 (length front + 6) (new_interval e.b_interval) refl)
    ∙ (ap (λ p. adjust_endpoints n p (front ++ (fast ++ rest)))
          (omega (arith, length-append front fast))
        ∙ ap (adjust_endpoints n (length (front ++ fast))) (sym (append_assoc front fast rest)))

adjust_endpoints-raw :
    (es : List EndpointDescriptor) (front rest : List ℕ)
    → All IsEndpoint es
    → adjust_endpoints (length es) (length front) (front ++ (raw es ++ rest))
      ≡ ok (walked (front ++ raw (map faster_endpoint es)) rest)
unfolding adjust_endpoints raw
adjust_endpoints-raw [] front rest h = ap (λ f. ok (walked f rest)) (sym (append-nil front))
adjust_endpoints-raw (e ∷ es) front rest h =
    let fast = endpoint_bytes (faster_endpoint e) in
    ap (λ q. adjust_endpoints (suc (length es)) (length front) (front ++ q))
      (append_assoc (endpoint_bytes e) (raw es) rest)
    ∙ (adjust_endpoint (length es) e front (raw es ++ rest) h.0
        ∙ (adjust_endpoints-raw es (front ++ fast) rest h.1
            ∙ ap (λ f. ok (walked f rest))
                (append_assoc front fast (raw (map faster_endpoint es)))))

-- What stands in front of the endpoints of an interface.
head : Interface → List ℕ
head i =
    take i.descriptor.b_length (interface_bytes i.descriptor)
    ++ (write_hid i.hid_descriptor ++ write_generics i.generic_descriptors)

IsLong-hid : (o : Option (List ℕ)) → Given IsHid o → Given IsLong o
IsLong-hid none h = tt
IsLong-hid (some g) h = omega (arith, h.own_length)

IsLong-generics : (gs : List (List ℕ)) → All IsGeneric gs → All IsLong gs
IsLong-generics [] h = tt
IsLong-generics (g ∷ gs) h = (omega (arith, h.0.own_length), IsLong-generics gs h.1)

length-head : (i : Interface) → IsComplete i → length (head i) ≡ header_length i
unfolding head
length-head i h =
    let hid = write_hid i.hid_descriptor in
    let generics = write_generics i.generic_descriptors in
    omega (
      arith,
      length-append (take i.descriptor.b_length (interface_bytes i.descriptor)) (hid ++ generics),
      length-append hid generics,
      length-header i (omega (arith, h.b_length)),
      length-write_hid i.hid_descriptor (IsLong-hid i.hid_descriptor h.hid),
      length-write_generics i.generic_descriptors
          (IsLong-generics i.generic_descriptors h.generics),
    )

full-head :
    (i : Interface) (es : List EndpointDescriptor)
    → i.endpoints ≡ map some es
    → All IsEndpoint es
    → Interface.get_full_descriptor i ≡ head i ++ raw es
unfolding head Interface.get_full_descriptor
full-head i es filled h =
    let header = take i.descriptor.b_length (interface_bytes i.descriptor) in
    let hid = write_hid i.hid_descriptor in
    let generics = write_generics i.generic_descriptors in
    ap (λ q. header ++ (hid ++ (generics ++ q)))
      (ap write_endpoints filled ∙ write_endpoints-raw es h)
    ∙ (ap (◌++◌ header) (sym (append_assoc hid generics (raw es)))
        ∙ sym (append_assoc header (hid ++ generics) (raw es)))

map-faster_slot :
    (es : List EndpointDescriptor)
    → map faster_slot (map some es) ≡ map some (map faster_endpoint es)
map-faster_slot [] = refl
map-faster_slot (e ∷ es) = ap (◌∷◌ (some (faster_endpoint e))) (map-faster_slot es)

IsEndpoint-faster :
    (es : List EndpointDescriptor) → All IsEndpoint es → All IsEndpoint (map faster_endpoint es)
IsEndpoint-faster [] h = tt
IsEndpoint-faster (e ∷ es) h = (
  record { b_length = h.0.b_length; b_type = h.0.b_type; packet_size = h.0.packet_size },
  IsEndpoint-faster es h.1,
)

full_faster-head :
    (i : Interface) (h : IsComplete i)
    → Interface.get_full_descriptor (faster_interface i)
      ≡ head i ++ raw (map faster_endpoint h.endpoints)
unfolding head
full_faster-head i h =
    full-head (faster_interface i) (map faster_endpoint h.endpoints)
      (ap (map faster_slot) h.filled ∙ map-faster_slot h.endpoints)
      (IsEndpoint-faster h.endpoints h.endpoint_descriptors)

-- The walk over a complete interface sets the interval of each of its endpoints, and ends behind it.
pub adjust_interface-faster :
    (i : Interface) (front rest : List ℕ)
    → IsComplete i
    → adjust_interface (some i) (length front) (front ++ (Interface.get_full_descriptor i ++ rest))
      ≡ ok (walked (front ++ Interface.get_full_descriptor (faster_interface i)) rest)
unfolding adjust_interface
adjust_interface-faster i front rest h =
    let es = h.endpoints in
    let fast = raw (map faster_endpoint es) in
    let pos : length front + header_length i ≡ length (front ++ head i) =
      omega (arith, length-append front (head i), length-head i h) in
    let before : front ++ (Interface.get_full_descriptor i ++ rest)
        ≡ (front ++ head i) ++ (raw es ++ rest) =
      ap (λ b. front ++ (b ++ rest)) (full-head i es h.filled h.endpoint_descriptors)
      ∙ (ap (◌++◌ front) (append_assoc (head i) (raw es) rest)
          ∙ sym (append_assoc front (head i) (raw es ++ rest))) in
    let behind : (front ++ head i) ++ fast
        ≡ front ++ Interface.get_full_descriptor (faster_interface i) =
      append_assoc front (head i) fast ∙ ap (◌++◌ front) (sym (full_faster-head i h)) in
    let bytes = front ++ (Interface.get_full_descriptor i ++ rest) in
    ap (λ n. adjust_endpoints n (length front + header_length i) bytes) h.endpoint_count
    ∙ (ap (λ p. adjust_endpoints (length es) p bytes) pos
        ∙ (ap (adjust_endpoints (length es) (length (front ++ head i))) before
            ∙ (adjust_endpoints-raw es (front ++ head i) rest h.endpoint_descriptors
                ∙ ap (λ f. ok (walked f rest)) behind)))

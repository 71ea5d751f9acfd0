-- ===== src/Usb/Interface/RoundTrip.antt =====
-- src/lib/Interface.cpp: the constructor from bytes reads what get_full_descriptor writes.
use usbproxy_legacy.Prelude.{
  ℕ, suc, ◌+◌, ◌-◌, ◌≤◌, ◌≡◌, refl, ap, ◌∙◌, sym, true, false, Option, none, some, List, [], ◌∷◌,
  ◌++◌, map, get_or, length, length-append, drop, replicate, append_assoc, All, Given, arith,
}
use usbproxy_legacy.Descriptors.{EndpointDescriptor, InterfaceDescriptor, interface_bytes}
use usbproxy_legacy.Usb.Interface.{
  Interface, interface_of, at_end, ok, parse_descriptor, parse_leading, parse_body, parse,
  write_hid, write_generics, write_endpoints, get_full_descriptor,
}
use usbproxy_legacy.Usb.Interface.Parts.{
  IsGeneric, IsHid, IsEndpoint, ends_interface, IsComplete, chunk_own, parse_body-step,
  add_descriptor-hid, fuel, fuel_lem, fuel-suc, parse_generics, endpoint_step,
  write_endpoints-front,
}

parse_slots :
    (n ep : ℕ) (pre : List (Option EndpointDescriptor)) (es : List EndpointDescriptor)
    → (q : List ℕ) (i : Interface) → All IsEndpoint es
    → ep ≡ length pre
    → i.endpoints ≡ pre ++ replicate (length es) none
    → parse_body (fuel es n) ep (write_endpoints (map some es) ++ q) i
      ≡ parse_body n (ep + length es) q (record i { endpoints = pre ++ map some es })
unfolding write_endpoints
parse_slots n ep pre [] q i h here slots =
    ap (λ m. parse_body n m q i) (omega arith)
    ∙ ap (λ s. parse_body n (ep + 0) q (record i { endpoints = s })) slots
parse_slots n ep pre (e ∷ es) q i h here slots =
    let rest = write_endpoints (map some es) ++ q in
    let empty = replicate (length es) none in
    let next = record i { endpoints = pre ++ (some e ∷ empty) } in
    rw
      (
        write_endpoints-front e (map some es) q h.0,
        here,
        endpoint_step (fuel es n) e pre empty rest i h.0 slots,
        parse_slots n (length pre + 1) (pre ++ (some e ∷ [])) es q next h.1
            (omega (arith, length-append pre (some e ∷ [])))
            (sym (append_assoc pre (some e ∷ []) empty)),
        append_assoc pre (some e ∷ []) (map some es),
      )
      (ap (λ m. parse_body n m q (record i { endpoints = pre ++ (some e ∷ map some es) }))
        (omega arith))

parse_end :
    (n ep : ℕ) (q : List ℕ) (i : Interface)
    → ends_interface q ≡ true
    → parse_body (suc n) ep q i ≡ ok (i, q)
unfolding parse_body
parse_end n ep q i h = rw (h) refl

-- The generic descriptors and the endpoints, up to the end of the interface.
parse_parts :
    (k : ℕ) (gs : List (List ℕ)) (es : List EndpointDescriptor) (q : List ℕ) (i : Interface)
    → All IsGeneric gs
    → All IsEndpoint es
    → i.generic_descriptors ≡ []
    → i.endpoints ≡ replicate (length es) none
    → ends_interface q ≡ true
    → parse_body
        (fuel gs (fuel es (suc k)))
        0
        (write_generics gs ++ (write_endpoints (map some es) ++ q))
        i
      ≡ ok (record i { generic_descriptors = gs; endpoints = map some es }, q)
parse_parts k gs es q i generic endpoint none_yet free ends =
    parse_generics (fuel es (suc k)) 0 gs (write_endpoints (map some es) ++ q) i generic
    ∙ parse_slots (suc k) 0 [] es q (record i { generic_descriptors = i.generic_descriptors ++ gs })
        endpoint refl free
    ∙ parse_end k (0 + length es) q
        (record i { generic_descriptors = i.generic_descriptors ++ gs; endpoints = map some es })
        ends
    ∙ rw (none_yet) refl

parse_leading-none :
    (n : ℕ) (p : List ℕ) (gs : List (List ℕ))
    → get_or p 1 0 ≡ 4
    → parse_leading (suc n) p gs ≡ ok (gs, p)
unfolding parse_leading
parse_leading-none n p gs h = rw h refl

-- An interface descriptor at the front is read at once.
parse_header :
    (n : ℕ) (d : InterfaceDescriptor) (q : List ℕ)
    → d.b_length ≡ 9
    → d.b_descriptor_type ≡ 4
    → parse (suc n) (interface_bytes d ++ q) ≡ parse_body (suc n) 0 q (interface_of d)
unfolding parse parse_descriptor interface_bytes interface_of
parse_header n d q len typ =
    let p = interface_bytes d ++ q in
    rw (parse_leading-none n p [] typ)
      (ap (λ m. parse_body (suc n) 0 (drop m p) (interface_of d)) len)

write_interface :
    (i : Interface) (q : List ℕ)
    → i.descriptor.b_length ≡ 9
    → get_full_descriptor i ++ q
      ≡ interface_bytes i.descriptor
        ++ (write_hid i.hid_descriptor
            ++ (write_generics i.generic_descriptors ++ (write_endpoints i.endpoints ++ q)))
unfolding get_full_descriptor interface_bytes
write_interface i q h = rw h (
    rw
      (
        append_assoc (write_hid i.hid_descriptor)
            (write_generics i.generic_descriptors ++ write_endpoints i.endpoints) q,
        append_assoc (write_generics i.generic_descriptors) (write_endpoints i.endpoints) q,
      )
      refl)

-- Reading what is written of the parts.
parse_rest :
    (k : ℕ) (i : Interface) (es : List EndpointDescriptor) (q : List ℕ)
    → (o : Option (List ℕ)) → Given IsHid o
    → All IsGeneric i.generic_descriptors
    → All IsEndpoint es
    → i.descriptor.b_num_endpoints ≡ length es
    → ends_interface q ≡ true
    → parse_body
        (suc (fuel i.generic_descriptors (fuel es (suc k))))
        0
        (write_hid o
          ++ (write_generics i.generic_descriptors ++ (write_endpoints (map some es) ++ q)))
        (interface_of i.descriptor)
      ≡ ok (record i { hid_descriptor = o; endpoints = map some es }, q)
unfolding write_hid interface_of
parse_rest k i es q none hid generic endpoint count ends =
    rw (sym (fuel-suc i.generic_descriptors (fuel es (suc k))), sym (fuel-suc es (suc k)))
      (parse_parts (suc k) i.generic_descriptors es q (interface_of i.descriptor) generic endpoint
        refl (ap (λ n. replicate n none) count) ends)
parse_rest k i es q (some h) hid generic endpoint count ends =
    let rest = write_generics i.generic_descriptors ++ (write_endpoints (map some es) ++ q) in
    rw
      (
        chunk_own h hid.own_length hid.type_byte,
        parse_body-step (fuel i.generic_descriptors (fuel es (suc k))) 0 h rest
            (interface_of i.descriptor) hid.own_length hid.type_byte (omega (arith, hid.hid_type)),
        add_descriptor-hid 0 h rest (interface_of i.descriptor) hid,
      )
      (parse_parts k i.generic_descriptors es q
        (record i {
          hid_descriptor = some h;
          generic_descriptors = [];
          endpoints = replicate i.descriptor.b_num_endpoints none;
        })
        generic endpoint refl (ap (λ n. replicate n none) count) ends)

length-map-some : {A : Type 0} (xs : List A) → length (map some xs) ≡ length xs
length-map-some [] = refl
length-map-some (x ∷ xs) = ap suc (length-map-some xs)

enough_fuel :
    {A B : Type 0} (n : ℕ) (xs : List A) (ys : List B)
    → length xs + length ys + 2 ≤ n
    → suc (fuel xs (fuel ys (suc (n - (length xs + length ys + 2))))) ≡ n
enough_fuel n xs ys h =
    let k = n - (length xs + length ys + 2) in
    omega (arith, fuel_lem xs (fuel ys (suc k)), fuel_lem ys (suc k))

-- With fuel for one round per generic descriptor and endpoint and two more, the constructor reads a
-- complete interface back from the bytes that get_full_descriptor writes for it, and stops at their
-- end, whatever follows: nothing, or the next interface descriptor.
pub parse-get_full_descriptor :
    (n : ℕ) (i : Interface) (q : List ℕ)
    → IsComplete i
    → ends_interface q ≡ true
    → length i.generic_descriptors + length i.endpoints + 2 ≤ n
    → parse n (get_full_descriptor i ++ q) ≡ ok (i, q)
parse-get_full_descriptor n i q c ends large =
    let gs = i.generic_descriptors in
    let k = n - (length gs + length c.endpoints + 2) in
    let m = fuel gs (fuel c.endpoints (suc k)) in
    let enough : suc m ≡ n =
      enough_fuel n gs c.endpoints
        (omega (arith, large, ap length c.filled, length-map-some c.endpoints)) in
    rw (sym enough, write_interface i q c.b_length, c.filled)
      (parse_header m i.descriptor _ c.b_length c.b_type
        ∙ parse_rest k i c.endpoints q i.hid_descriptor c.hid c.generics c.endpoint_descriptors
            c.endpoint_count ends)

-- The bytes of a complete interface end the interface in front of them.
pub ends_interface-get_full_descriptor :
    (i : Interface) (q : List ℕ)
    → IsComplete i
    → (at_end (get_full_descriptor i ++ q) ≡ false)
      × (ends_interface (get_full_descriptor i ++ q) ≡ true)
unfolding interface_bytes
ends_interface-get_full_descriptor i q c =
    rw (write_interface i q c.b_length) (refl, rw (c.b_type) refl)

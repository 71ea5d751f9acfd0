-- ===== src/Usb/Interface/Generics.antt =====
-- src/lib/Interface.cpp: add_generic_descriptor against the count of the array.
use usbproxy_legacy.Prelude.{
  ℕ, ◌≡◌, refl, Option, none, some, List, [], ◌∷◌, ◌==◌, if◌then◌else◌, length, length-set, arith,
}
use usbproxy_legacy.Usb.Interface.{Interface, Parsed, ok, chunk, add_generic_descriptor}

-- How many generic descriptors there are after a call that ends well.
abbrev count_after : Parsed Interface → Option ℕ
count_after r = elim r [ ok i ↦ some (length i.generic_descriptors) | _ ↦ none ]

added :
    (i : Interface) (gs : List (List ℕ)) (g : List ℕ)
    → count_after (add_generic_descriptor (record i { generic_descriptors = gs }) g)
      ≡ (if length gs == 0 then none else some (length gs))
unfolding add_generic_descriptor
added i [] g = refl
added i (h ∷ gs) g = ground (arith, length-set (h ∷ gs) (length gs) (chunk g))

-- add_generic_descriptor never makes the list longer: an interface without generic descriptors is
-- written to out of bounds, and any other has as many of them after the call as before it.
generic_not_added :
    (i : Interface) (g : List ℕ)
    → count_after (add_generic_descriptor i g)
      ≡ (if length i.generic_descriptors == 0 then none else some (length i.generic_descriptors))
generic_not_added i g = added i i.generic_descriptors g

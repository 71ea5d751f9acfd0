-- ===== src/Usb/InterfaceGroup/Bytes.antt =====
-- src/lib/InterfaceGroup.cpp: the bytes of the alternate settings are as many as announced.
use usbproxy_legacy.Prelude.{
  ℕ, zero, suc, ◌≡◌, refl, Option, none, some, List, [], ◌∷◌, length, length-append, All, Given,
  arith,
}
use usbproxy_legacy.Usb.Interface
use usbproxy_legacy.Usb.Interface.{Interface}
use usbproxy_legacy.Usb.Interface.Bytes.{IsStored, length-get_full_descriptor}
use usbproxy_legacy.Usb.InterfaceGroup.{
  InterfaceGroup, length_interfaces, write_interfaces, get_full_descriptor,
  get_full_descriptor_length,
}

length-write_interfaces :
    (n : ℕ) (is : List (Option Interface))
    → All (Given IsStored) is
    → length (write_interfaces n is) ≡ length_interfaces n is
unfolding write_interfaces length_interfaces
length-write_interfaces zero is h = refl
length-write_interfaces (suc n) [] h = refl
length-write_interfaces (suc n) (none ∷ is) h = length-write_interfaces n is h.1
length-write_interfaces (suc n) (some i ∷ is) h = omega (
  arith,
  length-append (Interface.get_full_descriptor i) (write_interfaces n is),
  length-get_full_descriptor i h.0,
  length-write_interfaces n is h.1,
)

pub length-group :
    (g : InterfaceGroup)
    → All (Given IsStored) g.interfaces
    → length (get_full_descriptor g) ≡ get_full_descriptor_length g
unfolding get_full_descriptor get_full_descriptor_length
length-group g h = length-write_interfaces g.alternate_count g.interfaces h

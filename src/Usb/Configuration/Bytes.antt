-- ===== src/Usb/Configuration/Bytes.antt =====
-- src/lib/Configuration.cpp and src/lib/InterfaceGroup.cpp: the buffer of get_full_descriptor is
-- filled exactly, and `wTotalLength` tells its size.
use usbproxy_legacy.Prelude.{
  ◌≤◌, ◌≡◌, refl, ◌∙◌, sym, Bool, Option, none, some, List, [], ◌∷◌, length, take, length-append,
  length-take, All, Given, arith,
}
use usbproxy_legacy.Descriptors.{config_bytes}
use usbproxy_legacy.Usb.Errors.{no_error}
use usbproxy_legacy.Usb.Interface.Bytes.{IsStored}
use usbproxy_legacy.Usb.InterfaceGroup
use usbproxy_legacy.Usb.InterfaceGroup.{InterfaceGroup}
use usbproxy_legacy.Usb.InterfaceGroup.Bytes.{length-group}
use usbproxy_legacy.Usb.Configuration.{
  Configuration, length_groups, write_groups, get_full_descriptor_length, get_full_descriptor,
  is_defined,
}

-- In each alternate setting of each interface, no descriptor claims to be longer than what is
-- stored of it.
abbrev pub AllStored : List (Option InterfaceGroup) → Type 0
AllStored gs = All (Given (λ (g : InterfaceGroup). All (Given IsStored) g.interfaces)) gs

length-write_groups :
    (gs : List (Option InterfaceGroup)) → AllStored gs → length (write_groups gs) ≡ length_groups gs
unfolding write_groups length_groups
length-write_groups [] h = refl
length-write_groups (none ∷ gs) h = length-write_groups gs h.1
length-write_groups (some g ∷ gs) h = omega (
  arith,
  length-append (InterfaceGroup.get_full_descriptor g) (write_groups gs),
  length-group g h.0,
  length-write_groups gs h.1,
)

-- If neither the configuration's descriptor nor one of an interface claims to be longer than what
-- is stored of it, get_full_descriptor fills the get_full_descriptor_length bytes it allocates.
pub buffer_is_filled :
    (c : Configuration)
    → c.descriptor.b_length ≤ 9
    → AllStored c.interface_groups
    → length (get_full_descriptor c) ≡ get_full_descriptor_length c
unfolding get_full_descriptor get_full_descriptor_length config_bytes
buffer_is_filled c header stored = omega (
  arith,
  length-append (take c.descriptor.b_length (config_bytes c.descriptor))
      (write_groups c.interface_groups),
  length-take c.descriptor.b_length (config_bytes c.descriptor),
  length-write_groups c.interface_groups stored,
)

is_defined-lengths :
    (c : Configuration) (high_speed : Bool)
    → (is_defined c high_speed).error ≡ no_error
    → (c.descriptor.b_length ≡ 9) × (c.descriptor.w_total_length ≡ get_full_descriptor_length c)
unfolding is_defined
is_defined-lengths c high_speed h = ground arith

-- Of a configuration that is_defined accepts and whose interfaces' descriptors do not claim to be
-- longer than what is stored of them, get_full_descriptor writes `wTotalLength` bytes.
pub is_defined-total_length :
    (c : Configuration) (high_speed : Bool)
    → (is_defined c high_speed).error ≡ no_error
    → AllStored c.interface_groups
    → length (get_full_descriptor c) ≡ c.descriptor.w_total_length
is_defined-total_length c high_speed h stored =
    let lengths = is_defined-lengths c high_speed h in
    buffer_is_filled c (omega (arith, lengths.0)) stored ∙ sym lengths.1

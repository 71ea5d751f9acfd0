-- ===== src/Usb/Configuration/Parse.antt =====
-- src/lib/Configuration.cpp: the loop of the constructor that reads a configuration from the
-- device, over the bytes of complete interfaces.
use usbproxy_legacy.Prelude.{
  ℕ, zero, suc, ◌+◌, ◌≤◌, ◌<◌, ◌≡◌, refl, true, List, [], ◌∷◌, ◌++◌, length, All, arith,
}
use usbproxy_legacy.Usb.Interface
use usbproxy_legacy.Usb.Interface.{
  Interface, Parsed, ok, overflow, null_pointer, failed, no_fuel, ◌>>=◌, at_end,
}
use usbproxy_legacy.Usb.Interface.Parts.{IsComplete, ends_interface}
use usbproxy_legacy.Usb.Interface.RoundTrip.{
  parse-get_full_descriptor, ends_interface-get_full_descriptor,
}
use usbproxy_legacy.Usb.Configuration.{Configuration, add_interface, parse_interfaces}

-- The bytes of the interfaces one behind the other.
abbrev pub bytes_of : List Interface → List ℕ
bytes_of [] = []
bytes_of (i ∷ is) = Interface.get_full_descriptor i ++ bytes_of is

-- Each interface is added, up to the first failure.
abbrev pub add_all : Configuration → List Interface → Parsed Configuration
add_all c [] = ok c
add_all c (i ∷ is) = add_interface c i >>= λ d. add_all d is

bind-next :
    {A B : Type 0} (x : Parsed A) (f g : A → Parsed B)
    → ((a : A) → f a ≡ g a)
    → (x >>= f) ≡ (x >>= g)
bind-next (ok a) f g h = h a
bind-next overflow f g h = refl
bind-next null_pointer f g h = refl
bind-next failed f g h = refl
bind-next no_fuel f g h = refl

ends_interface-bytes_of :
    (is : List Interface) → All IsComplete is → ends_interface (bytes_of is) ≡ true
ends_interface-bytes_of [] h = refl
ends_interface-bytes_of (i ∷ is) h = (ends_interface-get_full_descriptor i (bytes_of is) h.0).1

-- Reading the bytes of complete interfaces adds these interfaces in their order, with the failure
-- of the first that has no slot, if `m` is more than their number and `n` is large enough for each.
pub parse_interfaces-bytes_of :
    (n m : ℕ) (is : List Interface) (c : Configuration)
    → All IsComplete is
    → All (λ (i : Interface). length i.generic_descriptors + length i.endpoints + 2 ≤ n) is
    → length is < m
    → parse_interfaces n m (bytes_of is) c ≡ add_all c is
unfolding parse_interfaces
parse_interfaces-bytes_of n zero is c complete large enough = absurd (omega arith)
parse_interfaces-bytes_of n (suc m) [] c complete large enough = refl
parse_interfaces-bytes_of n (suc m) (i ∷ is) c complete large enough =
    rw
      (
        (ends_interface-get_full_descriptor i (bytes_of is) complete.0).0,
        parse-get_full_descriptor n i (bytes_of is) complete.0
            (ends_interface-bytes_of is complete.1) large.0,
      )
      (bind-next (add_interface c i) (λ d. parse_interfaces n m (bytes_of is) d) (λ d. add_all d is)
        (λ d. parse_interfaces-bytes_of n m is d complete.1 large.1 (omega arith)))

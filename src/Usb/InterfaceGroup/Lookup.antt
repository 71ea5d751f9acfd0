-- ===== src/Usb/InterfaceGroup/Lookup.antt =====
-- src/lib/InterfaceGroup.cpp: what get_interface finds after add_interface.
use usbproxy_legacy.Prelude.{
  ℕ, zero, suc, ◌+◌, ◌<◌, ◌≡◌, refl, Option, none, some, List, [], ◌∷◌, ◌==◌, ltb, if◌then◌else◌,
  get_or, Bool-cases, inl, inr, get_or-set, length-set, length, arith,
}
use usbproxy_legacy.Usb.Interface.{Interface}
use usbproxy_legacy.Usb.InterfaceGroup.{InterfaceGroup, grow, add_interface, get_interface}

length-grow : (is : List (Option Interface)) (n size : ℕ) → length (grow is n size) ≡ size
length-grow is n zero = refl
length-grow is zero (suc size) = omega (arith, length-grow [] zero size)
length-grow [] (suc n) (suc size) = omega (arith, length-grow [] n size)
length-grow (i ∷ is) (suc n) (suc size) = omega (arith, length-grow is n size)

get_or-grow_nil : (n size j : ℕ) → get_or (grow [] n size) j none ≡ none
get_or-grow_nil n zero j = refl
get_or-grow_nil zero (suc size) zero = refl
get_or-grow_nil zero (suc size) (suc j) = get_or-grow_nil zero size j
get_or-grow_nil (suc n) (suc size) zero = refl
get_or-grow_nil (suc n) (suc size) (suc j) = get_or-grow_nil n size j

get_or-grow :
    (is : List (Option Interface)) (n size j : ℕ)
    → j < size
    → get_or (grow is n size) j none ≡ (if ltb j n then get_or is j none else none)
get_or-grow is n zero j h = absurd (omega arith)
get_or-grow is zero (suc size) zero h = refl
get_or-grow is zero (suc size) (suc j) h = ground (arith, get_or-grow_nil zero size j)
get_or-grow [] (suc n) (suc size) zero h = ground arith
get_or-grow [] (suc n) (suc size) (suc j) h = ground (arith, get_or-grow_nil n size j)
get_or-grow (i ∷ is) (suc n) (suc size) zero h = ground arith
get_or-grow (i ∷ is) (suc n) (suc size) (suc j) h =
    ground (arith, get_or-grow is n size j (omega arith))

-- The array has a slot for each setting that is counted.
pub record IsGroup (g : InterfaceGroup) : Type 0 where
  pub allocated : length g.interfaces ≡ g.alternate_count
  pub is_byte : g.alternate_count < 256

add_interface-IsGroup :
    (g : InterfaceGroup) (i : Interface)
    → IsGroup g
    → i.descriptor.b_alternate_setting < 255
    → IsGroup (add_interface g i)
unfolding add_interface
add_interface-IsGroup g i h small =
    let alternate = i.descriptor.b_alternate_setting in
    let grown = grow g.interfaces g.alternate_count (alternate + 1) in
    let here = length-set g.interfaces alternate (some i) in
    let there = length-set grown alternate (some i) in
    let size = length-grow g.interfaces g.alternate_count (alternate + 1) in
    elim (Bool-cases (ltb alternate g.alternate_count)) [
      | inl e ↦ rw e (record { allocated = omega arith; is_byte = h.is_byte })
      | inr e ↦ rw e (record { allocated = omega arith; is_byte = omega arith })
    ]

found :
    (g : InterfaceGroup) (i : Interface) (a : ℕ)
    → IsGroup g
    → i.descriptor.b_alternate_setting < 255
    → get_interface (add_interface g i) a
      ≡ (if a == i.descriptor.b_alternate_setting then some i else get_interface g a)
unfolding add_interface get_interface
found g i a h small =
    let alternate = i.descriptor.b_alternate_setting in
    let grown = grow g.interfaces g.alternate_count (alternate + 1) in
    let size = length-grow g.interfaces g.alternate_count (alternate + 1) in
    elim (Bool-cases (ltb alternate g.alternate_count)) [
      | inl e ↦ rw e (ground (arith, get_or-set g.interfaces alternate a (some i) none))
      | inr e ↦ rw e (
          ground (
            arith,
            get_or-set grown alternate a (some i) none,
            get_or-grow g.interfaces g.alternate_count (alternate + 1) a,
          ))
    ]

-- Adding an alternate setting below 255 keeps the array as long as its count says; that setting is
-- then found, and each other setting is found as before.
pub get_interface-add_interface :
    (g : InterfaceGroup) (i : Interface) (a : ℕ)
    → IsGroup g
    → i.descriptor.b_alternate_setting < 255
    → IsGroup (add_interface g i)
      × (get_interface (add_interface g i) a
          ≡ (if a == i.descriptor.b_alternate_setting then some i else get_interface g a))
get_interface-add_interface g i a h small = (add_interface-IsGroup g i h small, found g i a h small)

-- Adding alternate setting 255 wraps the count to 0: no setting is found any more.
setting_255_lost :
    (g : InterfaceGroup) (i : Interface) (a : ℕ)
    → g.alternate_count < 256
    → i.descriptor.b_alternate_setting ≡ 255
    → get_interface (add_interface g i) a ≡ none
unfolding add_interface get_interface
setting_255_lost g i a h e = ground arith

-- ===== src/Hosts/GadgetFs/Served.antt =====
-- src/Plugins/Hosts/HostProxy_GadgetFS.cpp: the configurations as the gadget shows them, and their
-- bytes in the descriptor.
use usbproxy_legacy.Prelude.{
  ℕ, zero, suc, ◌+◌, ◌-◌, ◌%◌, ◌/◌, ◌≡◌, refl, ap, sym, ◌∙◌, Bool, true, false, Option, none, some,
  List, [], ◌∷◌, ◌++◌, ltb, if◌then◌else◌, get_or, set, length, take, length-append, append_assoc,
  append-nil, bit_and, arith,
}
use usbproxy_legacy.Descriptors.{ConfigDescriptor, config_bytes}
use usbproxy_legacy.Usb.Interface
use usbproxy_legacy.Usb.Interface.{Interface, Parsed, ok, ◌>>=◌}
use usbproxy_legacy.Usb.Interface.Parts.{IsComplete}
use usbproxy_legacy.Usb.InterfaceGroup
use usbproxy_legacy.Usb.InterfaceGroup.{InterfaceGroup}
use usbproxy_legacy.Usb.Configuration
use usbproxy_legacy.Usb.Configuration.{Configuration, write_groups}
use usbproxy_legacy.Hosts.GadgetFs.Generate.{
  patched, adjust_interface, adjust_interfaces, high_block, full_block,
}
use usbproxy_legacy.Hosts.GadgetFs.Intervals.{faster_interface, walked, adjust_interface-faster}

-- A group with one setting, which is active and complete.
pub record IsSimple (g : InterfaceGroup) : Type 0 where
  pub interface : Interface
  pub only : g.interfaces ≡ some interface ∷ []
  pub count : g.alternate_count ≡ 1
  pub active : g.active_alternate_index ≡ some 0
  pub complete : IsComplete interface

abbrev pub AllSimple : List (Option InterfaceGroup) → Type 0
AllSimple [] = Unit
AllSimple (none ∷ gs) = ⊥
AllSimple (some g ∷ gs) = IsSimple g × AllSimple gs

-- A configuration of such groups, which counts them, and tells the length of its bytes.
pub record IsPlain (c : Configuration) : Type 0 where
  pub header : c.descriptor.b_length ≡ 9
  pub count : c.descriptor.b_num_interfaces ≡ length c.interface_groups
  pub groups : AllSimple c.interface_groups
  pub filled :
      length (Configuration.get_full_descriptor c) ≡ Configuration.get_full_descriptor_length c

abbrev pub faster_interfaces : List (Option Interface) → List (Option Interface)
faster_interfaces [] = []
faster_interfaces (none ∷ is) = none ∷ faster_interfaces is
faster_interfaces (some i ∷ is) = some (faster_interface i) ∷ faster_interfaces is

abbrev pub faster_groups : List (Option InterfaceGroup) → List (Option InterfaceGroup)
faster_groups [] = []
faster_groups (none ∷ gs) = none ∷ faster_groups gs
faster_groups (some g ∷ gs) =
    some (record g { interfaces = faster_interfaces g.interfaces }) ∷ faster_groups gs

-- The same configuration without remote wakeup, and with its type and length.
abbrev pub served : Configuration → Configuration
served c = record c {
  descriptor = record (c.descriptor) {
    b_descriptor_type = 2;
    w_total_length = Configuration.get_full_descriptor_length c;
    bm_attributes = c.descriptor.bm_attributes - bit_and c.descriptor.bm_attributes 0x20;
  };
}

-- That one with the intervals for high speed.
abbrev pub served_faster : Configuration → Configuration
served_faster c = record (served c) { interface_groups = faster_groups c.interface_groups }

take-length : (n : ℕ) (bs : List ℕ) → length bs ≡ n → take n bs ≡ bs
take-length zero [] h = refl
take-length zero (b ∷ bs) h = absurd (omega (arith, h))
take-length (suc n) [] h = absurd (omega (arith, h))
take-length (suc n) (b ∷ bs) h = ap (◌∷◌ b) (take-length n bs (omega (arith, h)))

header_of :
    (d : ConfigDescriptor) → d.b_length ≡ 9 → take d.b_length (config_bytes d) ≡ config_bytes d
unfolding config_bytes
header_of d h = take-length d.b_length (config_bytes d) (omega (arith, h))

full_of :
    (c : Configuration)
    → c.descriptor.b_length ≡ 9
    → Configuration.get_full_descriptor c
      ≡ config_bytes c.descriptor ++ write_groups c.interface_groups
unfolding Configuration.get_full_descriptor
full_of c h = ap (λ b. b ++ write_groups c.interface_groups) (header_of c.descriptor h)

patch : ℕ → List ℕ → List ℕ
patch size buf =
    let attributes = get_or buf 7 0 in
    set (set (set (set buf 1 2) 7 (attributes - bit_and attributes 0x20)) 2 (size % 256)) 3
      (size / 256 % 256)

patch_header :
    (c : Configuration) (rest : List ℕ)
    → patch (Configuration.get_full_descriptor_length c) (config_bytes c.descriptor ++ rest)
      ≡ config_bytes (served c).descriptor ++ rest
unfolding patch config_bytes
patch_header c rest = refl

-- What is copied of a configuration.
pub patched-served :
    (c : Configuration) → IsPlain c → patched c ≡ Configuration.get_full_descriptor (served c)
unfolding patched patch
patched-served c h =
    let size = Configuration.get_full_descriptor_length c in
    let same = config_bytes (served c).descriptor ++ write_groups c.interface_groups in
    let result : patch size (Configuration.get_full_descriptor c) ≡ same =
      ap (patch size) (full_of c h.header) ∙ patch_header c (write_groups c.interface_groups) in
    let long : length same ≡ size =
      unfold config_bytes in (ap length (sym (full_of c h.header)) ∙ h.filled) in
    ap (take size) result ∙ (take-length size same long ∙ sym (full_of (served c) h.header))

group_bytes :
    (g : InterfaceGroup) (h : IsSimple g)
    → InterfaceGroup.get_full_descriptor g ≡ Interface.get_full_descriptor h.interface
unfolding InterfaceGroup.get_full_descriptor InterfaceGroup.write_interfaces
group_bytes g h = rw (h.count, h.only) (append-nil (Interface.get_full_descriptor h.interface))

faster_group_bytes :
    (g : InterfaceGroup) (h : IsSimple g)
    → InterfaceGroup.get_full_descriptor (record g { interfaces = faster_interfaces g.interfaces })
      ≡ Interface.get_full_descriptor (faster_interface h.interface)
unfolding InterfaceGroup.get_full_descriptor InterfaceGroup.write_interfaces
faster_group_bytes g h =
    rw (h.count, h.only) (append-nil (Interface.get_full_descriptor (faster_interface h.interface)))

active_interface :
    (g : InterfaceGroup) (h : IsSimple g) → InterfaceGroup.get_active_interface g ≡ some h.interface
unfolding InterfaceGroup.get_active_interface InterfaceGroup.get_interface
active_interface g h = rw (h.active, h.count, h.only) refl

get_or-middle :
    {A : Type 0} (pre post : List A) (x d : A) → get_or (pre ++ (x ∷ post)) (length pre) d ≡ x
get_or-middle [] post x d = refl
get_or-middle (y ∷ pre) post x d = get_or-middle pre post x d

get_interface-middle :
    (c : Configuration) (pre post : List (Option InterfaceGroup)) (g : InterfaceGroup)
    → c.interface_groups ≡ pre ++ (some g ∷ post)
    → c.descriptor.b_num_interfaces ≡ length c.interface_groups
    → Configuration.get_interface c (length pre) ≡ InterfaceGroup.get_active_interface g
unfolding Configuration.get_interface
get_interface-middle c pre post g split count =
    let inside : ltb (length pre) c.descriptor.b_num_interfaces ≡ true =
      ground (arith, count, ap length split, length-append pre (some g ∷ post)) in
    rw (inside, split, get_or-middle pre post (some g) none) refl

adjust_interfaces-step :
    (c : Configuration) (n k pos : ℕ) (bytes : List ℕ) (r : ℕ × List ℕ)
    → adjust_interface (Configuration.get_interface c k) pos bytes ≡ ok r
    → adjust_interfaces c (suc n) k pos bytes ≡ adjust_interfaces c n (k + 1) r.0 r.1
unfolding adjust_interfaces
adjust_interfaces-step c n k pos bytes r h =
    ap (λ x. x >>= λ s. adjust_interfaces c n (k + 1) s.0 s.1) h

-- The walk over the groups behind `pre`, with their bytes behind `front`.
adjust_interfaces-faster :
    (c : Configuration) (pre gs : List (Option InterfaceGroup)) (front : List ℕ)
    → c.interface_groups ≡ pre ++ gs
    → c.descriptor.b_num_interfaces ≡ length c.interface_groups
    → AllSimple gs
    → adjust_interfaces c (length gs) (length pre) (length front) (front ++ write_groups gs)
      ≡ ok (front ++ write_groups (faster_groups gs))
unfolding adjust_interfaces write_groups
adjust_interfaces-faster c pre [] front split count h = refl
adjust_interfaces-faster c pre (none ∷ gs) front split count h = absurd h
adjust_interfaces-faster c pre (some g ∷ gs) front split count h =
    let i = h.0.interface in
    let whole = front ++ (InterfaceGroup.get_full_descriptor g ++ write_groups gs) in
    let fast = Interface.get_full_descriptor (faster_interface i) in
    let found : Configuration.get_interface c (length pre) ≡ some i =
      get_interface-middle c pre gs g split count ∙ active_interface g h.0 in
    let one : adjust_interface (Configuration.get_interface c (length pre)) (length front) whole
        ≡ ok (walked (front ++ fast) (write_groups gs)) =
      ap (λ o. adjust_interface o (length front) whole) found
      ∙ (ap (λ b. adjust_interface (some i) (length front) (front ++ (b ++ write_groups gs)))
            (group_bytes g h.0)
          ∙ adjust_interface-faster i front (write_groups gs) h.0.complete) in
    let longer : length pre + 1 ≡ length (pre ++ (some g ∷ [])) =
      omega (arith, length-append pre (some g ∷ [])) in
    let moved : pre ++ (some g ∷ gs) ≡ (pre ++ (some g ∷ [])) ++ gs =
      sym (append_assoc pre (some g ∷ []) gs) in
    let rest =
      adjust_interfaces-faster c (pre ++ (some g ∷ [])) gs (front ++ fast) (split ∙ moved) count
        h.1 in
    adjust_interfaces-step c (length gs) (length pre) (length front) whole _ one
    ∙ (ap
          (λ k.
            adjust_interfaces c (length gs) k (length (front ++ fast))
              ((front ++ fast) ++ write_groups gs))
          longer
        ∙ (rest
            ∙ ap ok (
                append_assoc front fast (write_groups (faster_groups gs))
                ∙ ap (λ b. front ++ (b ++ write_groups (faster_groups gs)))
                    (sym (faster_group_bytes g h.0)))))

-- The block of a configuration in the part for full speed, and in that for high speed.
pub full_block-served :
    (c : Configuration)
    → IsPlain c
    → full_block c ≡ ok (Configuration.get_full_descriptor (served c))
unfolding full_block
full_block-served c h = ap ok (patched-served c h)

-- The walk starts behind the header of the configuration.
walk_from_header :
    (c : Configuration) (rest : List ℕ)
    → c.descriptor.b_length ≡ 9
    → (let buf = config_bytes (served c).descriptor ++ rest in
        adjust_interfaces c (get_or buf 4 0) 0 (get_or buf 0 0) buf)
      ≡ adjust_interfaces c c.descriptor.b_num_interfaces 0
          (length (config_bytes (served c).descriptor))
          (config_bytes (served c).descriptor ++ rest)
unfolding config_bytes
walk_from_header c rest h =
    ap
      (λ p.
        adjust_interfaces c c.descriptor.b_num_interfaces 0 p
          (config_bytes (served c).descriptor ++ rest))
      h

pub high_block-served :
    (high : Bool) (c : Configuration)
    → IsPlain c
    → high_block high c
      ≡ ok (Configuration.get_full_descriptor (if high then served c else served_faster c))
unfolding high_block
high_block-served true c h = ap ok (patched-served c h)
high_block-served false c h =
    let header = config_bytes (served c).descriptor in
    let groups = c.interface_groups in
    let buf : patched c ≡ header ++ write_groups groups =
      patched-served c h ∙ full_of (served c) h.header in
    ap (λ b. adjust_interfaces c (get_or b 4 0) 0 (get_or b 0 0) b) buf
    ∙ (walk_from_header c (write_groups groups) h.header
        ∙ (ap (λ n. adjust_interfaces c n 0 (length header) (header ++ write_groups groups)) h.count
            ∙ (adjust_interfaces-faster c [] groups header refl h.count h.groups
                ∙ ap ok (sym (full_of (served_faster c) h.header)))))

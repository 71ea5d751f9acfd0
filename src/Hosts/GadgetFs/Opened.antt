-- ===== src/Hosts/GadgetFs/Opened.antt =====
-- src/Plugins/Hosts/HostProxy_GadgetFS.cpp: setConfig opens the slot of every IN endpoint.
use mathlib.Core.Path.{subst}
use usbproxy_legacy.Prelude.{
  ℕ, ◌+◌, ◌<◌, ◌≡◌, ap, ◌∙◌, Bool, true, false, Option, none, some, has_bits, length-set, arith,
}
use usbproxy_legacy.ConfigParser.{Text}
use usbproxy_legacy.Descriptors.{EndpointDescriptor}
use usbproxy_legacy.Usb.Interface
use usbproxy_legacy.Usb.Interface.{Interface}
use usbproxy_legacy.Usb.Configuration
use usbproxy_legacy.Usb.Configuration.{Configuration}
use usbproxy_legacy.Hosts.Kernel.{Kernel}
use usbproxy_legacy.Hosts.GadgetFs.{GadgetFs}
use usbproxy_legacy.Hosts.GadgetFs.Transfers.{number_of}
use usbproxy_legacy.Hosts.GadgetFs.Endpoints.{
  in_aio, fill_slot, open_slot, open_file, open_named, open_at, endpoint_round, open_alternate,
  alternate_round, interface_round, set_config,
}
use usbproxy_legacy.Hosts.GadgetFs.Slots.{
  Going, IsOpen, HasSixteen, HasSixteen-IsKept, IsOpen-IsKept, is_given-with_in, rounds-reach,
  open_at-keep, open_alternate-keep, interface_round-keep,
}

module _ {E : Type 0} (kernel : Kernel E) (high : Bool) (ep : EndpointDescriptor)
    (is_in : has_bits ep.b_endpoint_address 0x80 ≡ true) where
  abbrev number : ℕ
  number = number_of ep.b_endpoint_address

  opened_here :
      (b : Bool) (fd size : ℕ) (e : E) (g : GadgetFs)
      → b ≡ true
      → HasSixteen g
      → Going (IsOpen number) (fill_slot kernel high b number fd size e g)
  unfolding fill_slot
  opened_here true fd size e g t h = record {
    sixteen = length-set g.epin_async number (some (in_aio fd)) ∙ h;
    is_open = is_given-with_in g number number (in_aio fd) (omega (arith, h)) ∙ ground arith;
  }
  opened_here false fd size e g t h = cc

  open_file-here :
      (g : GadgetFs) (hs : EndpointDescriptor) (r : E × Option ℕ)
      → HasSixteen g
      → Going (IsOpen number) (open_file kernel high g ep hs r)
  unfolding open_file open_slot
  open_file-here g hs (e, none) h = tt
  open_file-here g hs (e, some fd) h =
      opened_here (has_bits ep.b_endpoint_address 0x80) fd _ _ g is_in h

  open_named-here :
      (e : E) (g : GadgetFs) (hs : EndpointDescriptor) (name : Option Text)
      → HasSixteen g
      → Going (IsOpen number) (open_named kernel high e g ep hs name)
  unfolding open_named
  open_named-here e g hs none h = tt
  open_named-here e g hs (some name) h = open_file-here g hs _ h

  open_at-here :
      (o hs : Option EndpointDescriptor) (e : E) (g : GadgetFs)
      → o ≡ some ep
      → HasSixteen g
      → Going (IsOpen number) (open_at kernel high o hs e g)
  unfolding open_at
  open_at-here o hs e g q h = rw q (open_named-here e g _ g.device_filename h)

  open_alternate-here :
      (o hs : Option Interface) (ifc : Interface) (j : ℕ) (e : E) (g : GadgetFs)
      → o ≡ some ifc
      → j < ifc.descriptor.b_num_endpoints
      → Interface.get_endpoint_by_idx ifc j ≡ some ep
      → HasSixteen g
      → Going (IsOpen number) (open_alternate kernel high o hs e g)
  unfolding open_alternate endpoint_round
  open_alternate-here o hs ifc j e g q lt slot h = rw q (
      rounds-reach HasSixteen (IsOpen number) _ ifc.descriptor.b_num_endpoints 0 j e g
        (λ m e' g' h'.
          open_at-keep kernel high HasSixteen HasSixteen-IsKept
            (Interface.get_endpoint_by_idx ifc m) _ e' g' h')
        (λ m e' g' h'.
          open_at-keep kernel high (IsOpen number) (IsOpen-IsKept number)
            (Interface.get_endpoint_by_idx ifc m) _ e' g' h')
        (λ e' g' h'.
          open_at-here (Interface.get_endpoint_by_idx ifc (0 + j)) _ e' g'
            (ap (Interface.get_endpoint_by_idx ifc) (omega arith) ∙ slot) h')
        lt h)

  interface_round-here :
      (fs : Configuration) (hs : Option Configuration) (ifc : Interface) (i a j : ℕ) (e : E)
      (g : GadgetFs)
      → a < Configuration.get_interface_alternate_count fs i
      → Configuration.get_interface_alternate fs i a ≡ some ifc
      → j < ifc.descriptor.b_num_endpoints
      → Interface.get_endpoint_by_idx ifc j ≡ some ep
      → HasSixteen g
      → Going (IsOpen number) (interface_round kernel high fs hs i e g)
  unfolding interface_round alternate_round
  interface_round-here fs hs ifc i a j e g la q lt slot h =
      rounds-reach HasSixteen (IsOpen number) _ (Configuration.get_interface_alternate_count fs i) 0
        a e g
        (λ m e' g' h'.
          open_alternate-keep kernel high HasSixteen HasSixteen-IsKept
            (Configuration.get_interface_alternate fs i m) _ e' g' h')
        (λ m e' g' h'.
          open_alternate-keep kernel high (IsOpen number) (IsOpen-IsKept number)
            (Configuration.get_interface_alternate fs i m) _ e' g' h')
        (λ e' g' h'.
          open_alternate-here (Configuration.get_interface_alternate fs i (0 + a)) _ ifc j e' g'
            (ap (Configuration.get_interface_alternate fs i) (omega arith) ∙ q) lt slot h')
        la h

  -- Unless setConfig stops at a file that cannot be opened or at a null pointer, every IN endpoint
  -- of every alternate setting of every interface of the full-speed configuration has an open slot
  -- behind it, at its number.
  pub set_config-IsOpen :
      (fs : Configuration) (hs : Option Configuration) (ifc : Interface) (i a j : ℕ) (e : E)
      (g : GadgetFs)
      → i < fs.descriptor.b_num_interfaces
      → a < Configuration.get_interface_alternate_count fs i
      → Configuration.get_interface_alternate fs i a ≡ some ifc
      → j < ifc.descriptor.b_num_endpoints
      → Interface.get_endpoint_by_idx ifc j ≡ some ep
      → HasSixteen g
      → Going (IsOpen number) (set_config kernel high fs hs e g)
  unfolding set_config
  set_config-IsOpen fs hs ifc i a j e g li la q lt slot h =
      rounds-reach HasSixteen (IsOpen number) _ fs.descriptor.b_num_interfaces 0 i e g
        (λ m e' g' h'.
          interface_round-keep kernel high HasSixteen HasSixteen-IsKept fs hs m e' g' h')
        (λ m e' g' h'.
          interface_round-keep kernel high (IsOpen number) (IsOpen-IsKept number) fs hs m e' g' h')
        (λ e' g' h'.
          subst (λ m. Going (IsOpen number) (interface_round kernel high fs hs m e' g'))
            (let z : i ≡ 0 + i = omega arith in z)
            (interface_round-here fs hs ifc i a j e' g' la q lt slot h'))
        li h

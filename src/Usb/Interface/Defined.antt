-- ===== src/Usb/Interface/Defined.antt =====
-- src/lib/Interface.cpp: what it means that is_defined finds no error.
use usbproxy_legacy.Prelude.{ℕ, ◌+◌, ◌≡◌, ◌↔◌, refl, Option, none, some, List, [], ◌∷◌, All, arith}
use usbproxy_legacy.Descriptors.{EndpointDescriptor}
use usbproxy_legacy.Usb.Errors.{DefinitionError, no_error, or_else}
use usbproxy_legacy.Usb.Endpoint
use usbproxy_legacy.Usb.Interface.{Interface, endpoints_defined, is_defined}

abbrev pub IsFilled : Option EndpointDescriptor → Type 0
IsFilled none = ⊥
IsFilled (some e) = Endpoint.IsDefined e

-- Length and type are those of an interface descriptor, and each slot has a defined endpoint.
pub record IsDefined (i : Interface) : Type 0 where
  pub b_length : i.descriptor.b_length ≡ 9
  pub b_type : i.descriptor.b_descriptor_type ≡ 4
  pub slots : All IsFilled i.endpoints

or_else-no_error :
    (rc next : DefinitionError)
    → ((or_else rc next).error ≡ no_error) ↔ ((rc.error ≡ no_error) × (next.error ≡ no_error))
or_else-no_error rc next = (λ h. ground arith, λ h. ground arith)

endpoints_defined_iff :
    (es : List (Option EndpointDescriptor)) (n config ifc alternate : ℕ)
    → ((endpoints_defined es n config ifc alternate).error ≡ no_error) ↔ All IsFilled es
unfolding endpoints_defined
endpoints_defined_iff [] n config ifc alternate = (λ h. tt, λ h. refl)
endpoints_defined_iff (none ∷ es) n config ifc alternate =
    (λ h. absurd (ground arith), λ h. absurd h.0)
endpoints_defined_iff (some e ∷ es) n config ifc alternate =
    let first = Endpoint.endpoint_is_defined_iff e config ifc alternate in
    let rest = endpoints_defined_iff es (n + 1) config ifc alternate in
    let both =
      or_else-no_error (Endpoint.is_defined e config ifc alternate)
        (endpoints_defined es (n + 1) config ifc alternate) in
    (λ h. (first.0 (both.0 h).0, rest.0 (both.0 h).1), λ h. both.1 (first.1 h.0, rest.1 h.1))

-- is_defined finds no error exactly if the interface descriptor has its length and type and each
-- endpoint slot is filled with a defined endpoint.
pub interface_is_defined_iff :
    (i : Interface) (config ifc : ℕ) → ((is_defined i config ifc).error ≡ no_error) ↔ IsDefined i
unfolding is_defined
interface_is_defined_iff i config ifc =
    let slots = endpoints_defined_iff i.endpoints 0 config ifc i.descriptor.b_alternate_setting in
    (λ h. ground arith, λ h. ground arith)

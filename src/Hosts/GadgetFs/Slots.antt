-- ===== src/Hosts/GadgetFs/Slots.antt =====
-- src/Plugins/Hosts/HostProxy_GadgetFS.cpp: the slots of the endpoints behind setConfig.
use mathlib.Core.Path.{subst}
use usbproxy_legacy.Prelude.{
  ℕ, zero, suc, ◌+◌, ◌<◌, ◌≡◌, refl, ◌∙◌, inl, inr, Bool, true, false, Option, none, some, List,
  set, length, is_given, get_or-set, length-set, Bool-cases, ◌==◌, if◌then◌else◌, arith,
}
use usbproxy_legacy.ConfigParser.{Text}
use usbproxy_legacy.Descriptors.{EndpointDescriptor}
use usbproxy_legacy.Usb.Interface
use usbproxy_legacy.Usb.Interface.{Interface}
use usbproxy_legacy.Usb.Configuration
use usbproxy_legacy.Usb.Configuration.{Configuration}
use usbproxy_legacy.Hosts.Kernel.{Kernel, Aio}
use usbproxy_legacy.Hosts.GadgetFs.{GadgetFs}
use usbproxy_legacy.Hosts.GadgetFs.Transfers.{number_of, in_slot}
use usbproxy_legacy.Hosts.GadgetFs.Endpoints.{
  in_aio, out_aio, fill_slot, reading, Run, going, stopped, crashed, ◌>>=◌, rounds, open_slot,
  open_file, open_named, open_at, endpoint_round, open_alternate, alternate_round, interface_round,
}

-- The IN slot `k` is open, and there are 16 slots.
pub record IsOpen (k : ℕ) (g : GadgetFs) : Type 0 where
  pub sixteen : length g.epin_async ≡ 16
  pub is_open : is_given (in_slot g k) ≡ true

-- `P` holds if the loops go on.
abbrev pub Going : {E : Type 0} → (GadgetFs → Type 0) → Run E → Type 0
Going P (going e g) = P g
Going P (stopped e g) = Unit
Going P crashed = Unit

Going->>= :
    {E : Type 0} (P Q : GadgetFs → Type 0) (m : Run E) (f : E → GadgetFs → Run E)
    → Going P m
    → ((e : E) (g : GadgetFs) → P g → Going Q (f e g))
    → Going Q (m >>= f)
Going->>= P Q (going e g) f h k = k e g h
Going->>= P Q (stopped e g) f h k = tt
Going->>= P Q crashed f h k = tt

-- What each round keeps, the loop keeps.
pub rounds-keep :
    {E : Type 0} (P : GadgetFs → Type 0) (body : ℕ → E → GadgetFs → Run E) (n i : ℕ) (e : E)
    (g : GadgetFs)
    → ((j : ℕ) (e : E) (g : GadgetFs) → P g → Going P (body j e g))
    → P g
    → Going P (rounds body n i e g)
unfolding rounds
rounds-keep P body zero i e g keep h = h
rounds-keep P body (suc n) i e g keep h =
    Going->>= P P (body i e g) _ (keep i e g h)
      (λ e' g' h'. rounds-keep P body n (i + 1) e' g' keep h')

-- What one round brings about and the others keep, holds behind the loop. `P` holds all the way.
pub rounds-reach :
    {E : Type 0} (P Q : GadgetFs → Type 0) (body : ℕ → E → GadgetFs → Run E) (n i j : ℕ) (e : E)
    (g : GadgetFs)
    → ((m : ℕ) (e : E) (g : GadgetFs) → P g → Going P (body m e g))
    → ((m : ℕ) (e : E) (g : GadgetFs) → Q g → Going Q (body m e g))
    → ((e : E) (g : GadgetFs) → P g → Going Q (body (i + j) e g))
    → j < n
    → P g
    → Going Q (rounds body n i e g)
unfolding rounds
rounds-reach P Q body zero i j e g keep stay here lt h = absurd (omega arith)
rounds-reach P Q body (suc n) i zero e g keep stay here lt h =
    let at : Going Q (body i e g) =
      subst (λ m. Going Q (body m e g)) (let z : i + 0 ≡ i = omega arith in z) (here e g h) in
    Going->>= Q Q (body i e g) _ at (λ e' g' h'. rounds-keep Q body n (i + 1) e' g' stay h')
rounds-reach P Q body (suc n) i (suc j) e g keep stay here lt h =
    Going->>= P Q (body i e g) _ (keep i e g h) (λ e' g' h'.
      rounds-reach P Q body n (i + 1) j e' g' keep stay
        (λ e'' g'' h''.
          subst (λ m. Going Q (body m e'' g'')) (let z : i + suc j ≡ i + 1 + j = omega arith in z)
            (here e'' g'' h''))
        (omega arith) h')

abbrev pub with_in : GadgetFs → ℕ → Aio → GadgetFs
with_in g n aio = record g { epin_async = set g.epin_async n (some aio) }

abbrev pub HasSixteen : GadgetFs → Type 0
HasSixteen g = length g.epin_async ≡ 16

-- A predicate that opening a slot keeps.
pub record IsKept (P : GadgetFs → Type 0) : Type 0 where
  pub by_in : (g : GadgetFs) (n : ℕ) (aio : Aio) → n < 16 → P g → P (with_in g n aio)
  pub by_out : (g : GadgetFs) (l : List (Option Aio)) → P g → P (record g { epout_async = l })

pub HasSixteen-IsKept : IsKept HasSixteen
HasSixteen-IsKept = record {
  by_in = λ g n aio lt h. length-set g.epin_async n (some aio) ∙ h;
  by_out = λ g l h. h;
}

pub is_given-with_in :
    (g : GadgetFs) (k n : ℕ) (aio : Aio)
    → n < length g.epin_async
    → is_given (in_slot (with_in g n aio) k) ≡ (if k == n then true else is_given (in_slot g k))
is_given-with_in g k n aio h =
    rw (get_or-set g.epin_async n k (some aio) none h)
      (elim (Bool-cases (k == n)) [ inl e ↦ rw e refl | inr e ↦ rw e refl ])

pub IsOpen-IsKept : (k : ℕ) → IsKept (IsOpen k)
IsOpen-IsKept k = record {
  by_in = λ g n aio lt h. record {
    sixteen = length-set g.epin_async n (some aio) ∙ h.sixteen;
    is_open = is_given-with_in g k n aio (omega (arith, h.sixteen)) ∙ ground (arith, h.is_open);
  };
  by_out = λ g l h. record { sixteen = h.sixteen; is_open = h.is_open };
}

module _ {E : Type 0} (kernel : Kernel E) (high : Bool) (P : GadgetFs → Type 0)
    (kept : IsKept P) where
  reading-keep :
      (g : GadgetFs) (n : ℕ) (aio : Aio) (r : E × Bool)
      → P g
      → Going P (reading kernel high g n aio r)
  unfolding reading
  reading-keep g n aio (e, true) h = kept.by_out g (set g.epout_async n (some aio)) h
  reading-keep g n aio (e, false) h = h

  fill_slot-keep :
      (is_in : Bool) (n fd size : ℕ) (e : E) (g : GadgetFs)
      → n < 16
      → P g
      → Going P (fill_slot kernel high is_in n fd size e g)
  unfolding fill_slot
  fill_slot-keep true n fd size e g lt h = kept.by_in g n (in_aio fd) lt h
  fill_slot-keep false n fd size e g lt h =
      reading-keep g n (out_aio fd size) (kernel.aio_read e (out_aio fd size)) h

  open_file-keep :
      (g : GadgetFs) (fs hs : EndpointDescriptor) (r : E × Option ℕ)
      → P g
      → Going P (open_file kernel high g fs hs r)
  unfolding open_file open_slot
  open_file-keep g fs hs (e, none) h = tt
  open_file-keep g fs hs (e, some fd) h =
      fill_slot-keep _ (number_of fs.b_endpoint_address) fd _ _ g (omega arith) h

  open_named-keep :
      (e : E) (g : GadgetFs) (fs hs : EndpointDescriptor) (name : Option Text)
      → P g
      → Going P (open_named kernel high e g fs hs name)
  unfolding open_named
  open_named-keep e g fs hs none h = tt
  open_named-keep e g fs hs (some name) h = open_file-keep g fs hs _ h

  pub open_at-keep :
      (fs hs : Option EndpointDescriptor) (e : E) (g : GadgetFs)
      → P g
      → Going P (open_at kernel high fs hs e g)
  unfolding open_at
  open_at-keep none hs e g h = tt
  open_at-keep (some fs) hs e g h = open_named-keep e g fs _ g.device_filename h

  pub open_alternate-keep :
      (fs hs : Option Interface) (e : E) (g : GadgetFs)
      → P g
      → Going P (open_alternate kernel high fs hs e g)
  unfolding open_alternate endpoint_round
  open_alternate-keep none hs e g h = tt
  open_alternate-keep (some fs) hs e g h =
      rounds-keep P _ fs.descriptor.b_num_endpoints 0 e g
        (λ j e' g' h'. open_at-keep (Interface.get_endpoint_by_idx fs j) _ e' g' h') h

  pub interface_round-keep :
      (fs : Configuration) (hs : Option Configuration) (i : ℕ) (e : E) (g : GadgetFs)
      → P g
      → Going P (interface_round kernel high fs hs i e g)
  unfolding interface_round alternate_round
  interface_round-keep fs hs i e g h =
      rounds-keep P _ (Configuration.get_interface_alternate_count fs i) 0 e g
        (λ a e' g' h'.
          open_alternate-keep (Configuration.get_interface_alternate fs i a) _ e' g' h')
        h

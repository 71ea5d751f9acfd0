-- ===== src/Devices/LibUsb/Claims.antt =====
-- src/Plugins/Devices/DeviceProxy_LibUSB.cpp: the entries of the endpoints against the interfaces
-- that libusb holds for the program.
use usbproxy_legacy.Prelude.{
  ℕ, zero, suc, ◌≡◌, refl, ◌∙◌, Bool, true, false, ◌&&◌, Option, List, [], ◌∷◌, map, ◌==◌,
  if◌then◌else◌, get_or, Bool-cases, inl, inr, is_given, arith,
}
use usbproxy_legacy.Devices.LibUsb.{
  Library, LibUsbProxy, EpInterface, no_interface, is_success, is_released, is_connected, ep_slot,
  ep_interface, endpoint_interface_claimed, mark_slot, mark, claim_interface, release_interface,
}

pub data ClaimCall : Type 0 where
  claim release : ℕ → ClaimCall

abbrev hold : ℕ → Bool → (ℕ → Bool) → ℕ → Bool
hold n b held k = if k == n then b else held k

module _ {E : Type 0} (lib : Library E) where
  -- A call through the proxy.
  unfoldable pub call : ClaimCall → E → LibUsbProxy → E × LibUsbProxy
  call (claim n) e p = claim_interface lib e p n
  call (release n) e p = release_interface lib e p n

  unfoldable pub run : List ClaimCall → E → LibUsbProxy → E × LibUsbProxy
  run [] e p = (e, p)
  run (c ∷ cs) e p = run cs (call c e p).0 (call c e p).1

  -- What libusb holds after the same call, with the same answers; nothing is called without a
  -- handle.
  unfoldable pub held_call : Option ℕ → ClaimCall → E → (ℕ → Bool) → E × (ℕ → Bool)
  held_call h (claim n) e held =
      let (e', rc) = lib.claim_interface e h n in
      if is_given h then (e', if is_success rc then hold n true held else held) else (e, held)
  held_call h (release n) e held =
      let (e', rc) = lib.release_interface e h n in
      if is_given h then (e', if is_released rc then hold n false held else held) else (e, held)

  unfoldable pub held_run : Option ℕ → List ClaimCall → E → (ℕ → Bool) → E × (ℕ → Bool)
  held_run h [] e held = (e, held)
  held_run h (c ∷ cs) e held = held_run h cs (held_call h c e held).0 (held_call h c e held).1

get_or-map :
    (f : EpInterface → EpInterface) (xs : List EpInterface) (k : ℕ) (d : EpInterface)
    → get_or (map f xs) k (f d) ≡ f (get_or xs k d)
get_or-map f [] k d = refl
get_or-map f (x ∷ xs) zero d = refl
get_or-map f (x ∷ xs) (suc k) d = get_or-map f xs k d

ep_interface-mark :
    (n : ℕ) (b : Bool) (p : LibUsbProxy) (ep : ℕ)
    → ep_interface (mark n b p) ep ≡ mark_slot n b (ep_interface p ep)
unfolding mark mark_slot
ep_interface-mark n b p ep = get_or-map (mark_slot n b) p.ep_interfaces (ep_slot ep) no_interface

-- The entry `i` says the truth about what is held.
abbrev Agrees : EpInterface → (ℕ → Bool) → Type 0
Agrees i held = i.is_defined ≡ true → i.claimed ≡ held i.interface

mark_slot-Agrees :
    (n : ℕ) (b : Bool) (i : EpInterface) (held : ℕ → Bool)
    → Agrees i held
    → Agrees (mark_slot n b i) (hold n b held)
unfolding mark_slot
mark_slot-Agrees n b i held h d = ground arith

-- The entry after a call, with what is held after it.
record Followed (i i' : EpInterface) (held : ℕ → Bool) : Type 0 where
  is_defined : i'.is_defined ≡ i.is_defined
  interface : i'.interface ≡ i.interface
  agrees : Agrees i' held

mark-Followed :
    (n : ℕ) (b : Bool) (i : EpInterface) (held : ℕ → Bool)
    → Agrees i held
    → Followed i (mark_slot n b i) (hold n b held)
mark-Followed n b i held h = record {
  is_defined = unfold mark_slot in ground arith;
  interface = unfold mark_slot in ground arith;
  agrees = mark_slot-Agrees n b i held h;
}

module _ {E : Type 0} (lib : Library E) (ep : ℕ) where
  marked_if :
      (t : Bool) (n : ℕ) (b : Bool) (p : LibUsbProxy) (held : ℕ → Bool)
      → Agrees (ep_interface p ep) held
      → Followed
          (ep_interface p ep)
          (ep_interface (if t then mark n b p else p) ep)
          (if t then hold n b held else held)
  marked_if true n b p held h =
      rw (ep_interface-mark n b p ep) (mark-Followed n b (ep_interface p ep) held h)
  marked_if false n b p held h = record { is_defined = refl; interface = refl; agrees = h }

  call-Followed :
      (c : ClaimCall) (e : E) (p : LibUsbProxy) (held : ℕ → Bool)
      → Agrees (ep_interface p ep) held
      → Followed
          (ep_interface p ep)
          (ep_interface (call lib c e p).1 ep)
          (held_call lib p.dev_handle c e held).1
  unfolding call held_call claim_interface release_interface is_connected
  call-Followed (claim n) e p held h = elim (Bool-cases (is_given p.dev_handle)) [
    | inl c ↦ rw c (marked_if (is_success (lib.claim_interface e p.dev_handle n).1) n true p held h)
    | inr c ↦ rw c (record { is_defined = refl; interface = refl; agrees = h })
  ]
  call-Followed (release n) e p held h = elim (Bool-cases (is_given p.dev_handle)) [
    | inl c ↦
        rw c (marked_if (is_released (lib.release_interface e p.dev_handle n).1) n false p held h)
    | inr c ↦ rw c (record { is_defined = refl; interface = refl; agrees = h })
  ]

  dev_handle-mark :
      (t : Bool) (n : ℕ) (b : Bool) (p : LibUsbProxy)
      → (if t then mark n b p else p).dev_handle ≡ p.dev_handle
  unfolding mark
  dev_handle-mark true n b p = refl
  dev_handle-mark false n b p = refl

  dev_handle-call :
      (c : ClaimCall) (e : E) (p : LibUsbProxy) → (call lib c e p).1.dev_handle ≡ p.dev_handle
  unfolding call claim_interface release_interface
  dev_handle-call (claim n) e p = elim (Bool-cases (is_connected p)) [
    | inl c ↦ rw c (dev_handle-mark (is_success (lib.claim_interface e p.dev_handle n).1) n true p)
    | inr c ↦ rw c refl
  ]
  dev_handle-call (release n) e p = elim (Bool-cases (is_connected p)) [
    | inl c ↦
        rw c (dev_handle-mark (is_released (lib.release_interface e p.dev_handle n).1) n false p)
    | inr c ↦ rw c refl
  ]

  world-call :
      (c : ClaimCall) (e : E) (p : LibUsbProxy) (held : ℕ → Bool)
      → (call lib c e p).0 ≡ (held_call lib p.dev_handle c e held).0
  unfolding call held_call claim_interface release_interface is_connected
  world-call (claim n) e p held = ground arith
  world-call (release n) e p held = ground arith

  claimed_of_Agrees :
      (p : LibUsbProxy) (held : ℕ → Bool)
      → Agrees (ep_interface p ep) held
      → endpoint_interface_claimed p ep
        ≡ (ep_interface p ep).is_defined && held (ep_interface p ep).interface
  unfolding endpoint_interface_claimed
  claimed_of_Agrees p held h = elim (Bool-cases (ep_interface p ep).is_defined) [
    | inl d ↦ ground (arith, h d)
    | inr d ↦ ground arith
  ]

  run-Agrees :
      (cs : List ClaimCall) (e : E) (p : LibUsbProxy) (held : ℕ → Bool)
      → Agrees (ep_interface p ep) held
      → endpoint_interface_claimed (run lib cs e p).1 ep
        ≡ (ep_interface p ep).is_defined
          && (held_run lib p.dev_handle cs e held).1 (ep_interface p ep).interface
  unfolding run held_run
  run-Agrees [] e p held h = claimed_of_Agrees p held h
  run-Agrees (c ∷ cs) e p held h =
      let f = call-Followed c e p held h in
      let rest =
        run-Agrees cs (call lib c e p).0 (call lib c e p).1 (held_call lib p.dev_handle c e held).1
          f.agrees in
      rest ∙ rw (f.is_defined, f.interface, dev_handle-call c e p, world-call c e p held) refl

  -- Whatever interfaces are claimed and released, and whichever of these calls libusb refuses, an
  -- endpoint whose entry was not marked counts as claimed exactly if an interface is defined for it
  -- and libusb holds this interface.
  pub run-endpoint_interface_claimed :
      (cs : List ClaimCall) (e : E) (p : LibUsbProxy)
      → (ep_interface p ep).claimed ≡ false
      → endpoint_interface_claimed (run lib cs e p).1 ep
        ≡ (ep_interface p ep).is_defined
          && (held_run lib p.dev_handle cs e (λ _. false)).1 (ep_interface p ep).interface
  run-endpoint_interface_claimed cs e p h = run-Agrees cs e p (λ _. false) (λ _. h)

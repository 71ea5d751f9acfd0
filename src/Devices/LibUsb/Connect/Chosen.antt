-- ===== src/Devices/LibUsb/Connect/Chosen.antt =====
-- src/Plugins/Devices/DeviceProxy_LibUSB.cpp: the device that connect finds, and what is left of a
-- connection that fails half-way.
use usbproxy_legacy.Prelude.{
  ℕ, ◌≡◌, ◌≢◌, refl, Bool, true, false, not, Option, none, some, List, [], ◌∷◌, ◌++◌, is_given, All,
  Bool-cases, inl, inr, arith,
}
use usbproxy_legacy.Prelude.{sym, ap, ◌∙◌, ◌⊎◌}
use usbproxy_legacy.Descriptors.{DeviceDescriptor}
use usbproxy_legacy.Devices.LibUsb.{
  Library, LibUsbProxy, success, Failure, is_success, Answer, got, refused, is_connected,
}
use mathlib.Core.Path.{subst}
use usbproxy_legacy.Devices.LibUsb.Connect.{
  matches, candidate, find, registered, register, responsive, opened, chosen, listed, connect_to,
}

Option-cases : {A : Type 0} (o : Option A) → (o ≡ none) ⊎ ((a : A) × (o ≡ some a))
Option-cases none = inl refl
Option-cases (some a) = inr (a, refl)

-- No descriptor, or one that is not wanted.
abbrev pub is_passed : (DeviceDescriptor → Bool) → Answer DeviceDescriptor → Bool
is_passed wanted (refused f) = true
is_passed wanted (got d) = not (wanted d)

-- `device` is the first of the list whose descriptor is given and wanted.
pub record IsFirst {E : Type 0} (lib : Library E) (wanted : DeviceDescriptor → Bool) (e : E)
    (devices : List ℕ) (device : ℕ) (d : DeviceDescriptor) : Type 0 where
  pub before : List ℕ
  pub after : List ℕ
  pub split : devices ≡ before ++ (device ∷ after)
  pub skipped : All (λ k. is_passed wanted (lib.get_device_descriptor e k) ≡ true) before
  pub descriptor : lib.get_device_descriptor e device ≡ got d
  pub is_wanted : wanted d ≡ true

module _ {E : Type 0} (lib : Library E) (vendor product : Option ℕ) (hubs : Bool) where
  candidate-eq-none :
      (device : ℕ) (a : Answer DeviceDescriptor)
      → candidate vendor product hubs device a ≡ none
      → is_passed (matches vendor product hubs) a ≡ true
  unfolding candidate
  candidate-eq-none device (refused f) h = refl
  candidate-eq-none device (got d') h = ground arith

  candidate-eq-some :
      (device : ℕ) (a : Answer DeviceDescriptor) (device' : ℕ) (d : DeviceDescriptor)
      → candidate vendor product hubs device a ≡ some (device', d)
      → (device ≡ device') × (a ≡ got d) × (matches vendor product hubs d ≡ true)
  unfolding candidate
  candidate-eq-some device (refused f) device' d h = cc
  candidate-eq-some device (got d') device' d h = ground arith

  -- The device that the loop stops at is the first one that is wanted.
  find-IsFirst :
      (e : E) (devices : List ℕ) (device : ℕ) (d : DeviceDescriptor)
      → find lib vendor product hubs e devices ≡ some (device, d)
      → IsFirst lib (matches vendor product hubs) e devices device d
  unfolding find
  find-IsFirst e [] device d h = cc
  find-IsFirst e (k ∷ ks) device d h =
      let a = lib.get_device_descriptor e k in
      elim (Option-cases (candidate vendor product hubs k a)) [
        | inl n ↦
            let rest = find-IsFirst e ks device d (rw n at h) in
            record {
              before = k ∷ rest.before;
              after = rest.after;
              split = ap (◌∷◌ k) rest.split;
              skipped = (candidate-eq-none k a n, rest.skipped);
              descriptor = rest.descriptor;
              is_wanted = rest.is_wanted;
            }
        | inr (c, s) ↦
            let here : some c ≡ some (device, d) = sym (rw s) ∙ h in
            let facts = candidate-eq-some k a device d (s ∙ here) in
            record {
              before = [];
              after = ks;
              split = ap (λ j. j ∷ ks) facts.0;
              skipped = tt;
              descriptor = ap (lib.get_device_descriptor e) (sym facts.0) ∙ facts.1;
              is_wanted = facts.2;
            }
      ]

module _ {E : Type 0} (lib : Library E) where
  -- Behind `libusb_open` nothing takes the handle away.
  registered-handle :
      (e : E) (p : LibUsbProxy) (ctx : ℕ) (a : Answer ℕ)
      → (registered lib e p ctx a).1.dev_handle ≡ p.dev_handle
  unfolding registered
  registered-handle e p ctx (got n) = refl
  registered-handle e p ctx (refused f) = refl

  register-handle :
      (e : E) (p : LibUsbProxy) (ctx : ℕ) (d : DeviceDescriptor) (o : Option ℕ)
      → (register lib e p ctx d o).1.dev_handle ≡ p.dev_handle
  unfolding register
  register-handle e p ctx d (some n) = refl
  register-handle e p ctx d none =
      let r = lib.hotplug_register_callback e ctx d.id_vendor d.id_product in
      registered-handle r.0 p ctx r.1

  responsive-handle :
      (e : E) (p : LibUsbProxy) (ctx : ℕ) (d : DeviceDescriptor) (a : Answer ℕ)
      → (responsive lib e p ctx d a).1.dev_handle ≡ p.dev_handle
  unfolding responsive
  responsive-handle e p ctx d (got n) = register-handle e p ctx d p.callback_handle
  responsive-handle e p ctx d (refused f) = refl

  opened-handle :
      (e : E) (p : LibUsbProxy) (ctx : ℕ) (devices : List ℕ) (d : DeviceDescriptor) (h : ℕ)
      → (opened lib e p ctx devices d (got h)).1.dev_handle ≡ some h
  unfolding opened
  opened-handle e p ctx devices d h =
      let p' = record p { dev_handle = some h } in
      let r = lib.set_auto_detach_kernel_driver (lib.free_device_list e devices) h in
      let s = lib.get_string_descriptor r.0 h in
      elim (Bool-cases (is_success r.1)) [
        | inl g ↦ rw g (responsive-handle s.0 p' ctx d s.1)
        | inr g ↦ rw g refl
      ]

  opened-refused :
      (e : E) (p : LibUsbProxy) (ctx : ℕ) (devices : List ℕ) (d : DeviceDescriptor) (f : Failure)
      → (opened lib e p ctx devices d (refused f)).2 ≢ success
  unfolding opened
  opened-refused e p ctx devices d f s = cc

  -- A handle that `libusb_open` gave, of the device that was looked for.
  pub record Opened (wanted : DeviceDescriptor → Bool) (e : E) (devices : List ℕ) (p : LibUsbProxy)
      : Type 0 where
    pub device : ℕ
    pub d : DeviceDescriptor
    pub h : ℕ
    pub first : IsFirst lib wanted e devices device d
    pub is_open : (lib.open_device e device).1 ≡ got h
    pub handle : p.dev_handle ≡ some h

  Answer-cases : (a : Answer ℕ) → ((f : Failure) × (a ≡ refused f)) ⊎ ((n : ℕ) × (a ≡ got n))
  Answer-cases (refused f) = inl (f, refl)
  Answer-cases (got n) = inr (n, refl)

  chosen-Opened :
      (vendor product : Option ℕ) (hubs : Bool) (e : E) (p : LibUsbProxy) (ctx : ℕ)
      (devices : List ℕ) (o : Option (ℕ × DeviceDescriptor))
      → find lib vendor product hubs e devices ≡ o
      → (chosen lib e p ctx devices o).2 ≡ success
      → Opened (matches vendor product hubs) e devices (chosen lib e p ctx devices o).1
  unfolding chosen
  chosen-Opened vendor product hubs e p ctx devices none f s = cc
  chosen-Opened vendor product hubs e p ctx devices (some (device, d)) f s =
      let r = lib.open_device e device in
      elim (Answer-cases r.1) [
        | inl (x, a) ↦ absurd (opened-refused r.0 p ctx devices d x (rw a at s))
        | inr (h, a) ↦ record {
          device = device;
          d = d;
          h = h;
          first = find-IsFirst lib vendor product hubs e devices device d f;
          is_open = a;
          handle = rw a (opened-handle r.0 p ctx devices d h);
        }
      ]

  chosen-handle :
      (e : E) (p : LibUsbProxy) (ctx : ℕ) (devices : List ℕ) (device : ℕ) (d : DeviceDescriptor)
      (h : ℕ)
      → (lib.open_device e device).1 ≡ got h
      → (chosen lib e p ctx devices (some (device, d))).1.dev_handle ≡ some h
  unfolding chosen
  chosen-handle e p ctx devices device d h o =
      rw o (opened-handle (lib.open_device e device).0 p ctx devices d h)

  -- libusb's list, in a new context.
  abbrev pub device_list : E → E × Answer (List ℕ)
  device_list e = lib.get_device_list (lib.init e).0 (lib.init e).1

  abbrev listing : LibUsbProxy → ℕ → LibUsbProxy
  listing p ctx = record p { private_context = true; private_device = true; lib_context = some ctx }

  connect_to-chosen :
      (e : E) (p : LibUsbProxy) (vendor product : Option ℕ) (hubs : Bool) (devices : List ℕ)
      → is_connected p ≡ false
      → (device_list e).1 ≡ got devices
      → connect_to lib e p vendor product hubs
        ≡ chosen lib
            (device_list e).0
            (listing p (lib.init e).1)
            (lib.init e).1
            devices
            (find lib vendor product hubs (device_list e).0 devices)
  unfolding connect_to listed
  connect_to-chosen e p vendor product hubs devices c l = rw (c, l) refl

  connect_to_connected :
      (e : E) (p : LibUsbProxy) (vendor product : Option ℕ) (hubs : Bool) (h : ℕ)
      → p.dev_handle ≡ some h
      → connect_to lib e p vendor product hubs ≡ (e, p, success)
  unfolding connect_to is_connected
  connect_to_connected e p vendor product hubs h c =
      let y : is_given p.dev_handle ≡ true = rw c refl in rw y refl

  -- If a proxy that is not connected yet, and that gets a list of devices, reports that it has
  -- connected, it has done so to the first device of the list that has the vendor, the product and
  -- the class that are looked for: the handle is the one that libusb opened for this device.
  pub connect_to-Opened :
      (e : E) (p : LibUsbProxy) (vendor product : Option ℕ) (hubs : Bool) (devices : List ℕ)
      → is_connected p ≡ false
      → (device_list e).1 ≡ got devices
      → (connect_to lib e p vendor product hubs).2 ≡ success
      → Opened
          (matches vendor product hubs)
          (device_list e).0
          devices
          (connect_to lib e p vendor product hubs).1
  unfolding connect_to listed
  connect_to-Opened e p vendor product hubs devices c l s =
      let r = device_list e in
      let eq = connect_to-chosen e p vendor product hubs devices c l in
      subst (λ t. Opened (matches vendor product hubs) r.0 devices t.1) (sym eq)
        (chosen-Opened vendor product hubs r.0 (listing p (lib.init e).1) (lib.init e).1 devices
          (find lib vendor product hubs r.0 devices) refl (sym (ap (λ t. t.2) eq) ∙ s))

  -- Once libusb_open has given a handle, the proxy counts as connected, also if the rest of connect
  -- fails; and from then on each further call reports success and calls nothing.
  pub connect_to_again :
      (e : E) (p : LibUsbProxy) (vendor product : Option ℕ) (hubs : Bool) (devices : List ℕ)
      (device h : ℕ) (d : DeviceDescriptor) (e' : E) (vendor' product' : Option ℕ) (hubs' : Bool)
      → is_connected p ≡ false
      → (device_list e).1 ≡ got devices
      → find lib vendor product hubs (device_list e).0 devices ≡ some (device, d)
      → (lib.open_device (device_list e).0 device).1 ≡ got h
      → ((connect_to lib e p vendor product hubs).1.dev_handle ≡ some h)
        × (connect_to lib e' (connect_to lib e p vendor product hubs).1 vendor' product' hubs'
            ≡ (e', (connect_to lib e p vendor product hubs).1, success))
  connect_to_again e p vendor product hubs devices device h d e' vendor' product' hubs' c l f o =
      let s = device_list e in
      let r = connect_to lib e p vendor product hubs in
      let made : r.1.dev_handle ≡ some h =
        ap (λ t. t.1.dev_handle) (connect_to-chosen e p vendor product hubs devices c l)
        ∙ ap
            (λ t. (chosen lib s.0 (listing p (lib.init e).1) (lib.init e).1 devices t).1.dev_handle)
            f
        ∙ chosen-handle s.0 (listing p (lib.init e).1) (lib.init e).1 devices device d h o in
      (made, connect_to_connected e' r.1 vendor' product' hubs' h made)

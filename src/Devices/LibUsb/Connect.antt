-- ===== src/Devices/LibUsb/Connect.antt =====
-- src/Plugins/Devices/DeviceProxy_LibUSB.cpp: the choice of a device and its handle. libusb_init and
-- libusb_set_debug are taken to succeed, as the code does.
pub mod Chosen
use usbproxy_legacy.Prelude.{
  ℕ, ◌≡◌, ◌≢◌, refl, Bool, true, false, not, ◌&&◌, ◌||◌, Option, none, some, List, [], ◌∷◌, ◌++◌,
  ◌==◌, ◌/=◌, if◌then◌else◌, is_given, All, Bool-cases, inl, inr, arith,
}
use usbproxy_legacy.Prelude.{sym, ap, ◌∙◌, ◌⊎◌}
use usbproxy_legacy.Descriptors.{DeviceDescriptor}
use usbproxy_legacy.Devices.LibUsb.{
  Library, LibUsbProxy, Rc, success, failure, Failure, error_not_found, error, is_success, Answer,
  got, refused, is_connected,
}

-- `LIBUSB_HOTPLUG_MATCH_ANY` is `none`.
abbrev is_wanted : Option ℕ → ℕ → Bool
is_wanted none n = true
is_wanted (some m) n = m == n

abbrev is_not_found : Rc → Bool
is_not_found (failure error_not_found) = true
is_not_found _ = false

-- The test of the loop over the devices; class 9 is that of hubs.
unfoldable pub matches : Option ℕ → Option ℕ → Bool → DeviceDescriptor → Bool
matches vendor product hubs d =
    (hubs || d.b_device_class /= 9)
    && is_wanted vendor d.id_vendor
    && is_wanted product d.id_product

-- `(device, desc)` if the answer is a descriptor that matches.
unfoldable pub candidate :
    Option ℕ → Option ℕ → Bool → ℕ → Answer DeviceDescriptor → Option (ℕ × DeviceDescriptor)
candidate vendor product hubs device (refused f) = none
candidate vendor product hubs device (got d) =
    if matches vendor product hubs d then some (device, d) else none

abbrev first_of {ℓ} : {A : Type ℓ} → Option A → Option A → Option A
first_of none o = o
first_of (some a) o = some a

-- `connect` to a handle of the caller's.
connect_handle : LibUsbProxy → ℕ → Option ℕ → LibUsbProxy
connect_handle p h ctx = if is_connected p then p else record p {
  private_context = false;
  private_device = false;
  lib_context = ctx;
  dev_handle = some h;
}

module _ {E : Type 0} (lib : Library E) where
  unfoldable pub find : Option ℕ → Option ℕ → Bool → E → List ℕ → Option (ℕ × DeviceDescriptor)
  unfolding candidate
  find vendor product hubs e [] = none
  find vendor product hubs e (device ∷ devices) =
      first_of (candidate vendor product hubs device (lib.get_device_descriptor e device))
        (find vendor product hubs e devices)

  pub registered : E → LibUsbProxy → ℕ → Answer ℕ → E × LibUsbProxy × Rc
  registered e p ctx (got callback) = (e, record p { callback_handle = some callback }, success)
  registered e p ctx (refused rc) = (lib.exit e ctx, p, failure rc)

  pub register : E → LibUsbProxy → ℕ → DeviceDescriptor → Option ℕ → E × LibUsbProxy × Rc
  register e p ctx d (some callback) = (e, p, success)
  register e p ctx d none =
      let (e', a) = lib.hotplug_register_callback e ctx d.id_vendor d.id_product in
      registered e' p ctx a

  pub responsive : E → LibUsbProxy → ℕ → DeviceDescriptor → Answer ℕ → E × LibUsbProxy × Rc
  responsive e p ctx d (refused rc) = (e, p, failure rc)
  responsive e p ctx d (got n) = register e p ctx d p.callback_handle

  -- Behind `libusb_open`.
  pub opened : E → LibUsbProxy → ℕ → List ℕ → DeviceDescriptor → Answer ℕ → E × LibUsbProxy × Rc
  opened e p ctx devices d (refused rc) =
      (lib.free_device_list e devices, record p { dev_handle = none }, failure rc)
  opened e p ctx devices d (got h) =
      let p' = record p { dev_handle = some h } in
      let (e', rc) = lib.set_auto_detach_kernel_driver (lib.free_device_list e devices) h in
      let (e'', a) = lib.get_string_descriptor e' h in
      if is_success rc then responsive e'' p' ctx d a else (e', p', rc)

  pub chosen : E → LibUsbProxy → ℕ → List ℕ → Option (ℕ × DeviceDescriptor) → E × LibUsbProxy × Rc
  chosen e p ctx devices none = (lib.free_device_list e devices, p, failure (error 1))
  chosen e p ctx devices (some (device, d)) =
      let (e', a) = lib.open_device e device in opened e' p ctx devices d a

  pub listed :
      Option ℕ → Option ℕ → Bool → E → LibUsbProxy → ℕ → Answer (List ℕ) → E × LibUsbProxy × Rc
  listed vendor product hubs e p ctx (refused rc) = (e, p, failure rc)
  listed vendor product hubs e p ctx (got devices) =
      chosen e p ctx devices (find vendor product hubs e devices)

  -- `connect(vendorId, productId, includeHubs)`.
  unfoldable pub connect_to : E → LibUsbProxy → Option ℕ → Option ℕ → Bool → E × LibUsbProxy × Rc
  unfolding find chosen listed opened responsive register registered
  connect_to e p vendor product hubs =
      let (e1, ctx) = lib.init e in
      let (e2, a) = lib.get_device_list e1 ctx in
      let p' = record p { private_context = true; private_device = true; lib_context = some ctx } in
      if is_connected p then (e, p, success) else listed vendor product hubs e2 p' ctx a

  -- `connect(timeout)`.
  pub connect : E → LibUsbProxy → E × LibUsbProxy × Rc
  unfolding connect_to
  connect e p = connect_to e p p.desired_vid p.desired_pid p.desired_hubs

  -- `connect` to a device.
  connected_to : LibUsbProxy → E × Answer ℕ → E × LibUsbProxy × Rc
  connected_to p (e, got h) = (e, record p { dev_handle = some h }, success)
  connected_to p (e, refused rc) = (e, record p { dev_handle = none }, failure rc)

  connect_device : E → LibUsbProxy → ℕ → Option ℕ → E × LibUsbProxy × Rc
  connect_device e p device ctx =
      let p' = record p { private_context = false; lib_context = ctx } in
      if is_connected p then (e, p, success) else connected_to p' (lib.open_device e device)

  -- Calls that need a context or a handle.
  deregistered : E → Option ℕ → Option ℕ → E
  deregistered e (some ctx) (some callback) = lib.hotplug_deregister_callback e ctx callback
  deregistered e none callback = e
  deregistered e (some ctx) none = e

  closed : Bool → E → Option ℕ → E
  closed true e (some h) = lib.close e h
  closed false e (some h) = e
  closed own e none = e

  exited : Bool → E → Option ℕ → E
  exited true e (some ctx) = lib.exit e ctx
  exited false e (some ctx) = e
  exited own e none = e

  -- The same calls as those of the destructor.
  pub disconnect : E → LibUsbProxy → E × LibUsbProxy
  unfolding deregistered closed exited
  disconnect e p =
      let e1 = deregistered e p.lib_context p.callback_handle in
      let e2 = closed p.private_device e1 p.dev_handle in
      (
        exited p.private_context e2 p.lib_context,
        record p { callback_handle = none; dev_handle = none; lib_context = none },
      )

  reset : E → LibUsbProxy → E × LibUsbProxy
  reset e p =
      let (e', rc) = lib.reset_device e p.dev_handle in
      if is_not_found rc then disconnect e' p else (e', p)

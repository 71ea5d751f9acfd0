-- ===== src/Devices/LibUsb.antt =====
-- src/Plugins/Devices/DeviceProxy_LibUSB.cpp and DeviceProxy_LibUSB.h: a device behind libusb. The
-- calls of libusb are a parameter. The output for debugging, with toString, is left out.
pub mod Connect
pub mod Claims
pub mod Transfers
mod Tests
use usbproxy_legacy.Prelude.{
  ℕ, zero, suc, ◌%◌, Bool, true, false, not, ◌&&◌, ◌||◌, Option, none, some, List, [], ◌∷◌, ◌++◌,
  drop, ◌==◌, ◌/=◌, if◌then◌else◌, get_or, set, length, map, replicate, bit_and, is_given,
}
use usbproxy_legacy.Packet.{CtrlRequest}
use usbproxy_legacy.Descriptors.{DeviceDescriptor}
use usbproxy_legacy.Relay.Types.{Reply}

-- The errors of libusb: three that the code tells apart, or the one of code -n. `error 1` also
-- stands for the result -1 that the code makes itself.
pub data Failure : Type 0 where
  error_pipe error_timeout error_not_found : Failure
  error : ℕ → Failure

-- What a call of libusb returns: `LIBUSB_SUCCESS` or an error.
pub data Rc : Type 0 where
  success : Rc
  failure : Failure → Rc

abbrev pub is_success : Rc → Bool
is_success success = true
is_success (failure f) = false

-- `rc == LIBUSB_ERROR_PIPE || rc == LIBUSB_ERROR_TIMEOUT`.
abbrev pub is_halted : Rc → Bool
is_halted (failure error_pipe) = true
is_halted (failure error_timeout) = true
is_halted _ = false

-- A result, or a negative code.
pub data Answer (A : Type 0) : Type 0 where
  got : A → Answer A
  refused : Failure → Answer A

-- The calls, over the state `E` of libusb and of the bus. Contexts, devices, handles and callbacks
-- are numbers; a null pointer is `none`. An OUT transfer gives its result and `transferred`, an IN
-- transfer its result and the bytes that it wrote to the buffer.
pub record Library (E : Type 0) : Type 0 where
  pub init : E → E × ℕ
  pub get_device_list : E → ℕ → E × Answer (List ℕ)
  pub get_device_descriptor : E → ℕ → Answer DeviceDescriptor
  pub free_device_list : E → List ℕ → E
  pub open_device : E → ℕ → E × Answer ℕ
  pub set_auto_detach_kernel_driver : E → ℕ → E × Rc
  pub get_string_descriptor : E → ℕ → E × Answer ℕ
  pub hotplug_register_callback : E → ℕ → ℕ → ℕ → E × Answer ℕ
  pub hotplug_deregister_callback : E → ℕ → ℕ → E
  pub close : E → ℕ → E
  pub exit : E → ℕ → E
  pub reset_device : E → Option ℕ → E × Rc
  pub is_fast : E → Option ℕ → Bool
  pub get_device_address : E → Option ℕ → ℕ
  pub control_transfer : E → Option ℕ → CtrlRequest → Option (List ℕ) → E × Answer (List ℕ)
  pub bulk_out : E → Option ℕ → ℕ → List ℕ → E × Rc × ℕ
  pub interrupt_out : E → Option ℕ → ℕ → List ℕ → E × Rc × ℕ
  pub bulk_in : E → Option ℕ → ℕ → ℕ → E × Rc × List ℕ
  pub interrupt_in : E → Option ℕ → ℕ → ℕ → E × Rc × List ℕ
  pub clear_halt : E → Option ℕ → ℕ → E
  pub claim_interface : E → Option ℕ → ℕ → E × Rc
  pub release_interface : E → Option ℕ → ℕ → E × Rc

-- An entry of `epInterfaces`.
pub record EpInterface : Type 0 where
  pub interface : ℕ
  pub is_defined : Bool
  pub claimed : Bool

-- A callback handle of -1 is `none`, and so are `LIBUSB_HOTPLUG_MATCH_ANY` and a null pointer.
pub record LibUsbProxy : Type 0 where
  pub lib_context : Option ℕ
  pub callback_handle : Option ℕ
  pub dev_handle : Option ℕ
  pub private_context : Bool
  pub private_device : Bool
  pub desired_vid : Option ℕ
  pub desired_pid : Option ℕ
  pub desired_hubs : Bool
  pub ep_interfaces : List EpInterface

abbrev pub no_interface : EpInterface
no_interface = record { interface = 0; is_defined = false; claimed = false }

-- The constructor from two numbers.
pub libusb_proxy : Option ℕ → Option ℕ → Bool → LibUsbProxy
libusb_proxy vendor product hubs = record {
  lib_context = none;
  callback_handle = none;
  dev_handle = none;
  private_context = true;
  private_device = true;
  desired_vid = vendor;
  desired_pid = product;
  desired_hubs = hubs;
  ep_interfaces = replicate 16 no_interface;
}

pub is_connected : LibUsbProxy → Bool
is_connected p = is_given p.dev_handle

-- `epInterfaces[endpoint & 0x0F]`.
abbrev pub ep_slot : ℕ → ℕ
ep_slot endpoint = endpoint % 16

abbrev pub ep_interface : LibUsbProxy → ℕ → EpInterface
ep_interface p endpoint = get_or p.ep_interfaces (ep_slot endpoint) no_interface

pub endpoint_interface_claimed : LibUsbProxy → ℕ → Bool
endpoint_interface_claimed p endpoint =
    let i = ep_interface p endpoint in
    if not i.is_defined then false else if not i.claimed then false else true

pub set_endpoint_interface : LibUsbProxy → ℕ → ℕ → LibUsbProxy
set_endpoint_interface p endpoint number = record p {
  ep_interfaces =
      set p.ep_interfaces (ep_slot endpoint)
        (record (ep_interface p endpoint) { is_defined = true; interface = number });
}

-- The loop over `epInterfaces` that marks the entries of an interface.
pub mark_slot : ℕ → Bool → EpInterface → EpInterface
mark_slot number b i = if i.is_defined && i.interface == number then record i { claimed = b } else i

pub mark : ℕ → Bool → LibUsbProxy → LibUsbProxy
mark number b p = record p { ep_interfaces = map (mark_slot number b) p.ep_interfaces }

-- Whether a release leaves the interface unclaimed: without an error, or with that of an interface
-- that was not claimed.
pub is_released : Rc → Bool
is_released success = true
is_released (failure error_not_found) = true
is_released _ = false

-- The first bytes of the buffer are overwritten.
abbrev pub overwrite : List ℕ → Option (List ℕ) → Option (List ℕ)
overwrite bytes none = none
overwrite bytes (some buffer) = some (bytes ++ drop (length bytes) buffer)

-- `nbytes` is left as it was where the transfer fails.
pub control_reply : ℕ → Answer (List ℕ) → Option (List ℕ) → Reply
control_reply nbytes (got bytes) buffer = record {
  accepted = true;
  nbytes = length bytes;
  bytes = overwrite bytes buffer;
}
control_reply nbytes (refused f) buffer = record {
  accepted = false;
  nbytes = nbytes;
  bytes = buffer;
}

module _ {E : Type 0} (lib : Library E) where
  unfoldable pub claim_interface : E → LibUsbProxy → ℕ → E × LibUsbProxy
  claim_interface e p number =
      let (e', rc) = lib.claim_interface e p.dev_handle number in
      if is_connected p then (e', if is_success rc then mark number true p else p) else (e, p)

  unfoldable pub release_interface : E → LibUsbProxy → ℕ → E × LibUsbProxy
  release_interface e p number =
      let (e', rc) = lib.release_interface e p.dev_handle number in
      if is_connected p then (e', if is_released rc then mark number false p else p) else (e, p)

  pub get_address : E → LibUsbProxy → ℕ
  get_address e p = lib.get_device_address e p.dev_handle

  pub is_highspeed : E → LibUsbProxy → Bool
  is_highspeed e p = lib.is_fast e p.dev_handle

  pub control_request : E → LibUsbProxy → CtrlRequest → ℕ → Option (List ℕ) → E × Reply
  unfolding control_reply
  control_request e p req nbytes bytes =
      let (e', a) = lib.control_transfer e p.dev_handle req bytes in
      (e', control_reply nbytes a bytes)

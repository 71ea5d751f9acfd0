-- ===== src/Hosts/GadgetFs.antt =====
-- src/Plugins/Hosts/HostProxy_GadgetFS.cpp and HostProxy_GadgetFS.h: the host proxy that is a gadget
-- of the kernel. System calls are a parameter; output is left out. generate_descriptor is in
-- Generate, the transfers are in Transfers, and setConfig is in Endpoints.
pub mod Generate
pub mod Intervals
pub mod Served
pub mod Layout
pub mod Transfers
pub mod Endpoints
pub mod Requests
pub mod Slots
pub mod Opened
pub mod Waiting
pub mod Tests
use usbproxy_legacy.Prelude.{
  ℕ, zero, suc, Bool, true, false, not, ◌&&◌, Option, none, some, List, [], ◌∷◌, ◌==◌, ◌/=◌,
  if◌then◌else◌, replicate, has_bits,
}
use usbproxy_legacy.Packet.{CtrlRequest}
use usbproxy_legacy.ConfigParser.{Text}
use usbproxy_legacy.Usb.Interface.{Parsed, ok, overflow, null_pointer, failed, no_fuel}
use usbproxy_legacy.Usb.Device.{Device}
use usbproxy_legacy.Hosts.Kernel.{Kernel, Aio, Event, setup, other}
use usbproxy_legacy.Hosts.GadgetHelpers.{
  mount_gadget, unmount_gadget, find_gadget_filename, open_gadget,
}
use usbproxy_legacy.Hosts.GadgetFs.Generate.{generate_descriptor}

-- `gadgetfs_path` of the helpers belongs to the state. A `p_device_file` of -1 is `none`.
pub record GadgetFs : Type 0 where
  pub connected : Bool
  pub device_file : Option ℕ
  pub device_filename : Option Text
  pub gadgetfs_path : Option Text
  pub epin_async : List (Option Aio)
  pub epin_active : List Bool
  pub epout_async : List (Option Aio)
  pub descriptor : Option (List ℕ)
  pub last_control : CtrlRequest

-- A request, with what was read behind it: nothing is read, the read fails, or bytes.
pub data Payload : Type 0 where
  no_payload read_failed : Payload
  payload : List ℕ → Payload

abbrev pub is_in : CtrlRequest → Bool
is_in r = has_bits r.b_request_type 0x80

module _ {E : Type 0} (kernel : Kernel E) where
  -- The constructor; what is not set in `lastControl` counts as 0.
  pub gadget_fs : E → E × GadgetFs
  gadget_fs e =
      let (e', path) = mount_gadget kernel e in
      (
        e',
        record {
          connected = false;
          device_file = some 0;
          device_filename = none;
          gadgetfs_path = some path;
          epin_async = replicate 16 none;
          epin_active = replicate 16 false;
          epout_async = replicate 16 none;
          descriptor = none;
          last_control = record {
            b_request_type = 0;
            b_request = 0;
            w_value = 0;
            w_index = 0;
            w_length = 0;
          };
        },
      )

  -- A call on the file of the gadget fails if its number is -1.
  abbrev pub write_file : E → Option ℕ → List ℕ → E × Option ℕ
  write_file e none bytes = (e, none)
  write_file e (some fd) bytes = kernel.write e fd bytes

  abbrev pub read_file : E → Option ℕ → ℕ → E × Option (List ℕ)
  read_file e none n = (e, none)
  read_file e (some fd) n = kernel.read e fd n

  -- The write of the descriptor to the file `fd`: whether connect returns 0.
  written : GadgetFs → ℕ → E × Option ℕ → E × GadgetFs × Bool
  written g fd (e, some n) = (e, record g { device_file = some fd; connected = true }, true)
  written g fd (e, none) = (kernel.close e fd, record g { device_file = some 0 }, false)

  opened : List ℕ → GadgetFs → E × Option ℕ → E × GadgetFs × Bool
  opened bytes g (e, none) = (e, record g { device_file = none }, false)
  opened bytes g (e, some fd) = written g fd (kernel.write e fd bytes)

  -- The part that connect and reconnect share.
  pub write_descriptor : E → GadgetFs → List ℕ → E × GadgetFs × Bool
  write_descriptor e g bytes =
      let (e', path, name) = find_gadget_filename kernel e g.gadgetfs_path in
      opened bytes (record g { gadgetfs_path = some path; device_filename = name })
        (open_gadget kernel e' path name)

  connect_with : E → GadgetFs → Parsed (List ℕ) → Parsed (E × GadgetFs × Bool)
  connect_with e g (ok bytes) = ok (write_descriptor e (record g { descriptor = some bytes }) bytes)
  connect_with e g overflow = overflow
  connect_with e g null_pointer = null_pointer
  connect_with e g failed = failed
  connect_with e g no_fuel = no_fuel

  pub connect : Bool → E → GadgetFs → Device → Parsed (E × GadgetFs × Bool)
  unfolding connect_with write_descriptor opened written
  connect high_speed e g d =
      if g.connected then ok (e, g, true) else connect_with e g (generate_descriptor high_speed d)

  reconnect_with : E → GadgetFs → Option (List ℕ) → E × GadgetFs × Bool
  reconnect_with e g none = (e, g, false)
  reconnect_with e g (some bytes) = write_descriptor e g bytes

  pub reconnect : E → GadgetFs → E × GadgetFs × Bool
  unfolding reconnect_with write_descriptor opened written
  reconnect e g = if g.connected then (e, g, true) else reconnect_with e g g.descriptor

  -- `if (fd) close(fd)`.
  close_file : E → ℕ → E
  close_file e zero = e
  close_file e (suc n) = kernel.close e (suc n)

  close_in : E → Bool → Option Aio → E
  close_in e active none = e
  close_in e true (some aio) = close_file (kernel.aio_cancel e aio) aio.aio_fildes
  close_in e false (some aio) = close_file e aio.aio_fildes

  close_out : E → Option Aio → E
  close_out e none = e
  close_out e (some aio) = close_file (kernel.aio_cancel e aio) aio.aio_fildes

  -- The loop over the slots.
  close_slots : List (Option Aio) → List Bool → List (Option Aio) → E → E
  close_slots (i ∷ is) (a ∷ flags) (o ∷ os) e =
      close_slots is flags os (close_out (close_in e a i) o)
  close_slots [] flags os e = e
  close_slots (i ∷ is) [] os e = e
  close_slots (i ∷ is) (a ∷ flags) [] e = e

  close_device : E → Option ℕ → E
  close_device e none = e
  close_device e (some fd) = close_file e fd

  -- The flags of the active transfers stay as they are.
  pub disconnect : E → GadgetFs → E × GadgetFs
  unfolding close_slots close_in close_out close_file close_device
  disconnect e g =
      let e1 =
        close_slots g.epin_async g.epin_active g.epout_async (close_device e g.device_file) in
      if not g.connected then (e, g) else (
        unmount_gadget kernel e1 g.gadgetfs_path,
        record g {
          device_file = some 0;
          epin_async = replicate 16 none;
          epout_async = replicate 16 none;
          gadgetfs_path = none;
          connected = false;
        },
      )

  -- The result of reconnect is not used.
  reset : E → GadgetFs → E × GadgetFs
  reset e g = let (e1, g1) = disconnect e g in let (e2, g2, done) = reconnect e1 g1 in (e2, g2)

  -- A transfer of length 0 in the direction of the request.
  pub control_ack : E → GadgetFs → E
  control_ack e g =
      if is_in g.last_control
      then (write_file e g.device_file []).0
      else (read_file e g.device_file 0).0

  -- Nothing is done for another endpoint than 0.
  stall_ep : E → GadgetFs → ℕ → E
  stall_ep e g endpoint =
      if endpoint /= 0
      then e
      else if is_in g.last_control
      then (read_file e g.device_file 0).0
      else (write_file e g.device_file []).0

  with_payload : GadgetFs → CtrlRequest → E × Option (List ℕ) → E × GadgetFs × CtrlRequest × Payload
  with_payload g r (e, none) = (e, g, r, read_failed)
  with_payload g r (e, some bytes) = (e, g, r, payload bytes)

  -- A setup event.
  pub take_setup : E → GadgetFs → CtrlRequest → E × GadgetFs × CtrlRequest × Payload
  unfolding with_payload control_ack
  take_setup e g r =
      let g' = record g { last_control = r } in
      let e' = if r.b_request == 9 && not (is_in r) then control_ack e g' else e in
      if not (is_in r) && r.w_length /= 0
      then with_payload g' r (read_file e' g.device_file r.w_length)
      else (e', g', r, no_payload)

  -- The loop over the events; `none` stands for a `bRequest` of 0 and a result of 0.
  unfoldable pub take_events :
      List Event → E → GadgetFs → E × GadgetFs × Option (CtrlRequest × Payload)
  take_events [] e g = (e, g, none)
  take_events (other ∷ events) e g = take_events events e g
  take_events (setup r ∷ events) e g =
      let (e', g', r', p) = take_setup e g r in (e', g', some (r', p))

  unfoldable pub read_answer :
      GadgetFs → E × Option (List Event) → E × GadgetFs × Option (CtrlRequest × Payload)
  read_answer g (e, none) = (e, g, none)
  read_answer g (e, some events) = take_events events e g

  unfoldable pub polled : GadgetFs → ℕ → E × Bool → E × GadgetFs × Option (CtrlRequest × Payload)
  polled g fd (e, false) = (e, g, none)
  polled g fd (e, true) = read_answer g (kernel.read_events e fd)

  unfoldable pub request_on :
      E → GadgetFs → ℕ → Option ℕ → E × GadgetFs × Option (CtrlRequest × Payload)
  request_on e g timeout none = (e, g, none)
  request_on e g timeout (some fd) = polled g fd (kernel.poll_in e fd timeout)

  unfoldable pub control_request : E → GadgetFs → ℕ → E × GadgetFs × Option (CtrlRequest × Payload)
  control_request e g timeout = request_on e g timeout g.device_file

-- ===== src/Hosts/GadgetFs/Transfers.antt =====
-- src/Plugins/Hosts/HostProxy_GadgetFS.cpp: the transfers of the endpoints.
use usbproxy_legacy.Prelude.{
  ℕ, zero, suc, ◌%◌, Bool, true, false, not, ◌||◌, Option, none, some, List, ◌==◌, if◌then◌else◌,
  get_or, set, length, has_bits,
}
use usbproxy_legacy.Hosts.Kernel.{Kernel, Aio, Progress, done, in_progress, broken}
use usbproxy_legacy.Hosts.GadgetFs.{GadgetFs, write_file}

abbrev pub number_of : ℕ → ℕ
number_of endpoint = endpoint % 16

abbrev pub in_slot : GadgetFs → ℕ → Option Aio
in_slot g n = get_or g.epin_async n none

abbrev pub out_slot : GadgetFs → ℕ → Option Aio
out_slot g n = get_or g.epout_async n none

abbrev pub is_active : GadgetFs → ℕ → Bool
is_active g n = get_or g.epin_active n false

abbrev pub set_in : GadgetFs → ℕ → Aio → Bool → GadgetFs
set_in g n aio active = record g {
  epin_async = set g.epin_async n (some aio);
  epin_active = set g.epin_active n active;
}

abbrev pub freed : Aio → Aio
freed aio = record aio { aio_buf = none; aio_nbytes = 0 }

module _ {E : Type 0} (kernel : Kernel E) where
  -- Whether the transfer was submitted.
  submitted : GadgetFs → ℕ → Aio → E × Bool → E × GadgetFs
  submitted g n aio (e, true) = (e, set_in g n aio true)
  submitted g n aio (e, false) = (e, set_in g n aio (is_active g n))

  -- A buffer that the slot still holds is not freed.
  submit : E → GadgetFs → ℕ → List ℕ → Option Aio → E × GadgetFs
  submit e g n bytes none = (e, g)
  submit e g n bytes (some aio) =
      let aio' = record aio { aio_buf = some bytes; aio_nbytes = length bytes } in
      submitted g n aio' (kernel.aio_write e aio')

  unfoldable pub send_data : E → GadgetFs → ℕ → List ℕ → E × GadgetFs
  unfolding submit submitted
  send_data e g endpoint bytes =
      let n = number_of endpoint in
      if endpoint == 0
      then ((write_file kernel e g.device_file bytes).0, g)
      else if not (has_bits endpoint 0x80)
      then (e, g)
      else submit e g n bytes (in_slot g n)

  -- What aio_error gives after the wait; a wait that ends without success counts as done.
  waited : Aio → E × Bool → E × Progress
  waited aio (e, true) = (e, kernel.aio_error e aio)
  waited aio (e, false) = (e, done)

  wait : E → Aio → ℕ → Progress → E × Progress
  wait e aio zero p = (e, p)
  wait e aio (suc timeout) done = (e, done)
  wait e aio (suc timeout) (broken n) = (e, broken n)
  wait e aio (suc timeout) in_progress = waited aio (kernel.aio_suspend e aio (suc timeout))

  -- What aio_return gives of a transfer that is done.
  sent : GadgetFs → ℕ → Aio → E × Option ℕ → E × GadgetFs × Bool
  sent g n aio (e, none) = (e, set_in g n (freed aio) (is_active g n), false)
  sent g n aio (e, some zero) = (e, set_in g n (freed aio) (is_active g n), true)
  sent g n aio (e, some (suc k)) = (e, set_in g n (freed aio) false, true)

  finish : GadgetFs → ℕ → Aio → E × Progress → E × GadgetFs × Bool
  finish g n aio (e, in_progress) = (e, g, false)
  finish g n aio (e, broken k) = (e, set_in g n (freed aio) false, true)
  finish g n aio (e, done) = sent g n aio (kernel.aio_return_write e (freed aio))

  check_slot : E → GadgetFs → ℕ → ℕ → Option Aio → E × GadgetFs × Bool
  check_slot e g n timeout none = (e, g, false)
  check_slot e g n timeout (some aio) =
      if not (is_active g n)
      then (e, g, true)
      else finish g n aio (wait e aio timeout (kernel.aio_error e aio))

  unfoldable pub send_wait_complete : E → GadgetFs → ℕ → ℕ → E × GadgetFs × Bool
  unfolding check_slot finish sent wait waited
  send_wait_complete e g endpoint timeout =
      let n = number_of endpoint in
      if endpoint == 0
      then (e, g, true)
      else if not (has_bits endpoint 0x80)
      then (e, g, false)
      else check_slot e g n timeout (in_slot g n)

  -- The next read is submitted; if that fails, the slot is closed.
  resubmitted : GadgetFs → ℕ → List ℕ → E × Bool → E × GadgetFs × Option (List ℕ)
  resubmitted g n bytes (e, true) = (e, g, some bytes)
  resubmitted g n bytes (e, false) =
      (e, record g { epout_async = set g.epout_async n none }, some bytes)

  returned : GadgetFs → ℕ → Aio → E × Option (List ℕ) → E × GadgetFs × Option (List ℕ)
  returned g n aio (e, none) = (e, g, none)
  returned g n aio (e, some bytes) = resubmitted g n bytes (kernel.aio_read e aio)

  collect : GadgetFs → ℕ → Aio → E × Progress → E × GadgetFs × Option (List ℕ)
  collect g n aio (e, in_progress) = (e, g, none)
  collect g n aio (e, broken k) = (e, g, none)
  collect g n aio (e, done) = returned g n aio (kernel.aio_return_read e aio)

  -- Here a wait that ends without success ends the call.
  suspended : GadgetFs → ℕ → Aio → E × Bool → E × GadgetFs × Option (List ℕ)
  suspended g n aio (e, false) = (e, g, none)
  suspended g n aio (e, true) = collect g n aio (e, kernel.aio_error e aio)

  poll_slot : E → GadgetFs → ℕ → ℕ → Option Aio → Progress → E × GadgetFs × Option (List ℕ)
  poll_slot e g n timeout none p = (e, g, none)
  poll_slot e g n zero (some aio) p = collect g n aio (e, p)
  poll_slot e g n (suc timeout) (some aio) done = collect g n aio (e, done)
  poll_slot e g n (suc timeout) (some aio) (broken k) = collect g n aio (e, broken k)
  poll_slot e g n (suc timeout) (some aio) in_progress =
      suspended g n aio (kernel.aio_suspend e aio (suc timeout))

  abbrev error_of : E → Option Aio → Progress
  error_of e none = done
  error_of e (some aio) = kernel.aio_error e aio

  unfoldable pub receive_data : E → GadgetFs → ℕ → ℕ → E × GadgetFs × Option (List ℕ)
  unfolding poll_slot suspended collect returned resubmitted
  receive_data e g endpoint timeout =
      let n = number_of endpoint in
      if endpoint == 0 || has_bits endpoint 0x80
      then (e, g, none)
      else poll_slot e g n timeout (out_slot g n) (error_of e (out_slot g n))

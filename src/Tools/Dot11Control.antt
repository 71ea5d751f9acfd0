-- ===== src/Tools/Dot11Control.antt =====
-- src/tools/additional/dot11_control.c: the commands for the wireless device, over
-- libusb_control_transfer. cmd_rx_data, which does not compile, is left out.
use usbproxy_legacy.Prelude.{
  ℕ, ◌+◌, ◌*◌, ◌%◌, ◌/◌, ◌^◌, Option, none, some, List, [], ◌∷◌, ◌++◌, ltb, if◌then◌else◌, get_or,
  length, drop, bit_or,
}
use usbproxy_legacy.Packet.{CtrlRequest}
use usbproxy_legacy.Devices.LibUsb.{Answer, got, refused, Rc, success, failure}

-- A `char` is signed: the `int` that it becomes, as its bit pattern.
abbrev int_of_char : ℕ → ℕ
int_of_char b = if ltb b 128 then b else b + 0xffffff00

abbrev shifted : ℕ → ℕ → ℕ
shifted b k = int_of_char b * 2 ^ k % 2 ^ 32

unfoldable pub to_int : List ℕ → ℕ
to_int p = bit_or (shifted (get_or p 3 0) 24) (
    bit_or (shifted (get_or p 2 0) 16)
      (bit_or (shifted (get_or p 1 0) 8) (int_of_char (get_or p 0 0))))

unfoldable pub from_int : ℕ → List ℕ
from_int v = (v % 256) ∷ (v / 256 % 256) ∷ (v / 2 ^ 16 % 256) ∷ (v / 2 ^ 24 % 256) ∷ []

abbrev pub ctrl_out : ℕ → ℕ → CtrlRequest
ctrl_out n size = record {
  b_request_type = 0x40;
  b_request = n;
  w_value = 0;
  w_index = 0;
  w_length = size;
}

abbrev pub ctrl_in : ℕ → ℕ → CtrlRequest
ctrl_in n size = record {
  b_request_type = 0xc0;
  b_request = n;
  w_value = 0;
  w_index = 0;
  w_length = size;
}

module _ {E : Type 0} (transfer : E → CtrlRequest → Option (List ℕ) → E × Answer (List ℕ)) where
  unfoldable pub result : E × Answer (List ℕ) → E × Rc
  result (e, got bytes) = (e, success)
  result (e, refused f) = (e, failure f)

  pub cmd_no_data : E → ℕ → E × Rc
  unfolding result
  cmd_no_data e n = result (transfer e (ctrl_out n 0) none)

  unfoldable pub cmd_setter : E → ℕ → List ℕ → E × Rc
  unfolding result
  cmd_setter e n bytes = result (transfer e (ctrl_out n (length bytes)) (some bytes))

  filled : List ℕ → E × Answer (List ℕ) → E × List ℕ
  filled buffer (e, got bytes) = (e, bytes ++ drop (length bytes) buffer)
  filled buffer (e, refused f) = (e, buffer)

  -- The buffer is what it was before, where the transfer writes nothing.
  pub cmd_getter : E → ℕ → List ℕ → E × List ℕ
  unfolding filled
  cmd_getter e n buffer = filled buffer (transfer e (ctrl_in n (length buffer)) (some buffer))

  unfoldable pub set_int : E → ℕ → ℕ → E × Rc
  unfolding cmd_setter from_int
  set_int e n v = cmd_setter e n (from_int v)

  -- The array on the stack holds `stack`.
  get_int : E → List ℕ → ℕ → E × ℕ
  unfolding cmd_getter to_int
  get_int e stack n = let (e', p) = cmd_getter e n stack in (e', to_int p)

  cmd_open_inject : E → E × Rc
  cmd_open_inject e = cmd_no_data e 0

  cmd_open_monitor : E → E × Rc
  cmd_open_monitor e = cmd_no_data e 1

  cmd_open_injmon : E → E × Rc
  cmd_open_injmon e = cmd_no_data e 2

  cmd_close_interface : E → E × Rc
  cmd_close_interface e = cmd_no_data e 7

  cmd_set_timeout : E → ℕ → E × Rc
  cmd_set_timeout e v = set_int e 4 v

  cmd_get_timeout : E → List ℕ → E × ℕ
  cmd_get_timeout e stack = get_int e stack 3

  cmd_set_datalink : E → ℕ → E × Rc
  cmd_set_datalink e v = set_int e 9 v

  cmd_get_datalink : E → List ℕ → E × ℕ
  cmd_get_datalink e stack = get_int e stack 8

  unfoldable pub cmd_set_channel : E → ℕ → E × Rc
  unfolding set_int
  cmd_set_channel e v = set_int e 11 v

  cmd_get_channel : E → List ℕ → E × ℕ
  cmd_get_channel e stack = get_int e stack 10

  -- A buffer of 32 bytes on the heap.
  cmd_get_capiface : E → List ℕ → E × List ℕ
  cmd_get_capiface e heap = cmd_getter e 5 heap

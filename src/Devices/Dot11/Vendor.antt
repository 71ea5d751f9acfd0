-- ===== src/Devices/Dot11/Vendor.antt =====
-- src/Plugins/Devices/DeviceProxy_dot11.cpp: the requests of the vendor, numbered as in
-- src/Plugins/Devices/Dot11_Interface.h.
use usbproxy_legacy.Prelude.{
  ℕ, ◌+◌, ◌*◌, ◌-◌, ◌%◌, ◌/◌, ◌^◌, Bool, true, false, Option, none, some, List, [], ◌∷◌, ◌++◌, ◌==◌,
  ltb, if◌then◌else◌, get_or, length, take, drop,
}
use usbproxy_legacy.Usb.Interface.{Parsed, ok, overflow, null_pointer, ◌>>=◌}
use usbproxy_legacy.Devices.Dot11.{Lorcon, Dot11, is_negative}

-- `*nbytes` and the buffer behind `dataptr`.
pub record Transfer : Type 0 where
  pub nbytes : ℕ
  pub buffer : Option (List ℕ)

-- `memcpy` to the start of the buffer, and the number of bytes in `*nbytes`.
unfoldable pub write_to : List ℕ → Option (List ℕ) → Parsed Transfer
write_to bytes none = null_pointer
write_to bytes (some b) =
    if ltb (length b) (length bytes)
    then overflow
    else ok (record { nbytes = length bytes; buffer = some (bytes ++ drop (length bytes) b) })

-- `*(int *)(dataptr) = rv`, little-endian.
abbrev pub int_bytes : ℕ → List ℕ
int_bytes w = (w % 256) ∷ (w / 256 % 256) ∷ (w / 2 ^ 16 % 256) ∷ (w / 2 ^ 24 % 256) ∷ []

-- `*(int *)(dataptr)`.
unfoldable pub read_int : Option (List ℕ) → Parsed ℕ
read_int none = null_pointer
read_int (some b) =
    if ltb (length b) 4
    then overflow
    else ok (get_or b 0 0 + get_or b 1 0 * 256 + get_or b 2 0 * 2 ^ 16 + get_or b 3 0 * 2 ^ 24)

abbrev pub no_bytes : Transfer → Transfer
no_bytes t = record t { nbytes = 0 }

-- How vendor_request ends: with its `return 1`, or at its end without a return statement, which is
-- undefined behaviour; the state is what it is there.
pub data Ended (E : Type 0) : Type 0 where
  returned ran_off : E → Dot11 → Transfer → Ended E

module _ {E : Type 0} (lorcon : Lorcon E) (d : Dot11) (t : Transfer) where
  -- A case that ends with `break`.
  after : E → Dot11 → Parsed Transfer → Parsed (Ended E)
  after e d' p = p >>= λ t'. ok (ran_off e d' t')

  -- An interface is opened; a failure returns and leaves the buffer as it was.
  pub open_interface : Bool → E × ℕ → Parsed (Ended E)
  open_interface monitors (e, rv) =
      let d' = if monitors then record d { monitor = true } else d in
      if is_negative rv
      then ok (returned e d t)
      else after (lorcon.free_driver_list e d.driver) d' (write_to (int_bytes rv) t.buffer)

  pub answer : E × ℕ → Parsed (Ended E)
  answer (e, rv) = after e d (write_to (int_bytes rv) t.buffer)

  pub answer_text : E → List ℕ → Parsed (Ended E)
  answer_text e bytes = after e d (write_to bytes t.buffer)

  -- The address and the key behind it; `*nbytes` is at least 6 in what the code expects.
  pub add_wepkey : E → Option (List ℕ) → Parsed (Ended E)
  add_wepkey e none = null_pointer
  add_wepkey e (some b) =
      answer (lorcon.add_wepkey e d.lorcon_context (take 6 b) (take (t.nbytes - 6) (drop 6 b)))

  -- An unknown number does nothing.
  unfoldable pub vendor_request : E → ℕ → Parsed (Ended E)
  unfolding after open_interface answer answer_text add_wepkey read_int write_to
  vendor_request e n =
      let c = d.lorcon_context in
      if n == 0
      then open_interface false (lorcon.open_inject e c)
      else if n == 1
      then open_interface true (lorcon.open_monitor e c)
      else if n == 2
      then open_interface true (lorcon.open_injmon e c)
      else if n == 3
      then answer (e, lorcon.get_timeout e c)
      else if n == 4
      then (read_int t.buffer >>= λ v. ok (ran_off (lorcon.set_timeout e c v) d (no_bytes t)))
      else if n == 5
      then answer_text e (lorcon.get_capiface e c ++ (0 ∷ []))
      else if n == 6
      then answer_text e (lorcon.get_driver_name e c)
      else if n == 7
      then ok (ran_off (lorcon.close e c) d (no_bytes t))
      else if n == 8
      then answer (e, lorcon.get_datalink e c)
      else if n == 9
      then (read_int t.buffer >>= λ v. answer (lorcon.set_datalink e c v))
      else if n == 10
      then answer (e, lorcon.get_channel e c)
      else if n == 11
      then (read_int t.buffer >>= λ v. answer (lorcon.set_channel e c v))
      else if n == 12
      then answer_text e (lorcon.get_hwmac e c)
      else if n == 13
      then answer (lorcon.set_hwmac e c t.nbytes t.buffer)
      else if n == 14
      then add_wepkey e t.buffer
      else ok (ran_off e d t)

-- ===== src/Devices/LibUsb/Transfers.antt =====
-- src/Plugins/Devices/DeviceProxy_LibUSB.cpp: the transfers of data.
use usbproxy_legacy.Prelude.{
  ℕ, zero, suc, ◌%◌, ◌≤◌, ◌≡◌, refl, ap, ◌⊎◌, inl, inr, Bool, true, false, not, ◌||◌, Option, none,
  some, List, ◌==◌, ◌/=◌, if◌then◌else◌, length, Bool-cases, arith,
}
use usbproxy_legacy.Devices.LibUsb.{
  Library, LibUsbProxy, Rc, is_success, is_halted, endpoint_interface_claimed,
}

-- The transfer types: `attributes & 3`.
abbrev xfer_type : ℕ → ℕ
xfer_type attributes = attributes % 4

-- What the caller of receive_data has behind `dataptr` and `length`.
pub record Received : Type 0 where
  pub bytes : Option (List ℕ)
  pub size : ℕ

abbrev pub nothing : Received
nothing = record { bytes = none; size = 0 }

-- The condition of the loop, but for the number of attempts.
abbrev pub again : List ℕ → Rc × ℕ → Bool
again bytes r = is_halted r.0 || r.1 /= length bytes

-- Nothing with a length of 0, or at most `size` bytes with their length.
abbrev pub Fits : ℕ → Option (List ℕ) → ℕ → Type 0
Fits size none n = n ≡ 0
Fits size (some b) n = (length b ≤ size) × (n ≡ length b)

module _ {E : Type 0} (lib : Library E) where
  -- One round of the loop for a bulk endpoint: a transfer, and behind an error of a halted endpoint
  -- or a timeout the halt is cleared.
  pub send_once : Option ℕ → ℕ → List ℕ → E → E × Rc × ℕ
  send_once h endpoint bytes e =
      let (e', rc, n) = lib.bulk_out e h endpoint bytes in
      (if is_halted rc then lib.clear_halt e' h endpoint else e', rc, n)

  -- The loop, with the attempts that are left behind this one.
  pub send_bulk : ℕ → Option ℕ → ℕ → List ℕ → E → E × Rc × ℕ
  send_bulk zero h endpoint bytes e = send_once h endpoint bytes e
  send_bulk (suc n) h endpoint bytes e =
      let r = send_once h endpoint bytes e in
      let rest = send_bulk n h endpoint bytes r.0 in if again bytes (r.1, r.2) then rest else r

  -- `MAX_ATTEMPTS` is 5. The result is only printed.
  pub send_data : E → LibUsbProxy → ℕ → ℕ → List ℕ → E
  send_data e p endpoint attributes bytes =
      if not (endpoint_interface_claimed p endpoint)
      then e
      else if xfer_type attributes == 2
      then (send_bulk 4 p.dev_handle endpoint bytes e).0
      else if xfer_type attributes == 3
      then (lib.interrupt_out e p.dev_handle endpoint bytes).0
      else e

  pub receive_once : Option ℕ → ℕ → ℕ → E → E × Rc × List ℕ
  receive_once h endpoint size e =
      let (e', rc, bytes) = lib.bulk_in e h endpoint size in
      (if is_halted rc then lib.clear_halt e' h endpoint else e', rc, bytes)

  pub receive_bulk : ℕ → Option ℕ → ℕ → ℕ → E → E × Rc × List ℕ
  receive_bulk zero h endpoint size e = receive_once h endpoint size e
  receive_bulk (suc n) h endpoint size e =
      let r = receive_once h endpoint size e in
      let rest = receive_bulk n h endpoint size r.0 in if is_halted r.1 then rest else r

  -- After an error the buffer is freed.
  pub received : E × Rc × List ℕ → E × Received
  received (e, rc, bytes) = (
    e,
    (if is_success rc
        then record { bytes = some bytes; size = length bytes }
        else record { bytes = none; size = 0 }),
  )

  -- The buffer holds `maxPacketSize * 8` bytes for a bulk endpoint, and `maxPacketSize` for an
  -- interrupt endpoint; of both `maxPacketSize` are asked for.
  pub receive_data : E → LibUsbProxy → ℕ → ℕ → ℕ → Received → E × Received
  receive_data e p endpoint attributes size r =
      if not (endpoint_interface_claimed p endpoint)
      then (e, r)
      else if xfer_type attributes == 2
      then received (receive_bulk 4 p.dev_handle endpoint size e)
      else if xfer_type attributes == 3
      then received (lib.interrupt_in e p.dev_handle endpoint size)
      else (e, r)

  -- `k` attempts, all of which but the last one have to be made again.
  pub data Attempts (h : Option ℕ) (endpoint : ℕ) (bytes : List ℕ)
      : ℕ → E → E × Rc × ℕ → Type 0 where
    last : (e : E) → Attempts h endpoint bytes 1 e (send_once h endpoint bytes e)
    next :
        {k : ℕ} {r : E × Rc × ℕ} (e : E)
        → again bytes ((send_once h endpoint bytes e).1, (send_once h endpoint bytes e).2) ≡ true
        → Attempts h endpoint bytes k (send_once h endpoint bytes e).0 r
        → Attempts h endpoint bytes (suc k) e r

  Sent : Option ℕ → ℕ → List ℕ → ℕ → E → E × Rc × ℕ → Type 0
  Sent h endpoint bytes n e r =
      (k : ℕ) × (k ≤ suc n)
      × Attempts h endpoint bytes k e r
      × ((again bytes (r.1, r.2) ≡ false) ⊎ (k ≡ suc n))

  more :
      (n : ℕ) (h : Option ℕ) (endpoint : ℕ) (bytes : List ℕ) (e : E) (r : E × Rc × ℕ)
      → again bytes ((send_once h endpoint bytes e).1, (send_once h endpoint bytes e).2) ≡ true
      → Sent h endpoint bytes n (send_once h endpoint bytes e).0 r
      → Sent h endpoint bytes (suc n) e r
  unfolding Sent
  more n h endpoint bytes e r a (k, le, tried, inl d) = (suc k, omega arith, next e a tried, inl d)
  more n h endpoint bytes e r a (k, le, tried, inr d) =
      (suc k, omega arith, next e a tried, inr (ap suc d))

  send_bulk-Sent :
      (n : ℕ) (h : Option ℕ) (endpoint : ℕ) (bytes : List ℕ) (e : E)
      → Sent h endpoint bytes n e (send_bulk n h endpoint bytes e)
  unfolding Sent send_bulk
  send_bulk-Sent zero h endpoint bytes e = (1, omega arith, last e, inr refl)
  send_bulk-Sent (suc n) h endpoint bytes e =
      let r = send_once h endpoint bytes e in
      elim (Bool-cases (again bytes (r.1, r.2))) [
        | inl a ↦ rw a (more n h endpoint bytes e _ a (send_bulk-Sent n h endpoint bytes r.0))
        | inr a ↦ rw a (1, omega arith, last e, inl a)
      ]

  -- At a claimed bulk endpoint send_data makes from one to five attempts, each of which but the
  -- last ended with a halt, a timeout or an incomplete transfer; it stops before the fifth one only
  -- behind an attempt that did not.
  pub send_data-Attempts :
      (e : E) (p : LibUsbProxy) (endpoint attributes : ℕ) (bytes : List ℕ)
      → endpoint_interface_claimed p endpoint ≡ true
      → attributes % 4 ≡ 2
      → (k : ℕ) × (r : E × Rc × ℕ) × (k ≤ 5)
        × Attempts p.dev_handle endpoint bytes k e r
        × (send_data e p endpoint attributes bytes ≡ r.0)
        × ((again bytes (r.1, r.2) ≡ false) ⊎ (k ≡ 5))
  unfolding send_data Sent
  send_data-Attempts e p endpoint attributes bytes c t =
      let r = send_bulk 4 p.dev_handle endpoint bytes e in
      let (k, le, tried, end) = send_bulk-Sent 4 p.dev_handle endpoint bytes e in
      (k, r, le, tried, rw (c, t) refl, end)

  received-Fits :
      (size : ℕ) (e : E) (rc : Rc) (bytes : List ℕ)
      → length bytes ≤ size
      → Fits size (received (e, rc, bytes)).1.bytes (received (e, rc, bytes)).1.size
  unfolding received
  received-Fits size e rc bytes h = elim (Bool-cases (is_success rc)) [
    | inl s ↦ rw s (h, refl)
    | inr s ↦ rw s refl
  ]

  module _ (bounded : (e : E) (h : Option ℕ) (ep n : ℕ) → length (lib.bulk_in e h ep n).2 ≤ n) where
    receive_once-length :
        (h : Option ℕ) (endpoint size : ℕ) (e : E)
        → length (receive_once h endpoint size e).2 ≤ size
    unfolding receive_once
    receive_once-length h endpoint size e = bounded e h endpoint size

    receive_bulk-length :
        (n : ℕ) (h : Option ℕ) (endpoint size : ℕ) (e : E)
        → length (receive_bulk n h endpoint size e).2 ≤ size
    unfolding receive_bulk
    receive_bulk-length zero h endpoint size e = receive_once-length h endpoint size e
    receive_bulk-length (suc n) h endpoint size e =
        let r = receive_once h endpoint size e in
        elim (Bool-cases (is_halted r.1)) [
          | inl a ↦ rw a (receive_bulk-length n h endpoint size r.0)
          | inr a ↦ rw a (receive_once-length h endpoint size e)
        ]

    -- What receive_data gives, if it held nothing before, is either nothing with a length of 0, or
    -- at most the packet size of bytes with their length.
    pub receive_data-Fits :
        (e : E) (p : LibUsbProxy) (endpoint attributes size : ℕ)
        → ((e : E) (h : Option ℕ) (ep n : ℕ) → length (lib.interrupt_in e h ep n).2 ≤ n)
        → Fits size
            (receive_data e p endpoint attributes size nothing).1.bytes
            (receive_data e p endpoint attributes size nothing).1.size
    unfolding receive_data
    receive_data-Fits e p endpoint attributes size short =
        elim (Bool-cases (endpoint_interface_claimed p endpoint)) [
          | inl c ↦ elim (Bool-cases (xfer_type attributes == 2)) [
            | inl b ↦
                let r = receive_bulk 4 p.dev_handle endpoint size e in
                rw (c, b)
                  (received-Fits size r.0 r.1 r.2
                    (receive_bulk-length 4 p.dev_handle endpoint size e))
            | inr b ↦ elim (Bool-cases (xfer_type attributes == 3)) [
              | inl i ↦
                  let r = lib.interrupt_in e p.dev_handle endpoint size in
                  rw (c, b, i) (received-Fits size r.0 r.1 r.2 (short e p.dev_handle endpoint size))
              | inr i ↦ rw (c, b, i) refl
            ]
          ]
          | inr c ↦ rw c refl
        ]

-- ===== src/Devices/Loopback/Ring.antt =====
-- src/Plugins/Devices/DeviceProxy_Loopback.cpp: the ring as a queue of packets.
use usbproxy_legacy.Prelude.{
  is_given, ℕ, zero, suc, ◌+◌, ◌-◌, ◌%◌, ◌<◌, ◌≡◌, inl, inr, refl, ap, ◌∙◌, Bool, true, false, ◌&&◌,
  not, Option, none, some, List, [], ◌∷◌, ◌==◌, ltb, if◌then◌else◌, get_or, set, map, All, Given,
  Bool-cases, arith,
}
use mathlib.Core.Path.{subst}
use usbproxy_legacy.Usb.Interface.{Parsed, ok, overflow, null_pointer, failed, no_fuel, ◌>>=◌}
use usbproxy_legacy.Devices.Loopback.{
  buf_len, RingPacket, zero_packet, Loopback, send_data, receive_data,
}

-- A call of the writer thread or the reader thread.
pub data RingCall : Type 0 where
  send : List ℕ → RingCall
  receive : RingCall

-- What the receiving calls of a sequence give.
unfoldable pub run : Loopback → List RingCall → Parsed (List (Option RingPacket) × Loopback)
run d [] = ok ([], d)
run d (send bytes ∷ cs) = send_data d bytes >>= λ d'. run d' cs
run d (receive ∷ cs) = receive_data d >>= λ r. run (r.1) cs >>= λ s. ok (r.0 ∷ s.0, s.1)

-- A queue of which only the length is seen: whether each receiving call gets a packet.
abbrev run_count : ℕ → List RingCall → List Bool
run_count n [] = []
run_count n (send bytes ∷ cs) = run_count (if ltb n buf_len then n + 1 else n) cs
run_count n (receive ∷ cs) = ltb 0 n ∷ run_count (n - 1) cs

abbrev pub occupancy : Loopback → ℕ
occupancy d =
    if d.head == d.tail
    then (if d.full then buf_len else 0)
    else (d.tail + buf_len - d.head) % buf_len

pub record IsRing (d : Loopback) (slots : List RingPacket) : Type 0 where
  pub stored : d.buffer ≡ some slots
  pub blank : All (λ p. p ≡ zero_packet) slots
  pub head_inside : d.head < buf_len
  pub tail_inside : d.tail < buf_len

blank-set :
    (slots : List RingPacket) (i : ℕ)
    → All (λ p. p ≡ zero_packet) slots
    → All (λ p. p ≡ zero_packet) (set slots i zero_packet)
blank-set [] i h = tt
blank-set (p ∷ ps) zero h = (refl, h.1)
blank-set (p ∷ ps) (suc i) h = (h.0, blank-set ps i h.1)

blank-get_or :
    (slots : List RingPacket) (i : ℕ)
    → All (λ p. p ≡ zero_packet) slots
    → get_or slots i zero_packet ≡ zero_packet
blank-get_or [] i h = refl
blank-get_or (p ∷ ps) zero h = h.0
blank-get_or (p ∷ ps) (suc i) h = blank-get_or ps i h.1

-- The ring after a packet was put in.
abbrev sent_into : Loopback → List RingPacket → Loopback
sent_into d slots = record d {
  buffer = some (set slots d.tail zero_packet);
  tail = (d.tail + 1) % buf_len;
  full = d.head == (d.tail + 1) % buf_len;
}

abbrev received_from : Loopback → Loopback
received_from d = record d {
  head = (d.head + 1) % buf_len;
  full = not ((d.head + 1) % buf_len == d.tail);
}

send_data-full :
    (d : Loopback) (bytes : List ℕ) → (d.head == d.tail && d.full) ≡ true → send_data d bytes ≡ ok d
unfolding send_data
send_data-full d bytes h = rw h refl

send_data-room :
    (d : Loopback) (slots : List RingPacket) (bytes : List ℕ)
    → IsRing d slots
    → (d.head == d.tail && d.full) ≡ false
    → send_data d bytes ≡ ok (sent_into d slots)
unfolding send_data
send_data-room d slots bytes h room = rw (room, h.stored, blank-get_or slots d.tail h.blank) refl

receive_data-none :
    (d : Loopback) → (d.head == d.tail && not d.full) ≡ true → receive_data d ≡ ok (none, d)
unfolding receive_data
receive_data-none d h = rw h refl

receive_data-some :
    (d : Loopback) (slots : List RingPacket)
    → IsRing d slots
    → (d.head == d.tail && not d.full) ≡ false
    → receive_data d ≡ ok (some zero_packet, received_from d)
unfolding receive_data
receive_data-some d slots h left =
    rw (left, h.stored, blank-get_or slots d.head h.blank)
      (ap (λ b. ok (some zero_packet, record (received_from d) { buffer = b })) h.stored)

occupancy-sent :
    (d : Loopback) (slots : List RingPacket)
    → d.head < buf_len
    → d.tail < buf_len
    → (d.head == d.tail && d.full) ≡ false
    → (occupancy (sent_into d slots) ≡ occupancy d + 1) × (occupancy d < buf_len)
occupancy-sent d slots hi ti room = ground arith

occupancy-received :
    (d : Loopback)
    → d.head < buf_len
    → d.tail < buf_len
    → (d.head == d.tail && not d.full) ≡ false
    → (occupancy (received_from d) ≡ occupancy d - 1) × (0 < occupancy d)
occupancy-received d hi ti left = ground arith

-- What a sequence of calls comes to: packets that hold nothing, where a queue of `n` has one.
abbrev pub Refines : ℕ → List RingCall → Parsed (List (Option RingPacket) × Loopback) → Type 0
Refines n cs (ok r) = (map is_given r.0 ≡ run_count n cs) × All (Given (λ p. p ≡ zero_packet)) r.0
Refines n cs overflow = ⊥
Refines n cs null_pointer = ⊥
Refines n cs failed = ⊥
Refines n cs no_fuel = ⊥

Refines-send :
    (n k : ℕ) (cs : List RingCall) (bytes : List ℕ)
    (r : Parsed (List (Option RingPacket) × Loopback))
    → k ≡ (if ltb n buf_len then n + 1 else n)
    → Refines k cs r
    → Refines n (send bytes ∷ cs) r
Refines-send n k cs bytes (ok s) e h = (h.0 ∙ ap (λ i. run_count i cs) e, h.1)
Refines-send n k cs bytes overflow e h = absurd h
Refines-send n k cs bytes null_pointer e h = absurd h
Refines-send n k cs bytes failed e h = absurd h
Refines-send n k cs bytes no_fuel e h = absurd h

Refines-receive :
    (n : ℕ) (cs : List RingCall) (o : Option RingPacket)
    (r : Parsed (List (Option RingPacket) × Loopback))
    → is_given o ≡ ltb 0 n
    → Given (λ p. p ≡ zero_packet) o
    → Refines (n - 1) cs r
    → Refines n (receive ∷ cs) (r >>= λ s. ok (o ∷ s.0, s.1))
Refines-receive n cs o (ok s) e g h =
    (ap (λ b. b ∷ map is_given s.0) e ∙ ap (◌∷◌ (ltb 0 n)) h.0, (g, h.1))
Refines-receive n cs o overflow e g h = absurd h
Refines-receive n cs o null_pointer e g h = absurd h
Refines-receive n cs o failed e g h = absurd h
Refines-receive n cs o no_fuel e g h = absurd h

one_more : (n : ℕ) → n < buf_len → n + 1 ≡ (if ltb n buf_len then n + 1 else n)
one_more n h = ground arith

-- Between connect and disconnect the ring is a queue of at most 100 packets, as far as their number
-- goes: for every sequence of calls from a state with `occupancy` packets, no null pointer is
-- followed, and a receiving call gets a packet exactly when such a queue, which drops what comes
-- when it is full, has one. Yet each packet that is received has length 0 and no data: what was
-- sent never comes back.
pub run-Refines :
    (d : Loopback) (slots : List RingPacket) (cs : List RingCall)
    → IsRing d slots
    → Refines (occupancy d) cs (run d cs)
unfolding run
run-Refines d slots [] h = (refl, tt)
run-Refines d slots (send bytes ∷ cs) h = elim (Bool-cases (d.head == d.tail && d.full)) [
  | inl e ↦ rw (send_data-full d bytes e) (
      Refines-send (occupancy d) (occupancy d) cs bytes (run d cs) (ground arith)
        (run-Refines d slots cs h))
  | inr e ↦
      let count = occupancy-sent d slots h.head_inside h.tail_inside e in
      let d' = sent_into d slots in
      rw (send_data-room d slots bytes h e) (
        Refines-send (occupancy d) (occupancy d') cs bytes (run d' cs)
          (count.0 ∙ one_more (occupancy d) count.1)
          (run-Refines d' (set slots d.tail zero_packet) cs (record {
            stored = refl;
            blank = blank-set slots d.tail h.blank;
            head_inside = h.head_inside;
            tail_inside = omega arith;
          })))
]
run-Refines d slots (receive ∷ cs) h = elim (Bool-cases (d.head == d.tail && not d.full)) [
  | inl e ↦
      let nothing : occupancy d ≡ 0 = ground arith in
      let still : occupancy d ≡ occupancy d - 1 = omega (arith, nothing) in
      rw (receive_data-none d e) (
        Refines-receive (occupancy d) cs none (run d cs) (ground (arith, nothing)) tt
          (subst (λ n. Refines n cs (run d cs)) still (run-Refines d slots cs h)))
  | inr e ↦
      let count = occupancy-received d h.head_inside h.tail_inside e in
      rw (receive_data-some d slots h e) (
        Refines-receive (occupancy d) cs (some zero_packet) (run (received_from d) cs)
          (ground (arith, count)) refl
          (subst (λ n. Refines n cs (run (received_from d) cs)) count.0
            (run-Refines (received_from d) slots cs (record {
              stored = h.stored;
              blank = h.blank;
              head_inside = omega arith;
              tail_inside = h.tail_inside;
            }))))
]

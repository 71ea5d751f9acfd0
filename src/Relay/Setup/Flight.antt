-- ===== src/Relay/Setup/Flight.antt =====
-- How many control requests the threads of endpoint 0 have on the way.
use usbproxy_legacy.Prelude.{
  ℕ, ◌+◌, ◌≤◌, ◌≡◌, refl, true, false, Option, none, some, List, [], ◌∷◌, ◌++◌, if◌then◌else◌,
  arith,
}
use usbproxy_legacy.Packet.{PacketPtr, null, plain, setup, SetupPacket, new_setup_packet}
use usbproxy_legacy.SafeQueue.{enqueue, dequeue}
use usbproxy_legacy.Relay.Types.{Ops}
use usbproxy_legacy.Relay.Writer.{Writer, write_setup}
use usbproxy_legacy.Relay.Setup.{
  Ep0, HostInput, Event, reader_moves, writer_moves, reader_is_stopped, writer_is_stopped, Pc, top,
  receiving, finished, set_reader, wait_complete, accept_request, reader_top, reader_received,
  reader_at, reader_turn, send_on, writer_received, writer_at, writer_turn, stop_reader,
  stop_writer, step, run,
}

-- The setup packets among some packets.
abbrev weight : PacketPtr → ℕ
weight null = 0
weight (plain p) = 0
weight (setup s) = 1

abbrev pub setups : List PacketPtr → ℕ
setups [] = 0
setups (p ∷ ps) = weight p + setups ps

abbrev count_held : Option SetupPacket → ℕ
count_held none = 0
count_held (some s) = 1

setups-append : (xs ys : List PacketPtr) → setups (xs ++ ys) ≡ setups xs + setups ys
setups-append [] ys = omega arith
setups-append (x ∷ xs) ys = omega (arith, setups-append xs ys)

setups-enqueue : (q : List PacketPtr) (p : PacketPtr) → setups (enqueue q p) ≤ setups q + weight p
unfolding enqueue
setups-enqueue [] p = omega arith
setups-enqueue (x ∷ xs) p = ground (arith, setups-append xs (p ∷ []))

module _ {E : Type 0} where
  -- The right to ask the host for a request, the requests and responses in the queues, and the
  -- response that the reader holds.
  unfoldable pub in_flight : Ep0 E → ℕ
  in_flight s =
      (if s.reader.direction_out then 1 else 0)
      + count_held s.reader.held
      + setups s.to_writer
      + setups s.to_reader

  wait_complete-in_flight :
      (i : HostInput) (p : SetupPacket) (s : Ep0 E)
      → s.reader.direction_out ≡ false
      → s.reader.held ≡ none
      → in_flight (wait_complete i p s) ≤ in_flight s + 1
  unfolding in_flight wait_complete
  wait_complete-in_flight i p s d h = ground arith

  reader_top-in_flight :
      (i : HostInput) (s : Ep0 E) → in_flight s ≤ 1 → in_flight (reader_top i s) ≤ in_flight s
  unfolding in_flight reader_top accept_request set_reader wait_complete
  reader_top-in_flight i s h =
      elim i.request as (λ r. in_flight (reader_top (record i { request = r }) s) ≤ in_flight s) [
        | none ↦ ground arith
        | some (req, buf) ↦
            ground (arith, setups-enqueue s.to_writer (setup (new_setup_packet req buf true)))
      ]

  reader_received-in_flight :
      (i : HostInput) (p : PacketPtr) (s : Ep0 E)
      → in_flight s + weight p ≤ 1
      → in_flight (reader_received i p s) ≤ in_flight s + weight p
  unfolding in_flight reader_received set_reader wait_complete
  reader_received-in_flight i null s h = ground arith
  reader_received-in_flight i (plain p) s h = ground arith
  reader_received-in_flight i (setup r) s h = ground arith

  reader_at-in_flight :
      (i : HostInput) (c : Pc) (q : List PacketPtr) (s : Ep0 E)
      → s.to_reader ≡ q
      → in_flight s ≤ 1
      → in_flight (reader_at i c (dequeue q) s) ≤ in_flight s
  unfolding reader_at dequeue
  reader_at-in_flight i top q s e h = reader_top-in_flight i s h
  reader_at-in_flight i receiving [] s e h = omega arith
  reader_at-in_flight i receiving (p ∷ rest) s e h =
      let split : in_flight (record s { to_reader = rest }) + weight p ≡ in_flight s =
        unfold in_flight in ground arith in
      omega (
        arith,
        split,
        reader_received-in_flight i p (record s { to_reader = rest }) (omega (arith, split)),
      )
  reader_at-in_flight i finished q s e h = omega arith

  stop-in_flight :
      (s : Ep0 E)
      → (in_flight (stop_reader s) ≤ in_flight s) × (in_flight (stop_writer s) ≤ in_flight s)
  unfolding in_flight stop_reader stop_writer
  stop-in_flight s = (
    omega (arith, setups-enqueue s.to_reader null),
    omega (arith, setups-enqueue s.to_writer null),
  )

  send_on-in_flight :
      (out : Writer E × Option SetupPacket) (s : Ep0 E)
      → in_flight (send_on out s) ≤ in_flight s + 1
  unfolding in_flight send_on
  send_on-in_flight (w, none) s = omega arith
  send_on-in_flight (w, some r) s = omega (arith, setups-enqueue s.to_reader (setup r))

module _ {F E : Type 0} (ops : Ops F E) (filters : List F) where
  writer_received-in_flight :
      (p : PacketPtr) (s : Ep0 E)
      → in_flight (writer_received ops filters p s) ≤ in_flight s + weight p
  unfolding writer_received in_flight
  writer_received-in_flight null s = ground arith
  writer_received-in_flight (plain p) s = ground arith
  writer_received-in_flight (setup r) s =
      ground (arith, send_on-in_flight (write_setup ops filters s.writer r) s)

  writer_at-in_flight :
      (c : Pc) (q : List PacketPtr) (s : Ep0 E)
      → s.to_writer ≡ q
      → in_flight (writer_at ops filters c (dequeue q) s) ≤ in_flight s
  unfolding writer_at dequeue in_flight
  writer_at-in_flight top q s e = ground arith
  writer_at-in_flight receiving [] s e = omega arith
  writer_at-in_flight receiving (p ∷ rest) s e =
      ground (arith, writer_received-in_flight p (record s { to_writer = rest }))
  writer_at-in_flight finished q s e = omega arith

  pub step-in_flight :
      (s : Ep0 E) (e : Event) → in_flight s ≤ 1 → in_flight (step ops filters s e) ≤ in_flight s
  unfolding step reader_turn writer_turn
  step-in_flight s (reader_moves i) h = reader_at-in_flight i s.reader.pc s.to_reader s refl h
  step-in_flight s writer_moves h = writer_at-in_flight s.writer_pc s.to_writer s refl
  step-in_flight s reader_is_stopped h = (stop-in_flight s).0
  step-in_flight s writer_is_stopped h = (stop-in_flight s).1

  -- At most one control request is on its way at any time: however the two threads, the host and
  -- the manager interleave, the requests and responses in the queues, the response that the reader
  -- holds and the reader's right to ask for a request are together never more than they were, if
  -- they were at most one.
  pub run-in_flight :
      (s : Ep0 E) (es : List Event)
      → in_flight s ≤ 1
      → in_flight (run ops filters s es) ≤ in_flight s
  unfolding run
  run-in_flight s [] h = omega arith
  run-in_flight s (e ∷ es) h =
      let one = step-in_flight s e h in
      omega (arith, one, run-in_flight (step ops filters s e) es (omega (arith, one)))

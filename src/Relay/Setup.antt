-- ===== src/Relay/Setup.antt =====
-- The two threads of endpoint 0, `RelayReader::relay_read_setup` and
-- `RelayWriter::relay_write_setup` (src/lib/RelayReader.cpp, src/lib/RelayWriter.cpp), over the two
-- queues between them, with the `please_stop` of their headers. Threads interleave at the calls
-- that can wait.
pub mod Flight
pub mod Stall
pub mod Transaction
use usbproxy_legacy.Prelude.{
  ℕ, Bool, true, false, Option, none, some, List, [], ◌∷◌, ◌++◌, ◌==◌, if◌then◌else◌,
}
use usbproxy_legacy.Packet.{
  PacketPtr, null, plain, setup, SetupPacket, CtrlRequest, new_setup_packet,
}
use usbproxy_legacy.SafeQueue.{enqueue, dequeue}
use usbproxy_legacy.Relay.Types.{Ops}
use usbproxy_legacy.Relay.Writer.{Writer, write_setup}

-- Where a thread stands: at the head of its loop, inside `dequeue`, or past the loop.
pub data Pc : Type 0 where
  top receiving finished : Pc

-- What the reader asks of the host proxy for a request.
pub data HostAction : Type 0 where
  send_data : Option (List ℕ) → ℕ → HostAction
  control_ack : HostAction
  stall_ep : HostAction

pub record Reader : Type 0 where
  pub pc : Pc
  pub please_stop : Bool
  pub direction_out : Bool
  pub held : Option SetupPacket

pub record Ep0 (E : Type 0) : Type 0 where
  pub reader : Reader
  pub writer_pc : Pc
  pub writer_stop : Bool
  pub writer : Writer E
  pub to_writer : List PacketPtr
  pub to_reader : List PacketPtr
  pub host_log : List HostAction

-- What the host proxy answers in a turn of the reader: a control request with its data, if one came
-- within the timeout, and whether the transfer to the host is complete.
pub record HostInput : Type 0 where
  pub request : Option (CtrlRequest × Option (List ℕ))
  pub complete : Bool

-- The call that hands a response to the host.
pub respond : SetupPacket → HostAction
respond s =
    if s.transmit_in
    then (if s.ctrl_req.w_length == 0
        then control_ack
        else send_data s.data_bytes s.ctrl_req.w_length)
    else stall_ep

module _ {E : Type 0} where
  pub set_reader : Ep0 E → Reader → Ep0 E
  set_reader s r = record s { reader = r }

  -- `send_wait_complete` on the packet that is held.
  pub wait_complete : HostInput → SetupPacket → Ep0 E → Ep0 E
  unfolding set_reader
  wait_complete i p s =
      if i.complete
      then set_reader s (record (s.reader) { pc = top; direction_out = true; held = none })
      else set_reader s (record (s.reader) { pc = top; held = some p })

  -- The OUT branch: asks the host for a request.
  pub accept_request : HostInput → Ep0 E → Ep0 E
  unfolding set_reader
  accept_request i s = elim i.request [
    | none ↦ s
    | some (req, buf) ↦ record s {
      reader = record (s.reader) { direction_out = false };
      to_writer = enqueue s.to_writer (setup (new_setup_packet req buf true));
    }
  ]

  -- From the head of the loop.
  pub reader_top : HostInput → Ep0 E → Ep0 E
  unfolding set_reader
  reader_top i s =
      if s.reader.please_stop
      then set_reader s (record (s.reader) { pc = finished; please_stop = false })
      else if s.reader.direction_out
      then accept_request i s
      else elim s.reader.held [
        | some p ↦ wait_complete i p s
        | none ↦ set_reader s (record (s.reader) { pc = receiving })
      ]

  -- What follows the return of `dequeue`.
  pub reader_received : HostInput → PacketPtr → Ep0 E → Ep0 E
  unfolding set_reader
  reader_received i p s =
      if s.reader.please_stop
      then set_reader s (record (s.reader) { pc = finished; please_stop = false })
      else elim p [
        | null ↦ set_reader s (record (s.reader) { pc = top })
        | plain _ ↦ set_reader s (record (s.reader) { pc = top })
        | setup r ↦ wait_complete i r (record s { host_log = s.host_log ++ (respond r ∷ []) })
      ]

  -- The reader at a place, with what `dequeue` would return.
  pub reader_at : HostInput → Pc → Option (PacketPtr × List PacketPtr) → Ep0 E → Ep0 E
  reader_at i top next s = reader_top i s
  reader_at i receiving none s = s
  reader_at i receiving (some (p, rest)) s = reader_received i p (record s { to_reader = rest })
  reader_at i finished next s = s

  -- A turn of the reader thread. One that waits on an empty queue does nothing.
  pub reader_turn : HostInput → Ep0 E → Ep0 E
  reader_turn i s = reader_at i s.reader.pc (dequeue s.to_reader) s

  -- The end of the writer's loop body: the response goes to the reader, if there is one.
  pub send_on : Writer E × Option SetupPacket → Ep0 E → Ep0 E
  send_on (w, none) s = record s { writer_pc = top; writer = w }
  send_on (w, some r) s = record s {
    writer_pc = top;
    writer = w;
    to_reader = enqueue s.to_reader (setup r);
  }

  module _ {F : Type 0} (ops : Ops F E) (filters : List F) where
    pub writer_received : PacketPtr → Ep0 E → Ep0 E
    writer_received p s =
        if s.writer_stop then record s { writer_pc = finished; writer_stop = false } else elim p [
          | null ↦ record s { writer_pc = top }
          | plain _ ↦ record s { writer_pc = top }
          | setup r ↦ send_on (write_setup ops filters s.writer r) s
        ]

    pub writer_at : Pc → Option (PacketPtr × List PacketPtr) → Ep0 E → Ep0 E
    writer_at top next s =
        if s.writer_stop
        then record s { writer_pc = finished; writer_stop = false }
        else record s { writer_pc = receiving }
    writer_at receiving none s = s
    writer_at receiving (some (p, rest)) s = writer_received p (record s { to_writer = rest })
    writer_at finished next s = s

    -- A turn of the writer thread.
    pub writer_turn : Ep0 E → Ep0 E
    writer_turn s = writer_at s.writer_pc (dequeue s.to_writer) s

  -- `please_stop` of the two classes, called by the manager's thread: the flag, and a null packet
  -- that wakes the thread.
  pub stop_reader : Ep0 E → Ep0 E
  stop_reader s = record s {
    reader = record (s.reader) { please_stop = true };
    to_reader = enqueue s.to_reader null;
  }

  pub stop_writer : Ep0 E → Ep0 E
  stop_writer s = record s { writer_stop = true; to_writer = enqueue s.to_writer null }

-- Who moves next.
pub data Event : Type 0 where
  reader_moves : HostInput → Event
  writer_moves reader_is_stopped writer_is_stopped : Event

module _ {F E : Type 0} (ops : Ops F E) (filters : List F) where
  pub step : Ep0 E → Event → Ep0 E
  step s (reader_moves i) = reader_turn i s
  step s writer_moves = writer_turn ops filters s
  step s reader_is_stopped = stop_reader s
  step s writer_is_stopped = stop_writer s

  pub run : Ep0 E → List Event → Ep0 E
  run s [] = s
  run s (e ∷ es) = run (step s e) es

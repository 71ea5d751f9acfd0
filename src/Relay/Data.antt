-- ===== src/Relay/Data.antt =====
-- The threads of the data endpoints: `RelayWriter::relay_write` and `RelayReader::relay_read`
-- (src/lib/RelayWriter.cpp, src/lib/RelayReader.cpp). The writer's queue is filled by the reader of
-- the same endpoint and by injectors.
use usbproxy_legacy.Prelude.{
  ℕ, zero, suc, ◌≡◌, ◌≤◌, ◌+◌, ◌-◌, ◌*◌, ◌%◌, ◌^◌, length, replicate, refl, Bool, true, false, not,
  Option, none, some, List, [], ◌∷◌, ◌++◌, ◌==◌, if◌then◌else◌, ◌∙◌, arith,
}
use mathlib.Core.List.{append_assoc, append-nil}
use usbproxy_legacy.Packet.{PacketPtr, null, plain, setup, Packet, new_packet}
use usbproxy_legacy.SafeQueue.{enqueue, dequeue}
use usbproxy_legacy.Relay.Types.{Ops}

-- What `receive_data` delivers within its timeout: `*length`, and the buffer.
pub record Received : Type 0 where
  pub len : ℕ
  pub bytes : List ℕ

-- One pass of the loop of `relay_read` on an endpoint. `_length` of `Packet` is a `__u16`.
read_turn : ℕ → Received → List PacketPtr → List PacketPtr
read_turn endpoint r q =
    if r.len == 0 then q else enqueue q (plain (new_packet endpoint r.bytes (r.len % 2 ^ 16) true))

-- The state of `relay_write`: `writing`, what its calls share, and the calls of `send_data` so far.
pub record DataWriter (E : Type 0) : Type 0 where
  pub env : E
  pub writing : Bool
  pub sent : List (List ℕ × ℕ)

module _ {F E : Type 0} (ops : Ops F E) where
  -- The loop over the filters of the writer.
  unfoldable pub filter_all : List F → E → Packet → E × Packet
  filter_all [] e p = (e, p)
  filter_all (f ∷ fs) e p =
      let (e', p') = if ops.test_packet f p then ops.filter_packet f e p else (e, p) in
      filter_all fs e' p'

  -- What follows `dequeue`. The queue of a data endpoint holds no setup packet; a null pointer only
  -- wakes the thread.
  take_packet : List F → PacketPtr → DataWriter E → DataWriter E
  take_packet filters null w = w
  take_packet filters (setup s) w = w
  take_packet filters (plain p) w =
      let (e, p') = filter_all filters w.env p in
      if p'.transmit
      then record { env = e; writing = true; sent = w.sent ++ ((p'.data_bytes, p'.w_length) ∷ []) }
      else record w { env = e }

  take_next :
      List F
      → DataWriter E
      → Option (PacketPtr × List PacketPtr)
      → List PacketPtr
      → DataWriter E × List PacketPtr
  take_next filters w none q = (w, q)
  take_next filters w (some (p, rest)) q = (take_packet filters p w, rest)

  -- One pass of the loop: with the transfer still under way it polls for its end, and otherwise it
  -- takes a packet, if there is one. `complete` is the answer of `send_wait_complete`.
  write_turn : List F → Bool → DataWriter E → List PacketPtr → DataWriter E × List PacketPtr
  unfolding take_next
  write_turn filters complete w q =
      if w.writing
      then (record w { writing = not complete }, q)
      else take_next filters w (dequeue q) q

  -- Some passes, with what `send_wait_complete` answers in each.
  pub write_run : List F → List Bool → DataWriter E → List PacketPtr → DataWriter E × List PacketPtr
  write_run filters [] w q = (w, q)
  write_run filters (c ∷ cs) w q =
      let (w', q') = write_turn filters c w q in write_run filters cs w' q'

  -- What the packets of a queue come to, in order, when each is filtered and those that are not to
  -- be transmitted are left out.
  unfoldable pub relayed : List F → E → List PacketPtr → List (List ℕ × ℕ)
  relayed filters e [] = []
  relayed filters e (null ∷ q) = relayed filters e q
  relayed filters e (setup s ∷ q) = relayed filters e q
  relayed filters e (plain p ∷ q) =
      let (e', p') = filter_all filters e p in
      (if p'.transmit then (p'.data_bytes, p'.w_length) ∷ [] else []) ++ relayed filters e' q

  write_turn-relayed :
      (filters : List F) (c : Bool) (w : DataWriter E) (q : List PacketPtr)
      → let (w', q') = write_turn filters c w q in
        w'.sent ++ relayed filters w'.env q' ≡ w.sent ++ relayed filters w.env q
  unfolding write_turn relayed dequeue take_packet
  write_turn-relayed filters c w [] = ground arith
  write_turn-relayed filters c w (null ∷ q) = ground arith
  write_turn-relayed filters c w (setup s ∷ q) = ground arith
  write_turn-relayed filters c w (plain p ∷ q) =
      let (e, p') = filter_all filters w.env p in
      ground (arith, append_assoc w.sent ((p'.data_bytes, p'.w_length) ∷ []) (relayed filters e q))

  -- The writer of a data endpoint neither loses, repeats nor reorders: after any number of passes,
  -- whatever the transfers take, what has been sent, followed by what the packets left in the queue
  -- come to, is what had been sent followed by what all the packets come to.
  pub write_run-relayed :
      (filters : List F) (cs : List Bool) (w : DataWriter E) (q : List PacketPtr)
      → let (w', q') = write_run filters cs w q in
        w'.sent ++ relayed filters w'.env q' ≡ w.sent ++ relayed filters w.env q
  unfolding write_run
  write_run-relayed filters [] w q = refl
  write_run-relayed filters (c ∷ cs) w q =
      let (w', q') = write_turn filters c w q in
      write_run-relayed filters cs w' q' ∙ write_turn-relayed filters c w q

  busy : DataWriter E → ℕ
  busy w = if w.writing then 1 else 0

  write_turn-progress :
      (filters : List F) (w : DataWriter E) (q : List PacketPtr)
      → let (w', q') = write_turn filters true w q in
        2 * length q' + busy w' ≤ (2 * length q + busy w) - 1
  unfolding write_turn dequeue take_packet busy
  write_turn-progress filters w [] = ground arith
  write_turn-progress filters w (null ∷ q) = ground arith
  write_turn-progress filters w (setup s ∷ q) = ground arith
  write_turn-progress filters w (plain p ∷ q) = ground arith

  write_run-empties :
      (filters : List F) (n : ℕ) (w : DataWriter E) (q : List PacketPtr)
      → 2 * length q + busy w ≤ n
      → (write_run filters (replicate n true) w q).1 ≡ []
  unfolding write_run
  write_run-empties filters zero w [] h = refl
  write_run-empties filters zero w (p ∷ q) h = absurd (omega arith)
  write_run-empties filters (suc n) w q h =
      let (w', q') = write_turn filters true w q in
      write_run-empties filters n w' q' (omega (arith, write_turn-progress filters w q))

  -- Everything is delivered: while each transfer completes by the next pass, two passes for each
  -- packet of the queue are enough to empty it, and then exactly what its packets come to has been
  -- sent, in order.
  pub write_run-delivers :
      (filters : List F) (w : DataWriter E) (q : List PacketPtr)
      → w.writing ≡ false
      → let (w', q') = write_run filters (replicate (2 * length q) true) w q in
        (q' ≡ []) × (w'.sent ≡ w.sent ++ relayed filters w.env q)
  unfolding relayed
  write_run-delivers filters w q idle =
      let passes = replicate (2 * length q) true in
      let emptied : (write_run filters passes w q).1 ≡ [] =
        write_run-empties filters (2 * length q) w q (unfold busy in ground arith) in
      let kept = write_run-relayed filters passes w q in
      (emptied, ground (arith, emptied, kept, append-nil (write_run filters passes w q).0.sent))

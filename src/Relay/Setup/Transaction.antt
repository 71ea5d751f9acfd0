-- ===== src/Relay/Setup/Transaction.antt =====
-- One control transfer through the threads of endpoint 0 (src/lib/RelayReader.cpp,
-- src/lib/RelayWriter.cpp), from the host's request to the answer that the host gets.
use usbproxy_legacy.Prelude.{
  ℕ, ◌%◌, ◌^◌, ◌≡◌, true, false, not, ◌&&◌, Option, none, some, List, [], ◌∷◌, ◌++◌, ◌==◌, has_bits,
  replicate, if◌then◌else◌, Bool-cases, inl, inr, arith,
}
use usbproxy_legacy.Packet.{SetupPacket, CtrlRequest, new_setup_packet}
use usbproxy_legacy.SafeQueue.{enqueue, dequeue}
use usbproxy_legacy.Relay.Types.{Ops, Reply}
use usbproxy_legacy.Relay.Writer.{Writer, write_setup, out_loop, in_loop, request_in, request_out}
use usbproxy_legacy.Relay.Setup.{
  Ep0, HostAction, send_data, control_ack, stall_ep, HostInput, Event, reader_moves, writer_moves,
  top, set_reader, wait_complete, accept_request, reader_top, reader_received, reader_at,
  reader_turn, send_on, writer_received, writer_at, writer_turn, step, run, respond,
}

-- Both threads at the head of their loops, with nothing on its way.
abbrev pub quiet : {E : Type 0} → Writer E → List HostAction → Ep0 E
quiet w log = record {
  reader = record { pc = top; please_stop = false; direction_out = true; held = none };
  writer_pc = top;
  writer_stop = false;
  writer = w;
  to_writer = [];
  to_reader = [];
  host_log = log;
}

abbrev answered : HostInput
answered = record { request = none; complete = true }

-- The host sends a request, the writer passes it on, and the reader takes the response.
abbrev pub transfer : CtrlRequest → Option (List ℕ) → List Event
transfer req buf =
    reader_moves (record { request = some (req, buf); complete = true })
    ∷ writer_moves
    ∷ writer_moves
    ∷ reader_moves answered
    ∷ reader_moves answered
    ∷ []

module _ {F E : Type 0} (ops : Ops F E) where
  with_response :
      (filters : List F) (w w' : Writer E) (log : List HostAction) (req : CtrlRequest)
      (buf : Option (List ℕ)) (r : SetupPacket)
      → write_setup ops filters w (new_setup_packet req buf true) ≡ (w', some r)
      → run ops filters (quiet w log) (transfer req buf) ≡ quiet w' (log ++ (respond r ∷ []))
  unfolding run step reader_turn reader_at reader_top accept_request enqueue dequeue writer_turn
      writer_at writer_received send_on set_reader reader_received wait_complete
  with_response filters w w' log req buf r e = rw e

  -- What the device is asked, and what the host is told, when no filter stands between.
  abbrev device_reply : Writer E → CtrlRequest → Option (List ℕ) → E × Reply
  device_reply w req buf =
      if has_bits req.b_request_type 0x80
      then ops.control_request w.env req w.len (some (replicate req.w_length 0))
      else ops.control_request w.env req req.w_length buf

  abbrev host_answer : CtrlRequest → Reply → HostAction
  host_answer req reply =
      if reply.accepted
      then (if has_bits req.b_request_type 0x80 && not (reply.nbytes % 2 ^ 16 == 0)
          then send_data reply.bytes (reply.nbytes % 2 ^ 16)
          else control_ack)
      else stall_ep

  -- SET_CONFIGURATION, which the manager is told of.
  abbrev after_request : CtrlRequest → E → E
  after_request req e =
      if not (has_bits req.b_request_type 0x80) && (req.b_request == 9 && req.b_request_type == 0)
      then ops.set_config e (req.w_value % 256)
      else e

  abbrev forwarded : CtrlRequest → Reply → SetupPacket
  forwarded req reply = record {
    ctrl_req = record req {
      w_length = if has_bits req.b_request_type 0x80 then reply.nbytes % 2 ^ 16 else 0;
    };
    data_bytes = reply.bytes;
    filter_out = true;
    transmit_out = true;
    filter_in = true;
    transmit_in = reply.accepted;
  }

  write_setup-unfiltered :
      (w : Writer E) (req : CtrlRequest) (buf : Option (List ℕ))
      → let (e, reply) = device_reply w req buf in
        write_setup ops [] w (new_setup_packet req buf true)
        ≡ (record { env = after_request req e; len = reply.nbytes }, some (forwarded req reply))
  unfolding write_setup out_loop request_in request_out in_loop new_setup_packet
  write_setup-unfiltered w req buf = elim (Bool-cases (has_bits req.b_request_type 0x80)) [
    | inl to_host ↦ rw to_host
    | inr to_device ↦ rw to_device
  ]

  respond-forwarded :
      (req : CtrlRequest) (reply : Reply) → respond (forwarded req reply) ≡ host_answer req reply
  unfolding respond
  respond-forwarded req reply = ground arith

  -- With no filter the proxy is transparent on endpoint 0: a control transfer asks the device for
  -- exactly the host's request, and gives the host exactly the device's answer: its data and their
  -- length (modulo 2 ^ 16) for a request of data, an acknowledgement for one of none, a stall for a
  -- refusal. SET_CONFIGURATION reaches the manager. Afterwards the threads are ready for the next
  -- request.
  pub unfiltered_transfer :
      (w : Writer E) (log : List HostAction) (req : CtrlRequest) (buf : Option (List ℕ))
      → let (e, reply) = device_reply w req buf in
        run ops [] (quiet w log) (transfer req buf)
        ≡ quiet
            (record { env = after_request req e; len = reply.nbytes })
            (log ++ (host_answer req reply ∷ []))
  unfiltered_transfer w log req buf =
      let (e, reply) = device_reply w req buf in
      rw (
        with_response [] w (record { env = after_request req e; len = reply.nbytes }) log req buf
            (forwarded req reply) (write_setup-unfiltered w req buf),
        respond-forwarded req reply,
      )

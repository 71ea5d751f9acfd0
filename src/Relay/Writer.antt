-- ===== src/Relay/Writer.antt =====
-- One pass of the loop of `RelayWriter::relay_write_setup` (src/lib/RelayWriter.cpp) over a setup
-- packet.
use usbproxy_legacy.Prelude.{
  ℕ, ◌%◌, ◌^◌, Bool, true, false, ◌&&◌, Option, none, some, List, [], ◌∷◌, ◌==◌, if◌then◌else◌,
  has_bits, replicate,
}
use usbproxy_legacy.Packet.{SetupPacket}
use usbproxy_legacy.Relay.Types.{Ops}

-- The part of the writer's state that outlives a pass: what its calls share, and the local variable
-- `length`.
pub record Writer (E : Type 0) : Type 0 where
  pub env : E
  pub len : ℕ

module _ {F E : Type 0} (ops : Ops F E) where
  apply_filter : F → E → SetupPacket → Bool → E × SetupPacket
  apply_filter f e s out =
      if ops.test_setup_packet f s out then ops.filter_setup_packet f e s out else (e, s)

  -- The OUT loop. The last part of the result is the filters from index `j` on.
  unfoldable pub out_loop : List F → E → SetupPacket → E × SetupPacket × List F
  unfolding apply_filter
  out_loop [] e s = (e, s, [])
  out_loop (f ∷ fs) e s =
      let (e', s') = apply_filter f e s true in
      if s.filter_out then out_loop fs e' s' else (e, s, f ∷ fs)

  -- The IN loop from index `j` on.
  unfoldable pub in_loop : List F → E → SetupPacket → E × SetupPacket
  unfolding apply_filter
  in_loop [] e s = (e, s)
  in_loop (f ∷ fs) e s =
      let (e', s') = apply_filter f e s false in if s.filter_in then in_loop fs e' s' else (e, s)

  -- `device->host`: the data stage comes back in a new buffer, and every filter is asked again.
  unfoldable pub request_in : List F → Writer E → SetupPacket → Writer E × SetupPacket
  request_in filters w s =
      let (e, reply) =
        ops.control_request w.env s.ctrl_req w.len (some (replicate s.ctrl_req.w_length 0)) in
      let s' = record s {
        data_bytes = reply.bytes;
        transmit_in = reply.accepted;
        ctrl_req = record (s.ctrl_req) { w_length = reply.nbytes % 2 ^ 16 };
      } in
      let (e', s'') = in_loop filters e s' in (record { env = e'; len = reply.nbytes }, s'')

  -- `host->device`: only the filters that the OUT loop left over are asked.
  unfoldable pub request_out : List F → Writer E → SetupPacket → Writer E × SetupPacket
  request_out rest w s =
      let (e, reply) = ops.control_request w.env s.ctrl_req s.ctrl_req.w_length s.data_bytes in
      let e1 =
        if s.ctrl_req.b_request == 9 && s.ctrl_req.b_request_type == 0
        then ops.set_config e (s.ctrl_req.w_value % 256)
        else e in
      let s' = record s {
        data_bytes = reply.bytes;
        transmit_in = reply.accepted;
        ctrl_req = record (s.ctrl_req) { w_length = 0 };
      } in
      let (e', s'') = in_loop rest e1 s' in (record { env = e'; len = reply.nbytes }, s'')

  -- A pass over one setup packet: `none` where `transmit_out` is off and nothing is sent on.
  unfoldable pub write_setup : List F → Writer E → SetupPacket → Writer E × Option SetupPacket
  write_setup filters w p =
      let (e, s, rest) = out_loop filters w.env p in
      let w' = record w { env = e } in
      if s.transmit_out
      then (if has_bits s.ctrl_req.b_request_type 0x80
          then (let (w'', s') = request_in filters w' s in (w'', some s'))
          else (let (w'', s') = request_out rest w' s in (w'', some s')))
      else (w', none)

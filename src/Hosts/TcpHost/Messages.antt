-- ===== src/Hosts/TcpHost/Messages.antt =====
-- src/Plugins/Hosts/HostProxy_TCP.cpp and src/Plugins/Devices/DeviceProxy_TCP.cpp: what one of the
-- two sends, as the other reads it.
use usbproxy_legacy.Prelude.{
  ℕ, zero, suc, ◌+◌, ◌*◌, ◌%◌, ◌/◌, ◌≤◌, ◌≡◌, refl, ap, sym, ◌∙◌, ◌&&◌, not, List, [], ◌∷◌, ◌++◌,
  ◌/=◌, ltb, if◌then◌else◌, length, take, Bool-cases, inl, inr, arith,
}
use usbproxy_legacy.Packet.{CtrlRequest}
use usbproxy_legacy.Usb.Interface.{ok}
use usbproxy_legacy.Devices.TcpDevice
use usbproxy_legacy.Devices.TcpDevice.{
  Reply, stalled, done, available, tcp_buffer_size, copied, is_in, request_frame, setup_bytes,
  read_reply, reply_length, receive_data,
}
use usbproxy_legacy.Hosts.TcpHost.{
  null, overwritten, request, take_request, request_of, control_request, send_data, control_ack,
  stall_ep,
}

take-all : (n : ℕ) (bs : List ℕ) → length bs ≤ n → take n bs ≡ bs
take-all zero [] h = refl
take-all zero (b ∷ bs) h = absurd (omega arith)
take-all (suc n) [] h = refl
take-all (suc n) (b ∷ bs) h = ap (◌∷◌ b) (take-all n bs (omega arith))

copied-take : (bs : List ℕ) (n : ℕ) → n ≤ length bs → copied bs n ≡ take n bs
copied-take [] zero h = refl
copied-take [] (suc n) h = absurd (omega arith)
copied-take (b ∷ bs) zero h = refl
copied-take (b ∷ bs) (suc n) h = ap (◌∷◌ b) (copied-take bs n (omega arith))

copied-all : (bs : List ℕ) (n : ℕ) → length bs ≡ n → copied bs n ≡ bs
copied-all bs n h = copied-take bs n (omega arith) ∙ take-all n bs (omega arith)

-- What the relay does with a request that came in, once the device has answered.
pub data Answer : Type 0 where
  with_data : List ℕ → Answer
  acked refused : Answer

pub answer_frame : Answer → List ℕ
unfolding send_data stall_ep
answer_frame (with_data bytes) = send_data 0 bytes (length bytes)
answer_frame acked = control_ack
answer_frame refused = stall_ep 0

-- What the other end is to see of it.
abbrev pub seen : CtrlRequest → Answer → Reply
seen r (with_data bytes) = done (take r.w_length bytes)
seen r acked = done []
seen r refused = stalled

-- The answer fits into the buffer of the other end.
abbrev pub Fits : Answer → Type 0
Fits (with_data bytes) = length bytes + 3 ≤ tcp_buffer_size
Fits acked = Unit
Fits refused = Unit

read_reply-data :
    (r : CtrlRequest) (bytes : List ℕ)
    → length bytes + 3 ≤ tcp_buffer_size
    → read_reply r (send_data 0 bytes (length bytes)) ≡ done (take r.w_length bytes)
unfolding read_reply send_data
read_reply-data r bytes fits =
    let len : length bytes / 256 % 256 * 256 + length bytes % 256 ≡ length bytes = omega arith in
    elim (Bool-cases (ltb r.w_length (length bytes))) [
      | inl e ↦
          rw (len, e, copied-all bytes (length bytes) refl)
            (ap done (copied-take bytes r.w_length (ground arith)))
      | inr e ↦
          rw (len, e, copied-all bytes (length bytes) refl)
            (ap done (
              copied-all bytes (length bytes) refl
              ∙ sym (take-all r.w_length bytes (ground arith))))
    ]

read_reply-ack : (r : CtrlRequest) → read_reply r control_ack ≡ done []
unfolding read_reply
read_reply-ack r = elim (Bool-cases (ltb r.w_length 0)) [
  | inl e ↦ absurd (ground arith)
  | inr e ↦ rw e refl
]

-- A device over the network answers as the device at the other end does: it refuses a request that
-- was refused there, and gives the data that was sent there, up to the length of the request, if the
-- message fits into the buffer and arrives whole.
pub control_request-seen :
    (r : CtrlRequest) (bytes : List ℕ) (a : Answer)
    → Fits a
    → TcpDevice.control_request r bytes (available (answer_frame a))
      ≡ (request_frame r bytes, ok (seen r a))
unfolding TcpDevice.control_request answer_frame send_data stall_ep read_reply
control_request-seen r bytes (with_data sent) fits =
    let same = copied-all sent (length sent) refl in
    ap (λ f. (request_frame r bytes, ok (read_reply r f)))
      (take-all tcp_buffer_size (send_data 0 sent (length sent)) (omega (arith, ap length same)))
    ∙ ap (λ x. (request_frame r bytes, ok x)) (read_reply-data r sent fits)
control_request-seen r bytes acked fits = ap (λ x. (request_frame r bytes, ok x)) (read_reply-ack r)
control_request-seen r bytes refused fits = refl

request_of-setup_bytes : (r : CtrlRequest) (rest : List ℕ) → request_of (setup_bytes r ++ rest) ≡ r
request_of-setup_bytes r rest =
    let value : r.w_value % 256 + r.w_value / 256 * 256 ≡ r.w_value = omega arith in
    let index : r.w_index % 256 + r.w_index / 256 * 256 ≡ r.w_index = omega arith in
    let len : r.w_length % 256 + r.w_length / 256 * 256 ≡ r.w_length = omega arith in
    rw (value, index, len) refl

control_request-setup_bytes :
    (r : CtrlRequest) (rest : List ℕ)
    → length rest + 8 ≤ tcp_buffer_size
    → control_request (available (setup_bytes r ++ rest))
      ≡ ok (
          if not (is_in r) && r.w_length /= 0
          then request r (length rest) (overwritten rest)
          else request r 0 null)
unfolding control_request take_request
control_request-setup_bytes r rest fits =
    ap (λ f. ok (take_request f))
      (take-all tcp_buffer_size (setup_bytes r ++ rest) (omega (arith, fits)))
    ∙ ap
        (λ q. ok (
          if not (is_in q) && q.w_length /= 0
          then request q (length rest) (overwritten rest)
          else request q 0 null))
        (request_of-setup_bytes r rest)

-- A request with as many bytes of data as its length says arrives at the other end as it was, if the
-- message fits into the buffer and arrives whole. Yet the data of a request to the device is written over the pointer to it.
pub control_request-arrived :
    (r : CtrlRequest) (bytes : List ℕ)
    → length bytes ≡ r.w_length
    → r.w_length + 8 ≤ tcp_buffer_size
    → control_request (available (request_frame r bytes))
      ≡ ok (
          if not (is_in r) && r.w_length /= 0
          then request r r.w_length (overwritten bytes)
          else request r 0 null)
unfolding request_frame
control_request-arrived r bytes sized fits = elim (Bool-cases (is_in r)) [
  | inl e ↦ rw e (control_request-setup_bytes r [] (omega arith) ∙ rw e refl)
  | inr e ↦
      rw (e, copied-all bytes r.w_length sized)
        (control_request-setup_bytes r bytes (omega (arith, sized, fits)) ∙ rw (e, sized) refl)
]

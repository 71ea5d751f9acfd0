-- ===== src/Injectors/Udp.antt =====
-- src/Plugins/Injectors/Injector_UDP.cpp and Injector_UDPHID.cpp: the packet in a datagram. The
-- socket is left out: `poll` and `recv` give a datagram or none. The buffer of 1472 bytes keeps
-- what earlier datagrams left behind the last one.
mod Tests
use usbproxy_legacy.Prelude.{
  ℕ, zero, suc, ◌+◌, ◌*◌, ◌-◌, ◌%◌, ◌/◌, ◌^◌, ◌≤◌, ◌<◌, ◌≡◌, ◌≢◌, refl, ap, sym, ◌∙◌, Bool, true,
  false, ◌&&◌, not, Option, none, some, List, [], ◌∷◌, ◌++◌, ◌==◌, ◌/=◌, ltb, if◌then◌else◌, get_or,
  length, take, drop, has_bits, bit_and, bit_and-le, take-append, Given, Bool-cases, inl, inr,
  arith,
}
use usbproxy_legacy.Packet.{Packet, SetupPacket, CtrlRequest, new_packet, new_setup_packet}
use usbproxy_legacy.Usb.Interface.{Parsed, ok, overflow, null_pointer, failed, no_fuel, ◌>>=◌}

-- `UDP_BUFFER_SIZE`.
abbrev udp_buffer_size : ℕ
udp_buffer_size = 1472

-- `recv`: the first bytes of the buffer are overwritten.
abbrev pub received : List ℕ → List ℕ → List ℕ
received buf bytes = bytes ++ drop (length bytes) buf

-- `memcpy` of `n` bytes from offset `at`, which may read past the buffer.
copy_from : List ℕ → ℕ → ℕ → Parsed (List ℕ)
copy_from buf at n = if ltb udp_buffer_size (at + n) then overflow else ok (take n (drop at buf))

-- `memcpy(&ctrl_req,buf+3,8)`.
ctrl_request_at_3 : List ℕ → CtrlRequest
ctrl_request_at_3 b = record {
  b_request_type = get_or b 3 0;
  b_request = get_or b 4 0;
  w_value = get_or b 5 0 + get_or b 6 0 * 256;
  w_index = get_or b 7 0 + get_or b 8 0 * 256;
  w_length = get_or b 9 0 + get_or b 10 0 * 256;
}

-- `~(buf[1]&mask)` as a Boolean: the complement of a number below 256 as an `int` is never 0.
abbrev complement_is_set : ℕ → ℕ → Bool
complement_is_set flags mask = not (2 ^ 32 - 1 - bit_and flags mask == 0)

with_flags : SetupPacket → ℕ → SetupPacket
with_flags s flags = record s {
  filter_out = complement_is_set flags 1;
  transmit_out = complement_is_set flags 2;
  filter_in = complement_is_set flags 4;
  transmit_in = complement_is_set flags 8;
}

data_packet : List ℕ → Parsed Packet
data_packet b =
    let usblen = get_or b 2 0 * 256 + get_or b 3 0 in
    let flags = get_or b 1 0 in
    copy_from b 4 usblen >>= λ bytes.
    ok (record (new_packet (get_or b 0 0) bytes usblen (not (has_bits flags 1))) {
      transmit = not (has_bits flags 2);
    })

setup_packet : List ℕ → Parsed SetupPacket
setup_packet b =
    let req = ctrl_request_at_3 b in
    let bytes : Parsed (Option (List ℕ)) =
      if has_bits req.b_request_type 0x80
      then ok none
      else (copy_from b 11 req.w_length >>= λ bs. ok (some bs)) in
    bytes >>= λ o. ok (with_flags (new_setup_packet req o true) (get_or b 1 0))

pub record Got : Type 0 where
  pub packet : Option Packet
  pub setup : Option SetupPacket

-- The buffer after the call, and `*packet` and `*setup`.
pub get_packets : List ℕ → Option (List ℕ) → Parsed (List ℕ × Got)
get_packets buf none = ok (buf, record { packet = none; setup = none })
get_packets buf (some []) = ok (buf, record { packet = none; setup = none })
get_packets buf (some (x ∷ xs)) =
    let b = received buf (x ∷ xs) in
    if x /= 0
    then (data_packet b >>= λ p. ok (b, record { packet = some p; setup = none }))
    else (setup_packet b >>= λ s. ok (b, record { packet = none; setup = some s }))

-- The datagram for a packet: endpoint, two flags that turn `filter` and `transmit` off, the length
-- with the high byte first, the bytes.
abbrev pub datagram : Packet → List ℕ
datagram p =
    p.b_endpoint
    ∷ ((if p.filter then 0 else 1) + (if p.transmit then 0 else 2))
    ∷ p.w_length / 256
    ∷ p.w_length % 256
    ∷ p.data_bytes

copy_from-append :
    (b bytes rest : List ℕ) (at n : ℕ)
    → drop at b ≡ bytes ++ rest
    → length bytes ≡ n
    → at + n ≤ udp_buffer_size
    → copy_from b at n ≡ ok bytes
unfolding copy_from
copy_from-append b bytes rest at n behind sized fits =
    let inside : ltb udp_buffer_size (at + n) ≡ false = ground arith in
    rw (inside, behind)
      (ap (λ k. ok (take k (bytes ++ rest))) (sym sized) ∙ ap ok (take-append bytes rest))

filter-flag : (f t : Bool) → not (has_bits ((if f then 0 else 1) + (if t then 0 else 2)) 1) ≡ f
filter-flag true true = refl
filter-flag true false = refl
filter-flag false true = refl
filter-flag false false = refl

transmit-flag : (f t : Bool) → not (has_bits ((if f then 0 else 1) + (if t then 0 else 2)) 2) ≡ t
transmit-flag true true = refl
transmit-flag true false = refl
transmit-flag false true = refl
transmit-flag false false = refl

data_packet-datagram :
    (p : Packet) (rest : List ℕ)
    → length p.data_bytes ≡ p.w_length
    → p.w_length + 4 ≤ udp_buffer_size
    → data_packet (datagram p ++ rest) ≡ ok p
unfolding data_packet new_packet
data_packet-datagram p rest sized fits =
    let len : p.w_length / 256 * 256 + p.w_length % 256 ≡ p.w_length = omega arith in
    rw
      (
        len,
        copy_from-append (datagram p ++ rest) p.data_bytes rest 4 p.w_length refl sized
            (omega arith),
        filter-flag p.filter p.transmit,
        transmit-flag p.filter p.transmit,
      )
      refl

-- A packet is read back from its datagram, whatever the buffer held: its endpoint not 0, its length
-- that of its bytes, the datagram not longer than the buffer.
pub get_packets-datagram :
    (buf : List ℕ) (p : Packet)
    → p.b_endpoint ≢ 0
    → length p.data_bytes ≡ p.w_length
    → p.w_length + 4 ≤ udp_buffer_size
    → get_packets buf (some (datagram p))
      ≡ ok (received buf (datagram p), record { packet = some p; setup = none })
unfolding get_packets
get_packets-datagram buf p endpoint sized fits =
    let other : (p.b_endpoint /= 0) ≡ true = ground arith in
    let rest = drop (length (datagram p)) buf in
    rw (other, data_packet-datagram p rest sized fits) refl

-- The datagram for a control request: 0, flags, a byte that is not read, the request, the data.
abbrev pub setup_datagram : ℕ → CtrlRequest → List ℕ → List ℕ
setup_datagram flags r bytes =
    0
    ∷ flags
    ∷ 0
    ∷ r.b_request_type
    ∷ r.b_request
    ∷ r.w_value % 256
    ∷ r.w_value / 256
    ∷ r.w_index % 256
    ∷ r.w_index / 256
    ∷ r.w_length % 256
    ∷ r.w_length / 256
    ∷ bytes

all_set : (x : ℕ) (n : ℕ) → n < 256 → complement_is_set x n ≡ true
all_set x n h = ground (arith, bit_and-le x n)

ctrl_request_at_3-datagram :
    (flags : ℕ) (r : CtrlRequest) (bytes : List ℕ)
    → ctrl_request_at_3 (setup_datagram flags r bytes) ≡ r
unfolding ctrl_request_at_3
ctrl_request_at_3-datagram flags r bytes =
    let value : r.w_value % 256 + r.w_value / 256 * 256 ≡ r.w_value = omega arith in
    let index : r.w_index % 256 + r.w_index / 256 * 256 ≡ r.w_index = omega arith in
    let len : r.w_length % 256 + r.w_length / 256 * 256 ≡ r.w_length = omega arith in
    rw (value, index, len) refl

-- A control request is read back from its datagram, with its data if it goes to the device. Yet
-- the flags of the datagram, which should turn filters and transmission off, turn nothing off.
pub get_packets-setup_datagram :
    (buf bytes : List ℕ) (flags : ℕ) (r : CtrlRequest)
    → length bytes ≡ r.w_length
    → r.w_length + 11 ≤ udp_buffer_size
    → get_packets buf (some (setup_datagram flags r bytes))
      ≡ ok (
        received buf (setup_datagram flags r bytes),
        record {
          packet = none;
          setup = some (
              new_setup_packet r
                (if has_bits r.b_request_type 0x80 then none else some bytes)
                true);
        },
      )
unfolding get_packets setup_packet with_flags new_setup_packet
get_packets-setup_datagram buf bytes flags r sized fits =
    let rest = drop (length (setup_datagram flags r bytes)) buf in
    let copied =
      copy_from-append (setup_datagram flags r bytes ++ rest) bytes rest 11 r.w_length refl sized
        (omega arith) in
    elim (Bool-cases (has_bits r.b_request_type 0x80)) [
      | inl e ↦
          rw
            (
              ctrl_request_at_3-datagram flags r (bytes ++ rest),
              e,
              all_set flags 1 (omega arith),
              all_set flags 2 (omega arith),
              all_set flags 4 (omega arith),
              all_set flags 8 (omega arith),
            )
            refl
      | inr e ↦
          rw
            (
              ctrl_request_at_3-datagram flags r (bytes ++ rest),
              e,
              copied,
              all_set flags 1 (omega arith),
              all_set flags 2 (omega arith),
              all_set flags 4 (omega arith),
              all_set flags 8 (omega arith),
            )
            refl
    ]

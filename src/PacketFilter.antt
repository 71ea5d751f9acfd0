-- ===== src/PacketFilter.antt =====
-- src/lib/PacketFilter.h and src/lib/PacketFilter.cpp: the header test that decides whether a
-- filter sees a packet.
mod Tests
use Prim.Native.Nat.{bit_and-bitwise}
use usbproxy_legacy.Prelude.{
  ℕ, zero, suc, ◌+◌, ◌≤◌, ◌<◌, ◌≡◌, ◌↔◌, refl, Bool, true, false, not, ◌&&◌, ◌||◌, List, [], ◌∷◌,
  ltb, ◌==◌, ◌/=◌, if◌then◌else◌, get_or, get_or-replicate, replicate, bit_and, arith, Bool-cases,
  inl, inr,
}
use usbproxy_legacy.Packet.{Packet, SetupPacket, CtrlRequest}
use usbproxy_legacy.Descriptors.{low_byte, high_byte}

-- The protected fields of the class; the criteria are in `Criteria`.
pub record PacketFilter : Type 0 where
  pub packet_header : List ℕ
  pub packet_header_mask : List ℕ
  pub packet_header_mask_length : ℕ
  pub packet_header_setup_out : Bool
  pub packet_header_setup_in : Bool

-- The constructor.
abbrev pub packet_filter : PacketFilter
packet_filter = record {
  packet_header = replicate 8 0;
  packet_header_mask = replicate 8 0;
  packet_header_mask_length = 0;
  packet_header_setup_out = true;
  packet_header_setup_in = true;
}

-- The loop of `set_packet_filter` from index `i`, with `k` rounds to go.
mask_length_from : List ℕ → ℕ → ℕ → ℕ → ℕ
mask_length_from mask i zero len = len
mask_length_from mask i (suc k) len =
    mask_length_from mask (i + 1) k (if get_or mask i 0 == 0 then len else i)

set_packet_filter : PacketFilter → List ℕ → List ℕ → PacketFilter
set_packet_filter f header mask = record f {
  packet_header_mask_length = mask_length_from mask 0 8 1;
}

-- The loop of both tests over the header bytes from index `i`, with `k` rounds to go.
header_matches : List ℕ → List ℕ → List ℕ → ℕ → ℕ → Bool
header_matches header mask bytes i zero = true
header_matches header mask bytes i (suc k) =
    if get_or mask i 0 /= 0
      && bit_and (get_or mask i 0) (get_or bytes i 0)
        /= bit_and (get_or mask i 0) (get_or header i 0)
    then false
    else header_matches header mask bytes (i + 1) k

pub test_packet : PacketFilter → Packet → Bool
unfolding header_matches
test_packet f p =
    if ltb p.w_length f.packet_header_mask_length
    then false
    else header_matches f.packet_header f.packet_header_mask p.data_bytes 0
        f.packet_header_mask_length

-- The bytes of a packed `usb_ctrlrequest`.
ctrl_bytes : CtrlRequest → List ℕ
ctrl_bytes r =
    r.b_request_type
    ∷ r.b_request
    ∷ low_byte r.w_value
    ∷ high_byte r.w_value
    ∷ low_byte r.w_index
    ∷ high_byte r.w_index
    ∷ low_byte r.w_length
    ∷ high_byte r.w_length
    ∷ []

pub test_setup_packet : PacketFilter → SetupPacket → Bool → Bool
unfolding header_matches ctrl_bytes
test_setup_packet f p direction_out =
    if not (
      (f.packet_header_setup_out || not direction_out)
      || (f.packet_header_setup_in || direction_out))
    then false
    else header_matches f.packet_header f.packet_header_mask (ctrl_bytes p.ctrl_req) 0
        f.packet_header_mask_length

-- Byte `i` of `bytes` agrees with the header under the mask.
abbrev pub Agrees : List ℕ → List ℕ → List ℕ → ℕ → Type 0
Agrees header mask bytes i =
    bit_and (get_or mask i 0) (get_or bytes i 0) ≡ bit_and (get_or mask i 0) (get_or header i 0)

module _ (header mask bytes : List ℕ) where
  zero_mask : (i : ℕ) → get_or mask i 0 ≡ 0 → Agrees header mask bytes i
  zero_mask i e =
      rw (e, bit_and-bitwise 0 (get_or bytes i 0), bit_and-bitwise 0 (get_or header i 0)) refl

  header_matches_sound :
      (i k j : ℕ)
      → header_matches header mask bytes i k ≡ true
      → i ≤ j
      → j < i + k
      → Agrees header mask bytes j
  unfolding header_matches
  header_matches_sound i zero j h a b = absurd (omega arith)
  header_matches_sound i (suc k) j h a b = elim (Bool-cases (i == j)) [
    | inl e ↦ ground (arith, zero_mask j)
    | inr e ↦ header_matches_sound (i + 1) k j (ground arith) (ground arith) (omega arith)
  ]

  header_matches_complete :
      (i k : ℕ)
      → ((j : ℕ) → i ≤ j → j < i + k → Agrees header mask bytes j)
      → header_matches header mask bytes i k ≡ true
  unfolding header_matches
  header_matches_complete i zero h = refl
  header_matches_complete i (suc k) h =
      let here : Agrees header mask bytes i = h i (omega arith) (omega arith) in
      let rest : header_matches header mask bytes (i + 1) k ≡ true =
        header_matches_complete (i + 1) k (λ j p q. h j (omega arith) (omega arith)) in
      ground arith

-- A packet passes the header test exactly when it has as many bytes as the mask is long and each of
-- them agrees with the header under the mask.
pub test_packet_iff :
    (f : PacketFilter) (p : Packet)
    → (test_packet f p ≡ true) ↔ (
        (f.packet_header_mask_length ≤ p.w_length)
        × ((j : ℕ)
            → j < f.packet_header_mask_length
            → Agrees f.packet_header f.packet_header_mask p.data_bytes j))
unfolding test_packet
test_packet_iff f p = (
  λ h. (
    ground arith,
    λ j b.
        header_matches_sound f.packet_header f.packet_header_mask p.data_bytes 0
          f.packet_header_mask_length j (ground arith) (omega arith) (omega arith),
  ),
  λ h.
      let fits : header_matches f.packet_header f.packet_header_mask p.data_bytes 0
            f.packet_header_mask_length
          ≡ true =
        header_matches_complete f.packet_header f.packet_header_mask p.data_bytes 0
          f.packet_header_mask_length (λ j a b. h.1 j (omega arith)) in
      ground arith,
)

-- The two direction flags and the direction do not change the result of the setup test: its guard
-- never rejects a packet.
test_setup_packet_ignores_direction :
    (f : PacketFilter) (p : SetupPacket) (d d' out_flag in_flag : Bool)
    → test_setup_packet f p d
      ≡ test_setup_packet
          (record f { packet_header_setup_out = out_flag; packet_header_setup_in = in_flag })
          p
          d'
unfolding test_setup_packet
test_setup_packet_ignores_direction f p d d' out_flag in_flag = ground arith

unmasked :
    (header bytes : List ℕ) (i k : ℕ) → header_matches header (replicate 8 0) bytes i k ≡ true
unfolding header_matches
unmasked header bytes i zero = refl
unmasked header bytes i (suc k) =
    rw (get_or-replicate {A = ℕ} 8 0 i) (unmasked header bytes (i + 1) k)

-- `set_packet_filter` stores neither the header nor the mask: on a newly constructed filter, every
-- setup packet passes afterwards, and so does every packet that is at least as long as the mask.
set_packet_filter_forgets :
    (header mask : List ℕ) (p : Packet) (s : SetupPacket) (d : Bool)
    → (set_packet_filter packet_filter header mask).packet_header_mask_length ≤ p.w_length
    → (test_packet (set_packet_filter packet_filter header mask) p ≡ true)
      × (test_setup_packet (set_packet_filter packet_filter header mask) s d ≡ true)
unfolding set_packet_filter test_packet test_setup_packet
set_packet_filter_forgets header mask p s d h =
    let n = mask_length_from mask 0 8 1 in
    let all_bytes = unmasked (replicate 8 0) p.data_bytes 0 n in
    let all_setup = unmasked (replicate 8 0) (ctrl_bytes s.ctrl_req) 0 n in
    (ground (arith, all_bytes), all_setup)

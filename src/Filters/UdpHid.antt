-- ===== src/Filters/UdpHid.antt =====
-- src/Plugins/Filters/PacketFilter_UDPHID.cpp, with the report buffer that it shares with
-- src/Plugins/Injectors/Injector_UDPHID.cpp: input reports of a game controller are merged with
-- the last report that came in by UDP.
mod Tests
use usbproxy_legacy.Prelude.{
  ℕ, zero, suc, ◌+◌, ◌-◌, ◌≤◌, ◌<◌, ◌≡◌, ◌≢◌, refl, ap, sym, ◌∙◌, Bool, true, false, ◌&&◌, ◌||◌,
  Option, none, some, List, [], ◌∷◌, ◌++◌, ◌==◌, ◌/=◌, ltb, leb, if◌then◌else◌, get_or, set,
  get_or-set, length-set, length, take, drop, replicate, bit_or, Bool-cases, inl, inr, arith,
}
use usbproxy_legacy.Packet.{Packet, SetupPacket}
use usbproxy_legacy.Criteria.{
  CriteriaEndpoint, CriteriaInterface, criteria_endpoint, criteria_interface, pos,
}
use usbproxy_legacy.PacketFilter.{PacketFilter, packet_filter}
use usbproxy_legacy.Usb.Interface.{Parsed, ok, ◌>>=◌}
use usbproxy_legacy.Injectors.Udp.{Got, get_packets}

-- What both constructors set.
abbrev udphid_interface : CriteriaInterface
udphid_interface = record criteria_interface { device_class = pos 0xff; sub_class = pos 0x5d }

abbrev udphid_endpoint : CriteriaEndpoint
udphid_endpoint = record criteria_endpoint { address = 0x80; address_mask = 0x80 }

-- The constructor of the filter.
abbrev udphid_filter : PacketFilter
udphid_filter = record packet_filter {
  packet_header_mask_length = 2;
  packet_header = 0 ∷ 20 ∷ replicate 6 0;
  packet_header_mask = 0xff ∷ 0xff ∷ replicate 6 0;
  packet_header_setup_in = false;
  packet_header_setup_out = false;
}

-- The report buffer after the constructor of the injector.
abbrev first_report : List ℕ
first_report = 0 ∷ 0x14 ∷ replicate 18 0

-- `memcpy(reportBuffer+2,data+2,12)`, for a report.
store_report : List ℕ → Packet → List ℕ
store_report report p =
    if p.w_length == 20 && (get_or p.data_bytes 0 0 == 0 && get_or p.data_bytes 1 0 == 20)
    then take 2 report ++ take 12 (drop 2 p.data_bytes) ++ drop 14 report
    else report

abbrev store_if_any : List ℕ → Option Packet → List ℕ
store_if_any report none = report
store_if_any report (some p) = store_report report p

-- `get_packets` of Injector_UDPHID: the report buffer, and what `get_packets` of Injector_UDP
-- gives.
get_reports : List ℕ → List ℕ → Option (List ℕ) → Parsed (List ℕ × (List ℕ × Got))
unfolding store_report
get_reports report buf bytes =
    get_packets buf bytes >>= λ r. ok (store_if_any report (r.1.packet), r)

-- The loop from index `i`, with `k` rounds to go.
merge_from : List ℕ → ℕ → ℕ → List ℕ → List ℕ
merge_from report i zero bytes = bytes
merge_from report i (suc k) bytes =
    merge_from report (suc i) k
      (if get_or report i 0 /= 0 then set bytes i (get_or report i 0) else bytes)

abbrev or_at : List ℕ → ℕ → List ℕ → List ℕ
or_at report i bytes = set bytes i (bit_or (get_or bytes i 0) (get_or report i 0))

pub filter_packet : List ℕ → Packet → Packet
filter_packet report p = if p.w_length /= 20 then p else record p {
  data_bytes = merge_from report 4 10 (or_at report 3 (or_at report 2 p.data_bytes));
}

-- Byte `j` of a merged report.
abbrev pub merged_byte : List ℕ → List ℕ → ℕ → ℕ
merged_byte report bytes j =
    if j == 2 || j == 3
    then bit_or (get_or bytes j 0) (get_or report j 0)
    else if leb 4 j && leb j 13 && get_or report j 0 /= 0
    then get_or report j 0
    else get_or bytes j 0

-- One round of the loop.
abbrev merge_one : List ℕ → ℕ → List ℕ → List ℕ
merge_one report i bytes = if get_or report i 0 /= 0 then set bytes i (get_or report i 0) else bytes

get_or-merge_one :
    (report bytes : List ℕ) (i j : ℕ)
    → i < length bytes
    → get_or (merge_one report i bytes) j 0
      ≡ (if j == i && get_or report i 0 /= 0 then get_or report i 0 else get_or bytes j 0)
get_or-merge_one report bytes i j h = elim (Bool-cases (get_or report i 0 /= 0)) [
  | inl e ↦ rw e (get_or-set bytes i j (get_or report i 0) 0 h ∙ ground arith)
  | inr e ↦ rw e (ground arith)
]

length-merge_one :
    (report bytes : List ℕ) (i : ℕ) → length (merge_one report i bytes) ≡ length bytes
length-merge_one report bytes i = elim (Bool-cases (get_or report i 0 /= 0)) [
  | inl e ↦ rw e (length-set bytes i (get_or report i 0))
  | inr e ↦ rw e refl
]

get_or-merge_from :
    (report bytes : List ℕ) (i k j : ℕ)
    → i + k ≤ length bytes
    → get_or (merge_from report i k bytes) j 0 ≡ (
        if leb i j && ltb j (i + k) && get_or report j 0 /= 0
        then get_or report j 0
        else get_or bytes j 0)
unfolding merge_from
get_or-merge_from report bytes i zero j h = ground arith
get_or-merge_from report bytes i (suc k) j h =
    let next = merge_one report i bytes in
    let rest =
      get_or-merge_from report next (suc i) k j (omega (arith, length-merge_one report bytes i)) in
    let here = get_or-merge_one report bytes i j (omega arith) in
    rest ∙ elim (Bool-cases (j == i)) [
      | inl e ↦
          let same : j ≡ i = ground arith in
          let value : get_or report j 0 ≡ get_or report i 0 = ap (λ x. get_or report x 0) same in
          rw here (ground (arith, value))
      | inr e ↦ rw here (ground arith)
    ]

get_or-or_at :
    (report bytes : List ℕ) (i j : ℕ)
    → i < length bytes
    → get_or (or_at report i bytes) j 0
      ≡ (if j == i then bit_or (get_or bytes j 0) (get_or report j 0) else get_or bytes j 0)
get_or-or_at report bytes i j h =
    let both = λ (k : ℕ). bit_or (get_or bytes k 0) (get_or report k 0) in
    get_or-set bytes i j (both i) 0 h ∙ elim (Bool-cases (j == i)) [
      | inl e ↦ let same : j ≡ i = ground arith in rw e (ap both (sym same))
      | inr e ↦ rw e refl
    ]

get_or-or_both :
    (report bytes : List ℕ) (j : ℕ)
    → 3 < length bytes
    → get_or (or_at report 3 (or_at report 2 bytes)) j 0 ≡ (
        if j == 2 || j == 3
        then bit_or (get_or bytes j 0) (get_or report j 0)
        else get_or bytes j 0)
get_or-or_both report bytes j h =
    let first = or_at report 2 bytes in
    let sized = length-set bytes 2 (bit_or (get_or bytes 2 0) (get_or report 2 0)) in
    get_or-or_at report first 3 j (omega (arith, sized)) ∙ elim (Bool-cases (j == 3)) [
      | inl e ↦ rw (get_or-or_at report bytes 2 j (omega arith)) (ground arith)
      | inr e ↦ rw (get_or-or_at report bytes 2 j (omega arith)) (ground arith)
    ]

-- The filter changes packets of length 20 only, in which byte by byte it merges the stored report:
-- bytes 2 and 3 are joined bit by bit, bytes 4 to 13 are replaced where the report has one that is
-- not 0, and each other byte stays.
pub filter_packet-merged :
    (report : List ℕ) (p : Packet) (j : ℕ)
    → length p.data_bytes ≡ p.w_length
    → get_or (filter_packet report p).data_bytes j 0
      ≡ (if p.w_length == 20 then merged_byte report p.data_bytes j else get_or p.data_bytes j 0)
unfolding filter_packet
filter_packet-merged report p j sized = elim (Bool-cases (p.w_length == 20)) [
  | inl e ↦ rw e (
      let first = or_at report 2 p.data_bytes in
      let base = or_at report 3 first in
      let size2 =
        length-set p.data_bytes 2 (bit_or (get_or p.data_bytes 2 0) (get_or report 2 0)) in
      let size3 = length-set first 3 (bit_or (get_or first 3 0) (get_or report 3 0)) in
      let count : p.w_length ≡ 20 = ground arith in
      get_or-merge_from report base 4 10 j (omega (arith, size2, size3, sized, count))
      ∙ rw (get_or-or_both report p.data_bytes j (omega (arith, sized, count))) (ground arith))
  | inr e ↦ rw e refl
]

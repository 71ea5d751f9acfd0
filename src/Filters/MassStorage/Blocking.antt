-- ===== src/Filters/MassStorage/Blocking.antt =====
-- Write blocking in src/Plugins/Filters/PacketFilter_MassStorage.cpp: what is withheld from the
-- device, and the answer that the injector makes up.
use usbproxy_legacy.Prelude.{
  ℕ, ◌+◌, ◌%◌, ◌^◌, ◌≤◌, ◌<◌, ◌≡◌, Bool, true, false, not, ◌&&◌, some, List, [], ◌∷◌, ◌++◌, ◌==◌,
  if◌then◌else◌, get_or, length, ◌∙◌, All, arith,
}
use mathlib.Core.Option
use usbproxy_legacy.Packet.{Packet, new_packet}
use usbproxy_legacy.Filters.MassStorage.{
  MassStorage, Phase, idle, command, read, write, status, unknown, command_tag, command_blocks,
  queue_packet, count_block, on_command, on_write, on_read, on_type, packet_type, has_signature,
  filter_packet, check_for_password, cache_write, address, run, get_packets,
}

abbrev is_write_command : Packet → Bool
is_write_command p = get_or p.data_bytes 0x0f 0 == 0x2a

-- Whether the filter withholds a packet of a type: a write command while writes are blocked, by the
-- in-band flag where signalling is on; and data of a write while the flag of the last write command
-- stands.
abbrev withholds : MassStorage → Packet → Phase → Bool
withholds s p command =
    is_write_command p && (if s.inband_signalling then s.inband_block_writes else s.block_writes)
withholds s p write = s.block_writes
withholds s p other = false

block_writes-check :
    (s : MassStorage) (bytes : List ℕ) → (check_for_password s bytes).block_writes ≡ s.block_writes
unfolding check_for_password
block_writes-check s bytes = ground arith

transmit-on_write :
    (s : MassStorage) (p : Packet) → (on_write s p).1.transmit ≡ p.transmit && not s.block_writes
unfolding on_write
transmit-on_write s p =
    let cached : MassStorage = record s {
      block_cache = cache_write s.block_cache (address s) p.data_bytes;
    } in
    ground (arith, block_writes-check s p.data_bytes, block_writes-check cached p.data_bytes)

transmit-on_type :
    (ty : Phase) (s : MassStorage) (p : Packet)
    → (on_type ty s p).1.transmit ≡ p.transmit && not (withholds s p ty)
unfolding on_type
transmit-on_type idle s p = ground arith
transmit-on_type command s p = unfold on_command in ground arith
transmit-on_type read s p = unfold on_read in ground arith
transmit-on_type write s p = transmit-on_write s p
transmit-on_type status s p = ground arith
transmit-on_type unknown s p = ground arith

-- The filter withholds exactly the write commands and the write data that are blocked, and changes
-- `transmit` of no other packet.
transmit-filter_packet :
    (s : MassStorage) (p : Packet)
    → (filter_packet s p).1.transmit ≡ p.transmit && not (withholds s p (packet_type s p))
unfolding filter_packet
transmit-filter_packet s p = transmit-on_type (packet_type s p) s p

-- A packet that can only be data: longer than any wrapper.
abbrev pub IsData : Packet → Type 0
IsData p = 64 < p.w_length

IsData-type : (s : MassStorage) (p : Packet) → IsData p → packet_type s p ≡ s.state
unfolding packet_type has_signature
IsData-type s p h = ground arith

-- A filter in the middle of a blocked write.
pub record IsBlocking (s : MassStorage) : Type 0 where
  pub writing : s.state ≡ write
  pub blocked : s.block_writes ≡ true
  pub no_signal : s.inband_signalling ≡ false

-- What one data packet of a blocked write does to the fields that count.
record Counts (s s' : MassStorage) : Type 0 where
  keeps : IsBlocking s'
  count : s'.block_count ≡ s.block_count
  offset : s'.block_offset ≡ (s.block_offset + 1) % 2 ^ 32
  same_tag : s'.tag ≡ s.tag
  answers :
      s'.pipe
      ≡ (if (s.block_offset + 1) % 2 ^ 32 == s.block_count then s.pipe ++ (s.tag ∷ []) else s.pipe)

on_write-Counts : (s : MassStorage) (p : Packet) → IsBlocking s → Counts s (on_write s p).0
unfolding on_write count_block queue_packet
on_write-Counts s p b = ground arith

filter_packet-Counts :
    (s : MassStorage) (p : Packet) → IsBlocking s → IsData p → Counts s (filter_packet s p).0
unfolding filter_packet
filter_packet-Counts s p b d =
    let ty : packet_type s p ≡ write = IsData-type s p d ∙ b.writing in
    rw (ty, on_type) (on_write-Counts s p b)

-- The blocks of a blocked write, in turn: one answer is queued, with the tag of the command,
-- exactly when the last block that the command announced has come.
run_blocks :
    (s : MassStorage) (p : Packet) (ps : List Packet)
    → IsBlocking s
    → All IsData (p ∷ ps)
    → s.block_offset + length (p ∷ ps) ≤ s.block_count
    → s.block_count < 2 ^ 32
    → (run s (p ∷ ps)).0.pipe ≡ (
        if s.block_offset + length (p ∷ ps) == s.block_count
        then s.pipe ++ (s.tag ∷ [])
        else s.pipe)
unfolding run
run_blocks s p [] b d room small = ground (arith, filter_packet-Counts s p b d.0)
run_blocks s p (q ∷ qs) b d room small =
    let c = filter_packet-Counts s p b d.0 in
    let s' = (filter_packet s p).0 in
    ground (arith, c, run_blocks s' q qs c.keeps d.1 (omega (arith, c)) (omega (arith, c)))

run_withheld :
    (s : MassStorage) (ps : List Packet)
    → IsBlocking s
    → All IsData ps
    → All (λ q. q.transmit ≡ false) (run s ps).1
unfolding run
run_withheld s [] b d = tt
run_withheld s (p ∷ ps) b d =
    let c = filter_packet-Counts s p b d.0 in
    let sent = transmit-filter_packet s p in
    let ty : packet_type s p ≡ write = IsData-type s p d.0 ∙ b.writing in
    (ground arith, run_withheld (filter_packet s p).0 ps c.keeps d.1)

-- A WRITE(10) command of `n` blocks under a tag.
pub record IsWriteCommand (p : Packet) (n : ℕ) : Type 0 where
  pub wrapper : p.w_length ≡ 31
  pub sig0 : get_or p.data_bytes 0 0 ≡ 0x55
  pub sig1 : get_or p.data_bytes 1 0 ≡ 0x53
  pub sig2 : get_or p.data_bytes 2 0 ≡ 0x42
  pub sig3 : get_or p.data_bytes 3 0 ≡ 0x43
  pub opcode : get_or p.data_bytes 0x0f 0 ≡ 0x2a
  pub blocks : command_blocks p.data_bytes ≡ n

-- What the write command does to a filter that blocks writes.
record Starts (s s' : MassStorage) (c : Packet) (n : ℕ) : Type 0 where
  blocking : IsBlocking s'
  count : s'.block_count ≡ n
  offset : s'.block_offset ≡ 0
  new_tag : s'.tag ≡ command_tag c.data_bytes
  same_pipe : s'.pipe ≡ s.pipe

command-type :
    (s : MassStorage) (c : Packet) (n : ℕ) → IsWriteCommand c n → packet_type s c ≡ command
unfolding packet_type has_signature
command-type s c n w = ground arith

on_command-Starts :
    (s : MassStorage) (c : Packet) (n : ℕ)
    → s.block_writes ≡ true
    → s.inband_signalling ≡ false
    → IsWriteCommand c n
    → Starts s (on_command s c).0 c n × ((on_command s c).1.transmit ≡ false)
unfolding on_command
on_command-Starts s c n bw inb w = ground arith

filter_packet-Starts :
    (s : MassStorage) (c : Packet) (n : ℕ)
    → s.block_writes ≡ true
    → s.inband_signalling ≡ false
    → IsWriteCommand c n
    → Starts s (filter_packet s c).0 c n × ((filter_packet s c).1.transmit ≡ false)
unfolding filter_packet
filter_packet-Starts s c n bw inb w =
    rw (command-type s c n w, on_type) (on_command-Starts s c n bw inb w)

get_packets-one :
    (s : MassStorage) (a b c d : ℕ)
    → s.pipe ≡ (a ∷ b ∷ c ∷ d ∷ []) ∷ []
    → Option.map (λ r. r.1) (get_packets s)
      ≡ some (
          new_packet 0x82
            (0x55 ∷ 0x53 ∷ 0x42 ∷ 0x53 ∷ a ∷ b ∷ c ∷ d ∷ 0 ∷ 0 ∷ 0 ∷ 0 ∷ 0 ∷ [])
            13
            true)
unfolding get_packets
get_packets-one s a b c d e = rw (e, get_packets)

-- A blocked write is withheld whole and answered once: with write blocking on and in-band
-- signalling off, of a write command of n blocks and its n data packets none is sent on, and if no
-- other answer was queued, the one answer that the injector then has is the status wrapper "passed"
-- with the command's tag.
pub blocked_write :
    (s : MassStorage) (c d : Packet) (ds : List Packet)
    → s.block_writes ≡ true
    → s.inband_signalling ≡ false
    → s.pipe ≡ []
    → IsWriteCommand c (length (d ∷ ds))
    → All IsData (d ∷ ds)
    → length (d ∷ ds) < 2 ^ 16
    → All (λ q. q.transmit ≡ false) (run s (c ∷ d ∷ ds)).1
      × (length (run s (c ∷ d ∷ ds)).0.pipe ≡ 1)
      × (Option.map (λ r. r.1) (get_packets (run s (c ∷ d ∷ ds)).0)
          ≡ some (
              new_packet 0x82
                (0x55 ∷ 0x53 ∷ 0x42 ∷ 0x53 ∷ command_tag c.data_bytes ++ (0 ∷ 0 ∷ 0 ∷ 0 ∷ 0 ∷ []))
                13
                true))
blocked_write s c d ds bw inb empty w blocks small =
    let start = filter_packet-Starts s c (length (d ∷ ds)) bw inb w in
    let s1 = (filter_packet s c).0 in
    let rest = run_withheld s1 (d ∷ ds) start.0.blocking blocks in
    let queued =
      run_blocks s1 d ds start.0.blocking blocks (omega (arith, start.0))
        (omega (arith, start.0)) in
    let pipe : (run s (c ∷ d ∷ ds)).0.pipe ≡ command_tag c.data_bytes ∷ [] =
      unfold run in ground (arith, start.0, queued) in
    (
      (unfold run in (start.1, rest)),
      rw pipe,
      get_packets-one (run s (c ∷ d ∷ ds)).0 (get_or c.data_bytes 4 0) (get_or c.data_bytes 5 0)
          (get_or c.data_bytes 6 0) (get_or c.data_bytes 7 0) pipe,
    )

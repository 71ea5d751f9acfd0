-- ===== src/Filters/MassStorage.antt =====
-- src/Plugins/Filters/PacketFilter_MassStorage.h and .cpp: watches a bulk-only mass storage device,
-- blocks writes and answers them itself, and keeps a cache of the blocks that it has seen.
-- `malloc` is taken to succeed; what goes to stderr is left out. Bytes that the code reads beyond
-- the end of a buffer are 0 here. The class is a filter and an injector: `pipe` holds the tags that
-- `queue_packet` wrote and `get_packets` has not read.
pub mod Cache
pub mod Password
pub mod Blocking
mod Tests
use Prim.Native.Char.{code}
use Prim.Native.String.{String}
use text.Mathlib.Text.{◌==◌ as str_eq}
use usbproxy_legacy.Prelude.{
  ℕ, zero, suc, ◌+◌, ◌-◌, ◌*◌, ◌%◌, ◌^◌, Bool, true, false, ◌&&◌, Option, none, some, List, [], ◌∷◌,
  ◌++◌, ◌==◌, ltb, if◌then◌else◌, get_or, length, take, drop,
}
use usbproxy_legacy.Packet.{Packet, new_packet}

-- The `#define`s for `state` and for the type of a packet.
pub data Phase : Type 0 where
  idle command read write status unknown : Phase

pub record MassStorage : Type 0 where
  pub state : Phase
  pub tag : List ℕ
  pub pipe : List (List ℕ)
  pub block_writes : Bool
  pub cache_blocks : Bool
  pub inband_signalling : Bool
  pub inband_block_writes : Bool
  pub unblock_password : List ℕ
  pub block_password : List ℕ
  pub block_count : ℕ
  pub block_offset : ℕ
  pub base_address : ℕ
  pub block_cache : List (ℕ × List ℕ)

abbrev pub codes : String → List ℕ
codes String.[] = []
codes (String.◌∷◌ c s) = code c ∷ codes s

-- The constructor. `cfg` is `ConfigParser::get`; the last three arguments are what the memory of
-- the fields that it leaves unset holds.
mass_storage : (String → String) → List ℕ → ℕ → ℕ → MassStorage
mass_storage cfg tag offset base = record {
  state = idle;
  tag = tag;
  pipe = [];
  block_writes = str_eq (cfg "MassStorage:BlockWrites") "on";
  cache_blocks = str_eq (cfg "MassStorage:CacheBlocks") "on";
  inband_signalling = str_eq (cfg "MassStorage:InbandSignalling") "on";
  inband_block_writes = str_eq (cfg "MassStorage:BlockWrites") "on";
  unblock_password = codes (cfg "MassStorage:UnblockPassword");
  block_password = codes (cfg "MassStorage:BlockPassword");
  block_count = 0;
  block_offset = offset;
  base_address = base;
  block_cache = [];
}

abbrev pub block_size : ℕ
block_size = 512

pub queue_packet : MassStorage → MassStorage
queue_packet s = record s { pipe = s.pipe ++ (s.tag ∷ []) }

-- `block_cache.find` and `block_cache[address] = block`.
pub find_block : ℕ → List (ℕ × List ℕ) → Option (List ℕ)
find_block a [] = none
find_block a ((b, block) ∷ rest) = if b == a then some block else find_block a rest

pub store_block : ℕ → List ℕ → List (ℕ × List ℕ) → List (ℕ × List ℕ)
store_block a block [] = (a, block) ∷ []
store_block a block ((b, old) ∷ rest) =
    if b == a then (a, block) ∷ rest else (b, old) ∷ store_block a block rest

-- The new cache, and the packet's buffer after the call.
pub cache_read : List (ℕ × List ℕ) → ℕ → List ℕ → List (ℕ × List ℕ) × List ℕ
cache_read cache address bytes = elim (find_block address cache) [
  | none ↦ (store_block address (take block_size bytes) cache, bytes)
  | some block ↦ (cache, block ++ drop block_size bytes)
]

-- A data packet is taken to hold a whole block.
pub cache_write : List (ℕ × List ℕ) → ℕ → List ℕ → List (ℕ × List ℕ)
cache_write cache address bytes = store_block address (take block_size bytes) cache

-- `data[i] == c_str[ptr]`: a byte against a `char`, which is signed.
pub same_char : ℕ → ℕ → Bool
same_char byte char = ltb char 128 && byte == char

-- The loop of `check_for_password` from index `i`, with `k` rounds to go. The byte behind the
-- password is the terminating 0.
pub scan : List ℕ → List ℕ → ℕ → ℕ → ℕ → Bool
scan password bytes i zero ptr = false
scan password bytes i (suc k) ptr =
    let ptr' = if same_char (get_or bytes i 0) (get_or password ptr 0) then ptr + 1 else 0 in
    let rest = scan password bytes (i + 1) k ptr' in if ptr' == length password then true else rest

pub check_for_password : MassStorage → List ℕ → MassStorage
check_for_password s bytes =
    if s.inband_block_writes
    then (if scan s.unblock_password bytes 0 (block_size - length s.unblock_password) 0
        then record s { inband_block_writes = false }
        else s)
    else (if scan s.block_password bytes 0 (block_size - length s.block_password) 0
        then record s { inband_block_writes = true }
        else s)

has_signature : Packet → ℕ → ℕ → Bool
has_signature p len last =
    p.w_length == len
    && (get_or p.data_bytes 0 0 == 0x55
        && (get_or p.data_bytes 1 0 == 0x53
            && (get_or p.data_bytes 2 0 == 0x42 && get_or p.data_bytes 3 0 == last)))

-- The type of a packet: a command or status wrapper by its length and signature, data by its
-- length.
pub packet_type : MassStorage → Packet → Phase
unfolding has_signature
packet_type s p =
    if has_signature p 13 0x53
    then status
    else if has_signature p 31 0x43
    then command
    else if ltb 64 p.w_length
    then s.state
    else unknown

-- `block_offset + base_address` on `__u32`.
abbrev pub address : MassStorage → ℕ
address s = (s.block_offset + s.base_address) % 2 ^ 32

-- The fields of a READ(10) or WRITE(10) command block.
abbrev pub command_blocks : List ℕ → ℕ
command_blocks bytes = get_or bytes 0x16 0 * 256 + get_or bytes 0x17 0

abbrev command_address : List ℕ → ℕ
command_address bytes =
    get_or bytes 0x11 0 * 2 ^ 24
    + get_or bytes 0x12 0 * 2 ^ 16
    + get_or bytes 0x13 0 * 2 ^ 8
    + get_or bytes 0x14 0

abbrev pub command_tag : List ℕ → List ℕ
command_tag bytes = get_or bytes 4 0 ∷ get_or bytes 5 0 ∷ get_or bytes 6 0 ∷ get_or bytes 7 0 ∷ []

pub on_command : MassStorage → Packet → MassStorage × Packet
on_command s p =
    let bytes = p.data_bytes in
    if get_or bytes 0x0f 0 == 0x28
    then (
      record s {
        state = read;
        block_count = command_blocks bytes;
        base_address = command_address bytes;
        block_offset = 0;
      },
      p,
    )
    else if get_or bytes 0x0f 0 == 0x2a
    then (let blocked = if s.inband_signalling then s.inband_block_writes else s.block_writes in
        (
          record s {
            state = write;
            block_writes = blocked;
            tag = command_tag bytes;
            block_count = command_blocks bytes;
            base_address = command_address bytes;
            block_offset = 0;
          },
          if blocked then record p { transmit = false } else p,
        ))
    else (s, p)

-- The part of the WRITE case behind `if(block_writes)`.
count_block : MassStorage → MassStorage
count_block s =
    let next = (s.block_offset + 1) % 2 ^ 32 in
    let s' = record s { block_offset = next } in
    if next == s.block_count then queue_packet s' else s'

pub on_write : MassStorage → Packet → MassStorage × Packet
unfolding count_block
on_write s p =
    let s1 =
      if s.cache_blocks
      then record s { block_cache = cache_write s.block_cache (address s) p.data_bytes }
      else s in
    let s2 = if s.inband_signalling then check_for_password s1 p.data_bytes else s1 in
    if s2.block_writes then (count_block s2, record p { transmit = false }) else (s2, p)

pub on_read : MassStorage → Packet → MassStorage × Packet
on_read s p =
    let next = (s.block_offset + 1) % 2 ^ 32 in
    if s.cache_blocks
    then (let (cache, bytes) = cache_read s.block_cache (address s) p.data_bytes in
        (record s { block_cache = cache; block_offset = next }, record p { data_bytes = bytes }))
    else (record s { block_offset = next }, p)

-- The `switch` of `filter_packet`.
on_type : Phase → MassStorage → Packet → MassStorage × Packet
on_type command s p = on_command s p
on_type write s p = on_write s p
on_type read s p = on_read s p
on_type status s p = (record s { state = idle }, p)
on_type idle s p = (s, p)
on_type unknown s p = (s, p)

pub filter_packet : MassStorage → Packet → MassStorage × Packet
unfolding on_type
filter_packet s p = on_type (packet_type s p) s p

-- The packets of one connection in turn.
pub run : MassStorage → List Packet → MassStorage × List Packet
run s [] = (s, [])
run s (p ∷ ps) = let (s', p') = filter_packet s p in let (s'', ps') = run s' ps in (s'', p' ∷ ps')

-- The injector side: reads a tag and makes the status wrapper for it. `none`: `read` blocks.
pub get_packets : MassStorage → Option (MassStorage × Packet)
get_packets s = elim s.pipe [
  | [] ↦ none
  | tag ∷ rest ↦ some (
    record s { pipe = rest },
    new_packet 0x82
        (0x55
          ∷ 0x53
          ∷ 0x42
          ∷ 0x53
          ∷ get_or tag 0 0
          ∷ get_or tag 1 0
          ∷ get_or tag 2 0
          ∷ get_or tag 3 0
          ∷ 0
          ∷ 0
          ∷ 0
          ∷ 0
          ∷ 0
          ∷ [])
        13 true,
  )
]

-- ===== src/Filters/MassStorage/Tests.antt =====
-- The mass storage filter at short command and data packets.
use usbproxy_legacy.Prelude.{
  ℕ, zero, suc, ◌<◌, ◌≡◌, ◌⊎◌, refl, true, false, some, List, [], ◌∷◌, ◌++◌, get_or, replicate,
  length, arith,
}
use usbproxy_legacy.Packet.{Packet}
use usbproxy_legacy.Filters.MassStorage.{
  MassStorage, idle, read, write, find_block, store_block, cache_write, scan, check_for_password,
  same_char, packet_type, has_signature, on_write, on_type, count_block, filter_packet, run,
}
use usbproxy_legacy.Filters.MassStorage.Cache.{read_your_writes}
use usbproxy_legacy.Filters.MassStorage.Password.{Occurs, check_for_password-Occurs}
use usbproxy_legacy.Filters.MassStorage.Blocking.{IsWriteCommand, blocked_write}

abbrev packet : List ℕ → ℕ → Packet
packet bytes len = record {
  b_endpoint = 1;
  w_length = len;
  filter = true;
  transmit = true;
  data_bytes = bytes;
}

-- WRITE(10) of `n` blocks at address 0x01000203, tag 9 8 7 6.
abbrev write_command : ℕ → Packet
write_command n =
    packet
      (0x55 ∷ 0x53 ∷ 0x42 ∷ 0x43 ∷ 9 ∷ 8 ∷ 7 ∷ 6 ∷ replicate 7 0
        ++ (0x2a ∷ 0 ∷ 1 ∷ 0 ∷ 2 ∷ 3 ∷ 0 ∷ 0 ∷ n ∷ []))
      31

abbrev block : ℕ → Packet
block b = packet (replicate 512 b) 512

abbrev start : MassStorage
start = record {
  state = idle;
  tag = [];
  pipe = [];
  block_writes = true;
  cache_blocks = true;
  inband_signalling = false;
  inband_block_writes = true;
  unblock_password = b'o' ∷ b'k' ∷ [];
  block_password = b'n' ∷ b'o' ∷ [];
  block_count = 0;
  block_offset = 0;
  base_address = 0;
  block_cache = [];
}

abbrev writing : MassStorage
writing = record start { state = write; block_count = 2; base_address = 5 }

abbrev reading : MassStorage
reading = record writing { state = read; block_cache = (5, replicate 512 1) ∷ [] }

is_command : IsWriteCommand (write_command 2) 2
is_command = omega arith

blocked_write_example : length (run start (write_command 2 ∷ block 1 ∷ block 2 ∷ [])).0.pipe ≡ 1
blocked_write_example =
    (blocked_write start (write_command 2) (block 1) (block 2 ∷ []) refl refl refl is_command
      (omega arith) (omega arith)).1

block_is_data : packet_type writing (block 1) ≡ write
unfolding packet_type has_signature
block_is_data = refl

read_is_data : packet_type reading (block 7) ≡ read
unfolding packet_type has_signature
read_is_data = refl

cached_by_write : reading.block_cache ≡ (filter_packet writing (block 1)).0.block_cache
unfolding filter_packet on_type packet_type has_signature on_write count_block cache_write
    store_block
cached_by_write = refl

read_your_writes_example : (filter_packet reading (block 7)).1.data_bytes ≡ replicate 512 1 ++ []
read_your_writes_example =
    read_your_writes writing reading (block 1) (block 7) refl refl block_is_data read_is_data
      cached_by_write refl

held : find_block 5 reading.block_cache ≡ some (replicate 512 1)
unfolding find_block
held = refl

passing : MassStorage
passing = record writing { block_writes = false }

passing_is_data : packet_type passing (block 1) ≡ write
unfolding packet_type has_signature passing
passing_is_data = refl

unblocked_writes_collide :
    (run passing (block 1 ∷ block 2 ∷ [])).0.block_cache ≡ (5, replicate 512 2) ∷ []
unfolding run filter_packet on_type packet_type has_signature on_write cache_write store_block
    passing
unblocked_writes_collide = refl

password_block : List ℕ
password_block = 0 ∷ b'o' ∷ b'k' ∷ replicate 509 0

check_for_password-Occurs_example :
    ((check_for_password start password_block).inband_block_writes ≡ true)
    ⊎ Occurs (b'o' ∷ b'k' ∷ []) password_block
check_for_password-Occurs_example =
    check_for_password-Occurs start password_block (omega arith) (omega arith) (omega arith)
      (omega arith)

password_found : (check_for_password start password_block).inband_block_writes ≡ false
unfolding check_for_password scan same_char password_block
password_found = refl

abbrev late : List ℕ → List ℕ
late tail = replicate 510 0 ++ tail

late_same :
    (n j : ℕ) (xs ys : List ℕ)
    → j < n
    → get_or (replicate n 0 ++ xs) j 0 ≡ get_or (replicate n 0 ++ ys) j 0
late_same zero j xs ys h = absurd (omega arith)
late_same (suc n) zero xs ys h = refl
late_same (suc n) (suc j) xs ys h = late_same n j xs ys (omega arith)

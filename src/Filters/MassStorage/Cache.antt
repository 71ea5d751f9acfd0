-- ===== src/Filters/MassStorage/Cache.antt =====
-- The block cache of src/Plugins/Filters/PacketFilter_MassStorage.cpp.
use usbproxy_legacy.Prelude.{
  ℕ, ◌≡◌, ◌≢◌, ◌⊎◌, inl, inr, refl, true, false, some, List, [], ◌∷◌, ◌++◌, ◌==◌, if◌then◌else◌,
  take, drop, arith,
}
use usbproxy_legacy.Packet.{Packet}
use usbproxy_legacy.Filters.MassStorage.{
  MassStorage, Phase, idle, command, read, write, status, unknown, block_size, find_block,
  store_block, cache_read, cache_write, address, queue_packet, count_block, on_command, on_write,
  on_read, on_type, packet_type, filter_packet, check_for_password,
}

find-store :
    (a b : ℕ) (block : List ℕ) (cache : List (ℕ × List ℕ))
    → find_block b (store_block a block cache) ≡ (if a == b then some block else find_block b cache)
unfolding find_block store_block
find-store a b block [] = refl
find-store a b block ((c, old) ∷ rest) = ground (arith, find-store a b block rest)

-- The password search and the count of blocked blocks leave the cache alone.
cache-check :
    (s : MassStorage) (bytes : List ℕ) → (check_for_password s bytes).block_cache ≡ s.block_cache
unfolding check_for_password
cache-check s bytes = ground arith

cache-count : (s : MassStorage) → (count_block s).block_cache ≡ s.block_cache
unfolding count_block queue_packet
cache-count s = ground arith

cache-on_write :
    (s : MassStorage) (p : Packet)
    → (on_write s p).0.block_cache ≡ (
        if s.cache_blocks
        then cache_write s.block_cache (address s) p.data_bytes
        else s.block_cache)
unfolding on_write
cache-on_write s p =
    let s1 : MassStorage =
      if s.cache_blocks
      then record s { block_cache = cache_write s.block_cache (address s) p.data_bytes }
      else s in
    let s2 : MassStorage = if s.inband_signalling then check_for_password s1 p.data_bytes else s1 in
    ground (arith, cache-check s1 p.data_bytes, cache-count s2)

on_read-hit :
    (t : MassStorage) (q : Packet) (block : List ℕ)
    → t.cache_blocks ≡ true
    → find_block (address t) t.block_cache ≡ some block
    → (on_read t q).1.data_bytes ≡ block ++ drop block_size q.data_bytes
unfolding on_read cache_read
on_read-hit t q block on hit = ground arith

find-on_write :
    (s : MassStorage) (p : Packet)
    → s.cache_blocks ≡ true
    → find_block (address s) (on_write s p).0.block_cache ≡ some (take block_size p.data_bytes)
unfolding cache_write
find-on_write s p on = ground (
  arith,
  cache-on_write s p,
  find-store (address s) (address s) (take block_size p.data_bytes) s.block_cache,
)

-- What a block write caches is what a later read of the same address delivers, whatever the device
-- answers: while `cache_blocks` is on, a data packet of a WRITE stores its first 512 bytes, and a
-- data packet of a READ at that address, with that cache, leaves the filter with those bytes in
-- place of its own.
pub read_your_writes :
    (s t : MassStorage) (p q : Packet)
    → s.cache_blocks ≡ true
    → t.cache_blocks ≡ true
    → packet_type s p ≡ write
    → packet_type t q ≡ read
    → t.block_cache ≡ (filter_packet s p).0.block_cache
    → address t ≡ address s
    → (filter_packet t q).1.data_bytes
      ≡ take block_size p.data_bytes ++ drop block_size q.data_bytes
unfolding filter_packet on_type
read_your_writes s t p q cs ct ws rt cache place =
    let stored : t.block_cache ≡ (on_write s p).0.block_cache = rw (ws, on_type) at cache in
    let hit : find_block (address t) t.block_cache ≡ some (take block_size p.data_bytes) =
      rw (place, stored) (find-on_write s p cs) in
    rw (rt, on_type) (on_read-hit t q (take block_size p.data_bytes) ct hit)

find-on_read :
    (s : MassStorage) (p : Packet) (a : ℕ) (block : List ℕ)
    → find_block a s.block_cache ≡ some block
    → find_block a (on_read s p).0.block_cache ≡ some block
unfolding on_read cache_read
find-on_read s p a block held =
    ground (arith, find-store (address s) a (take block_size p.data_bytes) s.block_cache)

find-on_write_elsewhere :
    (s : MassStorage) (p : Packet) (a : ℕ) (block : List ℕ)
    → find_block a s.block_cache ≡ some block
    → address s ≢ a
    → find_block a (on_write s p).0.block_cache ≡ some block
unfolding cache_write
find-on_write_elsewhere s p a block held other = ground (
  arith,
  cache-on_write s p,
  find-store (address s) a (take block_size p.data_bytes) s.block_cache,
)

cache-on_command : (s : MassStorage) (p : Packet) → (on_command s p).0.block_cache ≡ s.block_cache
unfolding on_command
cache-on_command s p = ground arith

find-on_type :
    (ty : Phase) (s : MassStorage) (p : Packet) (a : ℕ) (block : List ℕ)
    → find_block a s.block_cache ≡ some block
    → (ty ≢ write) ⊎ (address s ≢ a)
    → find_block a (on_type ty s p).0.block_cache ≡ some block
unfolding on_type
find-on_type idle s p a block held other = held
find-on_type command s p a block held other = rw (cache-on_command s p) held
find-on_type read s p a block held other = find-on_read s p a block held
find-on_type write s p a block held (inl no_write) = absurd (no_write refl)
find-on_type write s p a block held (inr elsewhere) =
    find-on_write_elsewhere s p a block held elsewhere
find-on_type status s p a block held other = held
find-on_type unknown s p a block held other = held

-- A cached block changes only by a write to its own address: every other packet leaves it.
pub find_block-filter_packet :
    (s : MassStorage) (p : Packet) (a : ℕ) (block : List ℕ)
    → find_block a s.block_cache ≡ some block
    → (packet_type s p ≢ write) ⊎ (address s ≢ a)
    → find_block a (filter_packet s p).0.block_cache ≡ some block
unfolding filter_packet
find_block-filter_packet s p a block held other =
    find-on_type (packet_type s p) s p a block held other

-- The address does not advance while writes pass through: with `block_writes` and in-band
-- signalling off and the cache on, the data packet of a WRITE leaves `block_offset` as it is, and
-- stores its block at the address of every packet of that command, `block_offset + base_address`.
unblocked_write_overwrites :
    (s : MassStorage) (p : Packet)
    → s.cache_blocks ≡ true
    → s.block_writes ≡ false
    → s.inband_signalling ≡ false
    → packet_type s p ≡ write
    → (address (filter_packet s p).0 ≡ address s)
      × (find_block (address s) (filter_packet s p).0.block_cache
          ≡ some (take block_size p.data_bytes))
      × ((filter_packet s p).0.state ≡ s.state)
      × ((filter_packet s p).1 ≡ p)
unfolding filter_packet
unblocked_write_overwrites s p cs bw inb ws =
    let kept : ((on_write s p).0.block_offset ≡ s.block_offset)
        × ((on_write s p).0.base_address ≡ s.base_address)
        × ((on_write s p).0.state ≡ s.state)
        × ((on_write s p).1 ≡ p) =
      unfold on_write in ground arith in
    let stored = find-on_write s p cs in
    rw (ws, on_type) (ground (arith, kept), stored, kept.2, kept.3)

-- ===== src/Filters/Rot13.antt =====
-- src/Plugins/Filters/PacketFilter_ROT13.cpp: rotates the letters of a boot-protocol keyboard
-- report.
mod Tests
use native.Mathlib.Decide.{ℕ_discrete}
use usbproxy_legacy.Prelude.{
  ℕ, zero, suc, ◌+◌, ◌-◌, ◌≤◌, ◌<◌, ◌≡◌, refl, ap, ◌∙◌, ◌⊎◌, inl, inr, ◌&&◌, List, leb, Bool-cases,
  if◌then◌else◌, get_or, set, length, length-set, get_or-set_self, get_or-set_ne, arith,
}
use usbproxy_legacy.Packet.{Packet}

-- The change of one byte. `data[i] + 13` stays below 256, as `data[i]` is at most 0x10.
pub rotate : ℕ → ℕ
rotate b = if leb b 0x1d && leb 0x04 b then (if leb b 0x10 then b + 13 else b - 13) else b

-- The loop over the buffer from index `i`, with `k` rounds to go.
rotate_from : List ℕ → ℕ → ℕ → List ℕ
rotate_from bytes i zero = bytes
rotate_from bytes i (suc k) = rotate_from (set bytes i (rotate (get_or bytes i 0))) (i + 1) k

pub filter_packet : Packet → Packet
filter_packet p = record p { data_bytes = rotate_from p.data_bytes 2 6 }

rotate-rotate : (b : ℕ) → rotate (rotate b) ≡ b
unfolding rotate
rotate-rotate b = ground arith

length-rotate_from : (bytes : List ℕ) (i k : ℕ) → length (rotate_from bytes i k) ≡ length bytes
unfolding rotate_from
length-rotate_from bytes i zero = refl
length-rotate_from bytes i (suc k) = omega (
  arith,
  length-rotate_from (set bytes i (rotate (get_or bytes i 0))) (i + 1) k,
  length-set bytes i (rotate (get_or bytes i 0)),
)

get_or-rotate_from_outside :
    (bytes : List ℕ) (i k j : ℕ)
    → (j < i) ⊎ (i + k ≤ j)
    → get_or (rotate_from bytes i k) j 0 ≡ get_or bytes j 0
unfolding rotate_from
get_or-rotate_from_outside bytes i zero j h = refl
get_or-rotate_from_outside bytes i (suc k) j h =
    get_or-rotate_from_outside (set bytes i (rotate (get_or bytes i 0))) (i + 1) k j (omega arith)
    ∙ get_or-set_ne bytes i j (rotate (get_or bytes i 0)) 0 (omega arith)

get_or-rotate_from :
    (bytes : List ℕ) (i k j : ℕ)
    → i ≤ j
    → j < i + k
    → i + k ≤ length bytes
    → get_or (rotate_from bytes i k) j 0 ≡ rotate (get_or bytes j 0)
unfolding rotate_from
get_or-rotate_from bytes i zero j a b n = absurd (omega arith)
get_or-rotate_from bytes i (suc k) j a b n = elim (ℕ_discrete i j) [
  | yes e ↦ rw (← e) (
      get_or-rotate_from_outside (set bytes i (rotate (get_or bytes i 0))) (i + 1) k i (omega arith)
      ∙ get_or-set_self bytes i (rotate (get_or bytes i 0)) 0 (omega arith))
  | no e ↦
      get_or-rotate_from (set bytes i (rotate (get_or bytes i 0))) (i + 1) k j (omega arith)
        (omega arith) (omega (arith, length-set bytes i (rotate (get_or bytes i 0))))
      ∙ ap rotate (get_or-set_ne bytes i j (rotate (get_or bytes i 0)) 0 e)
]

rotates-key_code :
    (bytes : List ℕ) (j : ℕ)
    → 8 ≤ length bytes
    → get_or (rotate_from bytes 2 6) j 0
      ≡ (if leb 2 j && leb j 7 then rotate (get_or bytes j 0) else get_or bytes j 0)
rotates-key_code bytes j h = elim (Bool-cases (leb 2 j && leb j 7)) [
  | inl e ↦ rw e (get_or-rotate_from bytes 2 6 j (ground arith) (ground arith) h)
  | inr e ↦ rw e (get_or-rotate_from_outside bytes 2 6 j (ground arith))
]

-- On a report of at least eight bytes the filter rotates the six key codes, bytes 2 to 7, and
-- leaves every other byte and the length of the buffer alone.
pub filter_packet_bytes :
    (p : Packet) (j : ℕ)
    → 8 ≤ length p.data_bytes
    → (length (filter_packet p).data_bytes ≡ length p.data_bytes)
      × (get_or (filter_packet p).data_bytes j 0 ≡ (
          if leb 2 j && leb j 7 then rotate (get_or p.data_bytes j 0) else get_or p.data_bytes j 0))
unfolding filter_packet
filter_packet_bytes p j h = (length-rotate_from p.data_bytes 2 6, rotates-key_code p.data_bytes j h)

-- Filtering twice gives every byte of such a report back, whatever the key codes are.
filter_packet_twice :
    (p : Packet) (j : ℕ)
    → 8 ≤ length p.data_bytes
    → get_or (filter_packet (filter_packet p)).data_bytes j 0 ≡ get_or p.data_bytes j 0
filter_packet_twice p j h =
    let once = filter_packet_bytes p j h in
    let twice = filter_packet_bytes (filter_packet p) j (omega (arith, once.0)) in
    ground (arith, once.1, twice.1, rotate-rotate (get_or p.data_bytes j 0))

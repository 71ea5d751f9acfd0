-- ===== src/Filters/MassStorage/Password.antt =====
-- The in-band password search of src/Plugins/Filters/PacketFilter_MassStorage.cpp.
use usbproxy_legacy.Prelude.{
  ℕ, zero, suc, ◌+◌, ◌-◌, ◌≤◌, ◌<◌, ◌≡◌, ◌⊎◌, inl, inr, refl, true, List, ◌==◌, Bool-cases,
  if◌then◌else◌, get_or, length, arith,
}
use usbproxy_legacy.Filters.MassStorage.{
  MassStorage, block_size, same_char, scan, check_for_password,
}

-- The password stands in the bytes from offset `start` on, within the part that is searched.
pub record OccursAt (password bytes : List ℕ) (start : ℕ) : Type 0 where
  pub inside : start + length password ≤ block_size - length password
  pub same : (j : ℕ) → j < length password → get_or bytes (start + j) 0 ≡ get_or password j 0

abbrev pub Occurs : List ℕ → List ℕ → Type 0
Occurs password bytes = (start : ℕ) × OccursAt password bytes start

module _ (password bytes : List ℕ) where
  -- `ptr` characters of the password stand just before index `i`.
  abbrev Matched : ℕ → ℕ → Type 0
  Matched start ptr = (j : ℕ) → j < ptr → get_or bytes (start + j) 0 ≡ get_or password j 0

  Matched-suc :
      (start ptr : ℕ)
      → Matched start ptr
      → get_or bytes (start + ptr) 0 ≡ get_or password ptr 0
      → Matched start (ptr + 1)
  Matched-suc start ptr m e j h = elim (Bool-cases (j == ptr)) [
    | inl here ↦ let at : j ≡ ptr = ground arith in rw at e
    | inr before ↦ m j (ground arith)
  ]

  scan_sound :
      (k i start ptr : ℕ)
      → i ≡ start + ptr
      → ptr < length password
      → i + k ≤ block_size - length password
      → Matched start ptr
      → scan password bytes i k ptr ≡ true
      → Occurs password bytes
  unfolding scan same_char
  scan_sound zero i start ptr at p room m h = cc
  scan_sound (suc k) i start ptr at p room m h =
      elim (Bool-cases (same_char (get_or bytes i 0) (get_or password ptr 0))) [
        | inl hit ↦
            let e : get_or bytes (start + ptr) 0 ≡ get_or password ptr 0 =
              rw (← at) (ground arith) in
            let longer : Matched start (ptr + 1) = Matched-suc start ptr m e in
            elim (Bool-cases (ptr + 1 == length password)) [
              | inl full ↦
                  let n : ptr + 1 ≡ length password = ground arith in
                  (start, record { inside = omega arith; same = λ j q. longer j (omega arith) })
              | inr more ↦
                  scan_sound k (i + 1) start (ptr + 1) (omega arith) (ground arith) (omega arith)
                    longer (ground arith)
            ]
        | inr miss ↦
            scan_sound k (i + 1) (i + 1) 0 (omega arith) (omega arith) (omega arith)
              (λ j q. absurd (omega arith)) (ground arith)
      ]

-- Write blocking changes by signalling only where a password says so: for passwords that are not
-- empty and no longer than a block, a call that changes the flag has found the password of that
-- direction in the part of the block that it searches.
pub check_for_password-Occurs :
    (s : MassStorage) (bytes : List ℕ)
    → 0 < length s.unblock_password
    → 0 < length s.block_password
    → length s.unblock_password ≤ block_size
    → length s.block_password ≤ block_size
    → ((check_for_password s bytes).inband_block_writes ≡ s.inband_block_writes)
      ⊎ Occurs (if s.inband_block_writes then s.unblock_password else s.block_password) bytes
unfolding check_for_password
check_for_password-Occurs s bytes u b ul bl = elim (Bool-cases s.inband_block_writes) [
  | inl on ↦
      elim (Bool-cases
        (scan s.unblock_password bytes 0 (block_size - length s.unblock_password) 0)) [
          | inl found ↦ inr (
              rw on (
                scan_sound s.unblock_password bytes (block_size - length s.unblock_password) 0 0 0
                  (omega arith) u (omega arith) (λ j q. absurd (omega arith)) found))
          | inr missed ↦ inl (ground arith)
        ]
  | inr off ↦
      elim (Bool-cases (scan s.block_password bytes 0 (block_size - length s.block_password) 0)) [
        | inl found ↦ inr (
            rw off (
              scan_sound s.block_password bytes (block_size - length s.block_password) 0 0 0
                (omega arith) b (omega arith) (λ j q. absurd (omega arith)) found))
        | inr missed ↦ inl (ground arith)
      ]
]

scan_prefix :
    (password xs ys : List ℕ) (k i ptr : ℕ)
    → ((j : ℕ) → j < i + k → get_or xs j 0 ≡ get_or ys j 0)
    → scan password xs i k ptr ≡ scan password ys i k ptr
unfolding scan
scan_prefix password xs ys zero i ptr same = refl
scan_prefix password xs ys (suc k) i ptr same =
    let here : get_or xs i 0 ≡ get_or ys i 0 = same i (omega arith) in
    let next : ℕ = if same_char (get_or ys i 0) (get_or password ptr 0) then ptr + 1 else 0 in
    rw (here, scan_prefix password xs ys k (i + 1) next (λ j h. same j (omega arith)))

-- The search does not reach the end of the block: two blocks that agree but for their last bytes,
-- as many as the password has, give the same result.
scan_ignores_tail :
    (password xs ys : List ℕ)
    → ((j : ℕ) → j < block_size - length password → get_or xs j 0 ≡ get_or ys j 0)
    → scan password xs 0 (block_size - length password) 0
      ≡ scan password ys 0 (block_size - length password) 0
scan_ignores_tail password xs ys same =
    scan_prefix password xs ys (block_size - length password) 0 0 (λ j h. same j (omega arith))

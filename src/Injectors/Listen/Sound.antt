-- ===== src/Injectors/Listen/Sound.antt =====
-- src/lib/Injector.cpp: the lists and the poll indices stay within each other.
use mathlib.Core.Path.{subst}
use usbproxy_legacy.Prelude.{
  ℕ, zero, suc, ◌%◌, ◌<◌, ◌≡◌, refl, sym, ◌∙◌, Bool, true, false, ◌||◌, some, List, [], ◌∷◌, ◌==◌,
  ltb, if◌then◌else◌, get_or, set, length, replicate, has_bits, All, length-append, length-set,
  arith,
}
use usbproxy_legacy.Packet.{Packet}
use usbproxy_legacy.Injectors.Listen.{Injector, index_of, new_entry, store}

-- A poll index is unset, or that of an entry.
abbrev pub in_range : ℕ → ℕ → Bool
in_range n k = k == 0 || ltb k n

abbrev pub InRange : ℕ → List ℕ → Type 0
InRange n ks = All (λ k. in_range n k ≡ true) ks

InRange-get_or : (n : ℕ) (ks : List ℕ) (j : ℕ) → InRange n ks → in_range n (get_or ks j 0) ≡ true
InRange-get_or n [] j h = refl
InRange-get_or n (k ∷ ks) zero h = h.0
InRange-get_or n (k ∷ ks) (suc j) h = InRange-get_or n ks j h.1

pub InRange-zeros : (n m : ℕ) → InRange n (replicate m 0)
InRange-zeros n zero = tt
InRange-zeros n (suc m) = (refl, InRange-zeros n m)

InRange-suc : (n : ℕ) (ks : List ℕ) → InRange n ks → InRange (suc n) ks
InRange-suc n [] h = tt
InRange-suc n (k ∷ ks) h =
    let first : in_range n k ≡ true = h.0 in (ground arith, InRange-suc n ks h.1)

InRange-set :
    (n : ℕ) (ks : List ℕ) (j v : ℕ) → in_range n v ≡ true → InRange n ks → InRange n (set ks j v)
InRange-set n [] j v hv h = tt
InRange-set n (k ∷ ks) zero v hv h = (hv, h.1)
InRange-set n (k ∷ ks) (suc j) v hv h = (h.0, InRange-set n ks j v hv h.1)

-- The lists have the same length, and the indices are those of entries.
pub record IsSound (i : Injector) : Type 0 where
  pub same_length : length i.poll_list ≡ length i.poll_buffer
  pub in_indices : InRange (length i.poll_buffer) i.in_poll_index
  pub out_indices : InRange (length i.poll_buffer) i.out_poll_index

pub IsSound-of_lengths :
    (i : Injector) (n : ℕ)
    → length i.poll_list ≡ n
    → length i.poll_buffer ≡ n
    → InRange n i.in_poll_index
    → InRange n i.out_poll_index
    → IsSound i
IsSound-of_lengths i n l b x y = record {
  same_length = l ∙ sym b;
  in_indices = subst (λ m. InRange m i.in_poll_index) (sym b) x;
  out_indices = subst (λ m. InRange m i.out_poll_index) (sym b) y;
}

InRange-if :
    (n : ℕ) (b : Bool) (ks ls : List ℕ)
    → InRange n ks
    → InRange n ls
    → InRange n (if b then ks else ls)
InRange-if n true ks ls x y = x
InRange-if n false ks ls x y = y

pub new_entry-IsSound :
    (garbage queue : ℕ) (p : Packet) (i : Injector)
    → IsSound i
    → IsSound (new_entry garbage queue p i)
unfolding new_entry
new_entry-IsSound garbage queue p i h =
    let n = length i.poll_buffer in
    let is_in = has_bits p.b_endpoint 0x80 in
    let at_end : in_range (suc n) (length i.poll_list) ≡ true = rw h.same_length (ground arith) in
    let xs = InRange-suc n i.in_poll_index h.in_indices in
    let ys = InRange-suc n i.out_poll_index h.out_indices in
    IsSound-of_lengths _ (suc n) (omega (arith, length-append i.poll_list (_ ∷ []), h.same_length))
      (omega (arith, length-append i.poll_buffer (some p ∷ [])))
      (InRange-if (suc n) is_in _ _
        (InRange-set (suc n) i.in_poll_index (p.b_endpoint % 16) (length i.poll_list) at_end xs) xs)
      (InRange-if (suc n) is_in _ _ ys
        (InRange-set (suc n) i.out_poll_index (p.b_endpoint % 16) (length i.poll_list) at_end ys))

pub store-IsSound : (k : ℕ) (p : Packet) (i : Injector) → IsSound i → IsSound (store k p i)
unfolding store
store-IsSound k p i h =
    IsSound-of_lengths _ (length i.poll_buffer) (length-set i.poll_list k _ ∙ h.same_length)
      (length-set i.poll_buffer k (some p)) h.in_indices h.out_indices

pub index_of-lt :
    (i : Injector) (ep : ℕ)
    → IsSound i
    → (index_of i ep == 0) ≡ false
    → index_of i ep < length i.poll_buffer
index_of-lt i ep h nz =
    let n = length i.poll_buffer in
    let ks = if has_bits ep 0x80 then i.in_poll_index else i.out_poll_index in
    let x : in_range n (get_or ks (ep % 16) 0) ≡ true =
      InRange-get_or n ks (ep % 16)
        (InRange-if n (has_bits ep 0x80) _ _ h.in_indices h.out_indices) in
    ground arith

-- ===== src/Injectors/Listen/Flushing.antt =====
-- src/lib/Injector.cpp: what leaves the buffer when the loop visits the entries of the queues.
use usbproxy_legacy.Prelude.{
  ℕ, zero, suc, ◌+◌, ◌≡◌, refl, ap, Option, none, some, List, [], ◌∷◌, length, has_bits, inl, inr,
  Bool-cases, arith,
}
use usbproxy_legacy.Packet.{Packet}
use usbproxy_legacy.Injectors.Listen.{PollFd, Effect, flush_one, flush_all, pollout}
use usbproxy_legacy.Injectors.Listen.Counts.{held, outgoing, outgoing-append}

flush_one-held :
    (f : PollFd) (b : Option Packet)
    → held ((flush_one f b).1 ∷ []) + outgoing (flush_one f b).2 ≡ held (b ∷ [])
unfolding flush_one
flush_one-held f none = elim (Bool-cases (has_bits f.revents pollout)) [
  | inl e ↦ rw e (omega arith)
  | inr e ↦ rw e (omega arith)
]
flush_one-held f (some p) = elim (Bool-cases (has_bits f.revents pollout)) [
  | inl e ↦ rw e (omega arith)
  | inr e ↦ rw e (omega arith)
]

held-cons :
    (b : Option Packet) (bs : List (Option Packet)) → held (b ∷ bs) ≡ held (b ∷ []) + held bs
held-cons none bs = omega arith
held-cons (some p) bs = omega arith

-- A part of the lists of a flush, with what it sends.
pub record Flushed (fs : List PollFd) (bs : List (Option Packet))
    (r : List PollFd × List (Option Packet) × List Effect) : Type 0 where
  pub fs_length : length r.0 ≡ length fs
  pub bs_length : length r.1 ≡ length bs
  pub balance : held r.1 + outgoing r.2 ≡ held bs

pub flush_all-Flushed :
    (n : ℕ) (fs : List PollFd) (bs : List (Option Packet)) → Flushed fs bs (flush_all n fs bs)
unfolding flush_all
flush_all-Flushed n [] bs = record { fs_length = refl; bs_length = refl; balance = omega arith }
flush_all-Flushed n (f ∷ fs) [] = record {
  fs_length = refl;
  bs_length = refl;
  balance = omega arith;
}
flush_all-Flushed (suc n) (f ∷ fs) (b ∷ bs) =
    let rest = flush_all-Flushed n fs bs in
    record {
      fs_length = ap suc rest.fs_length;
      bs_length = ap suc rest.bs_length;
      balance = omega (arith, held-cons b (flush_all n fs bs).1, held-cons b bs, rest.balance);
    }
flush_all-Flushed zero (f ∷ fs) (b ∷ bs) =
    let rest = flush_all-Flushed zero fs bs in
    let one = flush_one f b in
    let more = flush_all zero fs bs in
    record {
      fs_length = ap suc rest.fs_length;
      bs_length = ap suc rest.bs_length;
      balance = omega (
        arith,
        held-cons one.1 more.1,
        held-cons b bs,
        outgoing-append one.2 more.2,
        flush_one-held f b,
        rest.balance,
      );
    }

-- ===== src/Injectors/Listen/Counts.antt =====
-- src/lib/Injector.cpp: the numbers of packets in the buffer, in the input and in the effects.
use usbproxy_legacy.Prelude.{
  ℕ, zero, suc, ◌+◌, ◌<◌, ◌≡◌, refl, ap, false, Option, none, some, List, [], ◌∷◌, ◌++◌, get_or,
  set, length, is_given, arith,
}
use usbproxy_legacy.Packet.{Packet}
use usbproxy_legacy.Injectors.Listen.{
  Effect, sent, flushed, kicked, sent_setup, kicked_setup, replied, acked, stalled, Arrival,
  nothing, a_packet, a_setup,
}

-- The packets in the buffer.
abbrev pub held : List (Option Packet) → ℕ
held [] = 0
held (none ∷ bs) = held bs
held (some p ∷ bs) = suc (held bs)

-- The packets that have left: sent, sent from the buffer, or given back.
abbrev pub outgoing : List Effect → ℕ
outgoing [] = 0
outgoing (sent q p ∷ es) = suc (outgoing es)
outgoing (flushed q p ∷ es) = suc (outgoing es)
outgoing (kicked p ∷ es) = suc (outgoing es)
outgoing (sent_setup q s ∷ es) = outgoing es
outgoing (kicked_setup s ∷ es) = outgoing es
outgoing (replied s ∷ es) = outgoing es
outgoing (acked s ∷ es) = outgoing es
outgoing (stalled s ∷ es) = outgoing es

-- The packets that get_packets gives.
abbrev pub incoming : List Arrival → ℕ
incoming [] = 0
incoming (nothing ∷ arrivals) = incoming arrivals
incoming (a_packet w p ∷ arrivals) = suc (incoming arrivals)
incoming (a_setup w s ∷ arrivals) = incoming arrivals

pub outgoing-append : (es fs : List Effect) → outgoing (es ++ fs) ≡ outgoing es + outgoing fs
outgoing-append [] fs = omega arith
outgoing-append (sent q p ∷ es) fs = omega (arith, outgoing-append es fs)
outgoing-append (flushed q p ∷ es) fs = omega (arith, outgoing-append es fs)
outgoing-append (kicked p ∷ es) fs = omega (arith, outgoing-append es fs)
outgoing-append (sent_setup q s ∷ es) fs = outgoing-append es fs
outgoing-append (kicked_setup s ∷ es) fs = outgoing-append es fs
outgoing-append (replied s ∷ es) fs = outgoing-append es fs
outgoing-append (acked s ∷ es) fs = outgoing-append es fs
outgoing-append (stalled s ∷ es) fs = outgoing-append es fs

pub held-append :
    (bs : List (Option Packet)) (p : Packet) → held (bs ++ (some p ∷ [])) ≡ suc (held bs)
held-append [] p = refl
held-append (none ∷ bs) p = held-append bs p
held-append (some q ∷ bs) p = ap suc (held-append bs p)

pub held-set :
    (bs : List (Option Packet)) (k : ℕ) (p : Packet)
    → k < length bs
    → is_given (get_or bs k none) ≡ false
    → held (set bs k (some p)) ≡ suc (held bs)
held-set [] k p lt h = absurd (omega arith)
held-set (none ∷ bs) zero p lt h = refl
held-set (some q ∷ bs) zero p lt h = cc
held-set (none ∷ bs) (suc k) p lt h = held-set bs k p (omega arith) h
held-set (some q ∷ bs) (suc k) p lt h = ap suc (held-set bs k p (omega arith) h)

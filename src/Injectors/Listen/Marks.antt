-- ===== src/Injectors/Listen/Marks.antt =====
-- src/lib/Injector.cpp: when the loop waits for the reply to a request.
use usbproxy_legacy.Prelude.{
  ℕ, zero, suc, ◌≡◌, refl, Bool, true, false, ◌||◌, Option, none, some, List, [], ◌∷◌, ◌++◌,
  if◌then◌else◌, has_bits, Bool-cases, inl, inr, arith,
}
use usbproxy_legacy.Packet.{Packet, SetupPacket}
use usbproxy_legacy.Injectors.Listen.{
  Injector, PollFd, Effect, sent, flushed, kicked, sent_setup, kicked_setup, replied, acked,
  stalled, new_entry, store, buffer, take_packet, take_setup, Arrival, nothing, a_packet, a_setup,
  take_arrival, take_arrivals, flush_one, flush_all, flush, Round, take_reply, reply_effects,
  poll_round, round, run, pollout,
}

-- Whether a request was sent, or given back to the plugin.
abbrev pub has_setup : List Effect → Bool
has_setup [] = false
has_setup (sent_setup q s ∷ es) = true
has_setup (kicked_setup s ∷ es) = true
has_setup (sent q p ∷ es) = has_setup es
has_setup (flushed q p ∷ es) = has_setup es
has_setup (kicked p ∷ es) = has_setup es
has_setup (replied s ∷ es) = has_setup es
has_setup (acked s ∷ es) = has_setup es
has_setup (stalled s ∷ es) = has_setup es

has_setup-append : (es fs : List Effect) → has_setup (es ++ fs) ≡ (has_setup es || has_setup fs)
has_setup-append [] fs = refl
has_setup-append (sent_setup q s ∷ es) fs = refl
has_setup-append (kicked_setup s ∷ es) fs = refl
has_setup-append (sent q p ∷ es) fs = has_setup-append es fs
has_setup-append (flushed q p ∷ es) fs = has_setup-append es fs
has_setup-append (kicked p ∷ es) fs = has_setup-append es fs
has_setup-append (replied s ∷ es) fs = has_setup-append es fs
has_setup-append (acked s ∷ es) fs = has_setup-append es fs
has_setup-append (stalled s ∷ es) fs = has_setup-append es fs

-- After such a step the loop waits exactly if it did before, or has injected a request.
unfoldable pub Marks : Injector → Injector × List Effect → Type 0
Marks i r = r.0.setup_wait ≡ (i.setup_wait || has_setup r.1)

Marks-join :
    (i : Injector) (r s : Injector × List Effect)
    → Marks i r
    → Marks r.0 s
    → Marks i (s.0, r.1 ++ s.1)
unfolding Marks
Marks-join i r s h k = ground (arith, has_setup-append r.1 s.1)

-- A step that leaves the flag, and injects no request.
Marks-same :
    (i : Injector) (r : Injector × List Effect)
    → r.0.setup_wait ≡ i.setup_wait
    → has_setup r.1 ≡ false
    → Marks i r
unfolding Marks
Marks-same i r h k = ground arith

take_packet-Marks :
    (garbage : ℕ) (w : Bool) (p : Packet) (i : Injector) → Marks i (take_packet garbage w p i)
unfolding Marks take_packet buffer new_entry store
take_packet-Marks garbage w p i = ground arith

take_setup-Marks : (w : Bool) (s : SetupPacket) (i : Injector) → Marks i (take_setup w s i)
unfolding Marks take_setup
take_setup-Marks w s i = ground arith

take_arrivals-Marks :
    (garbage : ℕ) (arrivals : List Arrival) (i : Injector)
    → Marks i (take_arrivals garbage arrivals i)
unfolding take_arrivals take_arrival
take_arrivals-Marks garbage [] i = Marks-same i (i, []) refl refl
take_arrivals-Marks garbage (nothing ∷ rest) i = take_arrivals-Marks garbage rest i
take_arrivals-Marks garbage (a_packet w p ∷ rest) i =
    Marks-join i (take_packet garbage w p i) _ (take_packet-Marks garbage w p i)
      (take_arrivals-Marks garbage rest (take_packet garbage w p i).0)
take_arrivals-Marks garbage (a_setup w s ∷ rest) i =
    Marks-join i (take_setup w s i) _ (take_setup-Marks w s i)
      (take_arrivals-Marks garbage rest (take_setup w s i).0)

flush_all-has_setup :
    (n : ℕ) (fs : List PollFd) (bs : List (Option Packet)) → has_setup (flush_all n fs bs).2 ≡ false
unfolding flush_all flush_one
flush_all-has_setup n [] bs = refl
flush_all-has_setup n (f ∷ fs) [] = refl
flush_all-has_setup (suc n) (f ∷ fs) (b ∷ bs) = flush_all-has_setup n fs bs
flush_all-has_setup zero (f ∷ fs) (none ∷ bs) = elim (Bool-cases (has_bits f.revents pollout)) [
  | inl e ↦ rw e (flush_all-has_setup zero fs bs)
  | inr e ↦ rw e (flush_all-has_setup zero fs bs)
]
flush_all-has_setup zero (f ∷ fs) (some p ∷ bs) = elim (Bool-cases (has_bits f.revents pollout)) [
  | inl e ↦ rw e (flush_all-has_setup zero fs bs)
  | inr e ↦ rw e (flush_all-has_setup zero fs bs)
]

flush-Marks : (i : Injector) → Marks i (flush i)
unfolding flush
flush-Marks i = Marks-same i _ refl (flush_all-has_setup i.pollreadcount i.poll_list i.poll_buffer)

has_setup-reply : (o : Option SetupPacket) → has_setup (reply_effects o) ≡ false
unfolding take_reply
has_setup-reply none = refl
has_setup-reply (some s) = ground arith

round_cases :
    (garbage : ℕ) (r : Round) (i : Injector) (waiting ready : Bool)
    → Marks i (
        if waiting
        then (i, reply_effects r.reply)
        else if ready
        then poll_round garbage r i
        else (i, []))
unfolding poll_round
round_cases garbage r i true ready = Marks-same i _ refl (has_setup-reply r.reply)
round_cases garbage r i false false = Marks-same i (i, []) refl refl
round_cases garbage r i false true =
    Marks-join i (flush i) _ (flush-Marks i) (take_arrivals-Marks garbage r.arrivals (flush i).0)

pub run-Marks : (garbage : ℕ) (rs : List Round) (i : Injector) → Marks i (run garbage rs i)
unfolding run round
run-Marks garbage [] i = Marks-same i (i, []) refl refl
run-Marks garbage (r ∷ rs) i =
    Marks-join i (round garbage r i) _ (round_cases garbage r i i.setup_wait r.ready)
      (run-Marks garbage rs (round garbage r i).0)

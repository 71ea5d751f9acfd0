-- ===== src/Injectors/Listen/Kept.antt =====
-- src/lib/Injector.cpp: what becomes of the packets that the loop takes.
use usbproxy_legacy.Prelude.{
  ℕ, suc, ◌+◌, ◌≡◌, refl, ◌∙◌, Bool, true, false, Option, none, some, List, [], ◌∷◌, ◌++◌, ◌==◌,
  ◌/=◌, if◌then◌else◌, get_or, length, is_given, inl, inr, Bool-cases, arith,
}
use usbproxy_legacy.Packet.{Packet, SetupPacket}
use usbproxy_legacy.Injectors.Listen.{
  Injector, run, Effect, sent, queue_of, index_of, new_entry, store, buffer, take_packet,
  take_setup, Arrival, nothing, a_packet, a_setup, take_arrival, take_arrivals, flush, Round, round,
  reply_effects, take_reply, poll_round,
}
use usbproxy_legacy.Injectors.Listen.Counts.{
  held, outgoing, incoming, outgoing-append, held-append, held-set,
}
use usbproxy_legacy.Injectors.Listen.Flushing.{flush_all-Flushed}
use usbproxy_legacy.Injectors.Listen.Sound.{
  IsSound, IsSound-of_lengths, new_entry-IsSound, store-IsSound, index_of-lt,
}

-- `n` packets more are held or have left.
record Kept (i : Injector) (n : ℕ) (r : Injector × List Effect) : Type 0 where
  sound : IsSound r.0
  balance : held r.0.poll_buffer + outgoing r.1 ≡ held i.poll_buffer + n

-- The packet is stored, or given back if the place is taken.
buffer-Kept :
    (garbage queue : ℕ) (p : Packet) (i : Injector)
    → IsSound i
    → Kept i 1 (buffer garbage queue p i)
unfolding buffer
buffer-Kept garbage queue p i h =
    let k = index_of i p.b_endpoint in
    elim (Bool-cases (k == 0)) [
      | inl z ↦ rw z (record {
        sound = new_entry-IsSound garbage queue p i h;
        balance = unfold new_entry in omega (arith, held-append i.poll_buffer p);
      })
      | inr z ↦ elim (Bool-cases (is_given (get_or i.poll_buffer k none))) [
        | inl g ↦ rw (z, g) (record { sound = h; balance = omega arith })
        | inr g ↦
            rw (z, g)
              (record {
                sound = store-IsSound k p i h;
                balance =
                    unfold store in
                    omega (arith, held-set i.poll_buffer k p (index_of-lt i p.b_endpoint h z) g);
              })
      ]
    ]

take_packet-Kept :
    (garbage : ℕ) (writable : Bool) (p : Packet) (i : Injector)
    → IsSound i
    → Kept i 1 (take_packet garbage writable p i)
unfolding take_packet
take_packet-Kept garbage writable p i h = elim (Bool-cases (queue_of i p.b_endpoint == 0)) [
  | inl z ↦ rw z (record { sound = h; balance = omega arith })
  | inr z ↦ rw z (sent_or_buffered writable)
]
  where
    sent_or_buffered :
        (w : Bool)
        → Kept i 1 (
            if w
            then (i, sent (queue_of i p.b_endpoint) p ∷ [])
            else buffer garbage (queue_of i p.b_endpoint) p i)
    sent_or_buffered true = record { sound = h; balance = omega arith }
    sent_or_buffered false = buffer-Kept garbage (queue_of i p.b_endpoint) p i h

take_setup-Kept :
    (writable : Bool) (s : SetupPacket) (i : Injector)
    → IsSound i
    → Kept i 0 (take_setup writable s i)
unfolding take_setup
take_setup-Kept writable s i h =
    let waiting =
      IsSound-of_lengths (record i { setup_wait = true }) (length i.poll_buffer) h.same_length refl
        h.in_indices h.out_indices in
    elim (Bool-cases (get_or i.out_queues 0 0 == 0)) [
      | inl z ↦ rw z (record { sound = waiting; balance = omega arith })
      | inr z ↦ elim (Bool-cases writable) [
        | inl w ↦ rw (z, w) (record { sound = waiting; balance = omega arith })
        | inr w ↦ rw (z, w) (record { sound = h; balance = omega arith })
      ]
    ]

-- What a step keeps, and then another.
Kept-join :
    (i : Injector) (m n total : ℕ) (r s : Injector × List Effect)
    → m + n ≡ total
    → Kept i m r
    → Kept r.0 n s
    → Kept i total (s.0, r.1 ++ s.1)
Kept-join i m n total r s e h k = record {
  sound = k.sound;
  balance = omega (arith, outgoing-append r.1 s.1, h.balance, k.balance);
}

take_arrivals-Kept :
    (garbage : ℕ) (arrivals : List Arrival) (i : Injector)
    → IsSound i
    → Kept i (incoming arrivals) (take_arrivals garbage arrivals i)
unfolding take_arrivals take_arrival
take_arrivals-Kept garbage [] i h = record { sound = h; balance = omega arith }
take_arrivals-Kept garbage (nothing ∷ rest) i h = take_arrivals-Kept garbage rest i h
take_arrivals-Kept garbage (a_packet w p ∷ rest) i h =
    let first = take_packet-Kept garbage w p i h in
    let more = take_arrivals-Kept garbage rest (take_packet garbage w p i).0 first.sound in
    Kept-join i 1 (incoming rest) (suc (incoming rest)) (take_packet garbage w p i) _ (omega arith)
      first more
take_arrivals-Kept garbage (a_setup w s ∷ rest) i h =
    let first = take_setup-Kept w s i h in
    let more = take_arrivals-Kept garbage rest (take_setup w s i).0 first.sound in
    Kept-join i 0 (incoming rest) (incoming rest) (take_setup w s i) _ (omega arith) first more

flush-Kept : (i : Injector) → IsSound i → Kept i 0 (flush i)
unfolding flush
flush-Kept i h =
    let r = flush_all-Flushed i.pollreadcount i.poll_list i.poll_buffer in
    record {
      sound =
          IsSound-of_lengths _ (length i.poll_buffer) (r.fs_length ∙ h.same_length) r.bs_length
            h.in_indices h.out_indices;
      balance = omega (arith, r.balance);
    }

-- The packets that the rounds take: none in a round that waits for a reply, or in which poll finds
-- nothing.
abbrev pub taken_in : Round → Injector → ℕ
taken_in r i = if i.setup_wait then 0 else if r.ready then incoming r.arrivals else 0

outgoing-reply : (o : Option SetupPacket) → outgoing (reply_effects o) ≡ 0
unfolding take_reply
outgoing-reply none = refl
outgoing-reply (some s) = elim (Bool-cases s.transmit_in) [
  | inl t ↦ elim (Bool-cases (s.ctrl_req.w_length /= 0)) [
    | inl w ↦ rw (t, w) refl
    | inr w ↦ rw (t, w) refl
  ]
  | inr t ↦ rw t refl
]

poll_round-Kept :
    (garbage : ℕ) (r : Round) (i : Injector)
    → IsSound i
    → Kept i (incoming r.arrivals) (poll_round garbage r i)
unfolding poll_round
poll_round-Kept garbage r i h =
    let first = flush-Kept i h in
    Kept-join i 0 (incoming r.arrivals) (incoming r.arrivals) (flush i) _ (omega arith) first
      (take_arrivals-Kept garbage r.arrivals (flush i).0 first.sound)

round_cases :
    (garbage : ℕ) (r : Round) (i : Injector) (waiting ready : Bool)
    → IsSound i
    → Kept i (if waiting then 0 else if ready then incoming r.arrivals else 0) (
        if waiting
        then (i, reply_effects r.reply)
        else if ready
        then poll_round garbage r i
        else (i, []))
round_cases garbage r i true ready h = record {
  sound = h;
  balance = omega (arith, outgoing-reply r.reply);
}
round_cases garbage r i false true h = poll_round-Kept garbage r i h
round_cases garbage r i false false h = record { sound = h; balance = omega arith }

round-Kept :
    (garbage : ℕ) (r : Round) (i : Injector) → IsSound i → Kept i (taken_in r i) (round garbage r i)
unfolding round
round-Kept garbage r i h = round_cases garbage r i i.setup_wait r.ready h

-- The packets that a run takes.
abbrev pub taken_run : ℕ → List Round → Injector → ℕ
taken_run garbage [] i = 0
taken_run garbage (r ∷ rs) i = taken_in r i + taken_run garbage rs (round garbage r i).0

run-Kept :
    (garbage : ℕ) (rs : List Round) (i : Injector)
    → IsSound i
    → Kept i (taken_run garbage rs i) (run garbage rs i)
unfolding run
run-Kept garbage [] i h = record { sound = h; balance = omega arith }
run-Kept garbage (r ∷ rs) i h =
    let first = round-Kept garbage r i h in
    Kept-join i (taken_in r i) (taken_run garbage rs (round garbage r i).0) _ (round garbage r i) _
      refl first (run-Kept garbage rs (round garbage r i).0 first.sound)

-- The packets balance, from a state whose lists fit each other: as many as were in the buffer and the
-- rounds take are sent on a queue, sent from the buffer, given back to the plugin, or still in the
-- buffer.
pub run-kept :
    (garbage : ℕ) (rs : List Round) (i : Injector)
    → IsSound i
    → held (run garbage rs i).0.poll_buffer + outgoing (run garbage rs i).1
      ≡ held i.poll_buffer + taken_run garbage rs i
run-kept garbage rs i h = (run-Kept garbage rs i h).balance

-- ===== src/Injectors/Listen/Stuck.antt =====
-- src/lib/Injector.cpp: the buffer of the loop is not emptied.
use usbproxy_legacy.Prelude.{
  ℕ, zero, suc, ◌≡◌, refl, ap, ◌∙◌, Bool, true, false, Option, none, some, List, [], ◌∷◌, ◌++◌,
  ◌==◌, if◌then◌else◌, get_or, set, has_bits, All, arith,
}
use usbproxy_legacy.Packet.{Packet, SetupPacket}
use usbproxy_legacy.Injectors.Listen.{
  Injector, PollFd, no_fd, waiting_fd, with_events, Effect, sent, flushed, kicked, sent_setup,
  kicked_setup, replied, acked, stalled, queue_of, index_of, new_entry, store, buffer, take_packet,
  take_setup, Arrival, nothing, a_packet, a_setup, take_arrival, take_arrivals, flush_one,
  flush_all, flush, Round, reply_effects, take_reply, poll_round, round, run, pollout,
}

-- How often a packet is sent from the buffer.
abbrev pub flushes : List Effect → ℕ
flushes [] = 0
flushes (flushed q p ∷ es) = suc (flushes es)
flushes (sent q p ∷ es) = flushes es
flushes (kicked p ∷ es) = flushes es
flushes (sent_setup q s ∷ es) = flushes es
flushes (kicked_setup s ∷ es) = flushes es
flushes (replied s ∷ es) = flushes es
flushes (acked s ∷ es) = flushes es
flushes (stalled s ∷ es) = flushes es

flushes-append : (es fs : List Effect) → flushes es ≡ 0 → flushes fs ≡ 0 → flushes (es ++ fs) ≡ 0
flushes-append [] fs a b = b
flushes-append (flushed q p ∷ es) fs a b = absurd (omega arith)
flushes-append (sent q p ∷ es) fs a b = flushes-append es fs a b
flushes-append (kicked p ∷ es) fs a b = flushes-append es fs a b
flushes-append (sent_setup q s ∷ es) fs a b = flushes-append es fs a b
flushes-append (kicked_setup s ∷ es) fs a b = flushes-append es fs a b
flushes-append (replied s ∷ es) fs a b = flushes-append es fs a b
flushes-append (acked s ∷ es) fs a b = flushes-append es fs a b
flushes-append (stalled s ∷ es) fs a b = flushes-append es fs a b

-- poll has not been told of a writable queue.
abbrev pub Quiet : List PollFd → Type 0
Quiet fs = All (λ f. has_bits f.revents pollout ≡ false) fs

Quiet-append :
    (fs : List PollFd) (f : PollFd)
    → Quiet fs
    → has_bits f.revents pollout ≡ false
    → Quiet (fs ++ (f ∷ []))
Quiet-append [] f h q = (q, tt)
Quiet-append (g ∷ fs) f h q = (h.0, Quiet-append fs f h.1 q)

Quiet-get_or :
    (fs : List PollFd) (k : ℕ) → Quiet fs → has_bits (get_or fs k no_fd).revents pollout ≡ false
Quiet-get_or [] k h = refl
Quiet-get_or (f ∷ fs) zero h = h.0
Quiet-get_or (f ∷ fs) (suc k) h = Quiet-get_or fs k h.1

Quiet-set :
    (fs : List PollFd) (k : ℕ) (f : PollFd)
    → Quiet fs
    → has_bits f.revents pollout ≡ false
    → Quiet (set fs k f)
Quiet-set [] k f h q = tt
Quiet-set (g ∷ fs) zero f h q = (q, h.1)
Quiet-set (g ∷ fs) (suc k) f h q = (h.0, Quiet-set fs k f h.1 q)

flush_one-quiet :
    (f : PollFd) (b : Option Packet)
    → has_bits f.revents pollout ≡ false
    → flush_one f b ≡ (f, b, [])
unfolding flush_one
flush_one-quiet f none h = rw h refl
flush_one-quiet f (some p) h = rw h refl

flush_all-quiet :
    (n : ℕ) (fs : List PollFd) (bs : List (Option Packet))
    → Quiet fs
    → flush_all n fs bs ≡ (fs, bs, [])
unfolding flush_all
flush_all-quiet n [] bs h = refl
flush_all-quiet n (f ∷ fs) [] h = refl
flush_all-quiet (suc n) (f ∷ fs) (b ∷ bs) h =
    ap (λ r. (f ∷ r.0, b ∷ r.1, r.2)) (flush_all-quiet n fs bs h.1)
flush_all-quiet zero (f ∷ fs) (b ∷ bs) h =
    ap
      (λ o. (
        o.0 ∷ (flush_all zero fs bs).0,
        o.1 ∷ (flush_all zero fs bs).1,
        o.2 ++ (flush_all zero fs bs).2,
      ))
      (flush_one-quiet f b h.0)
    ∙ ap (λ r. (f ∷ r.0, b ∷ r.1, r.2)) (flush_all-quiet zero fs bs h.1)

flush-quiet : (i : Injector) → Quiet i.poll_list → flush i ≡ (i, [])
unfolding flush
flush-quiet i h =
    ap (λ r. (record i { poll_list = r.0; poll_buffer = r.1 }, r.2))
      (flush_all-quiet i.pollreadcount i.poll_list i.poll_buffer h)

-- Nothing is sent from the buffer, and no queue has become writable.
record Still (r : Injector × List Effect) : Type 0 where
  quiet : Quiet r.0.poll_list
  none_flushed : flushes r.1 ≡ 0

module _ (garbage : ℕ) (no_bit : has_bits garbage pollout ≡ false) where
  store-Quiet :
      (k : ℕ) (p : Packet) (i : Injector) → Quiet i.poll_list → Quiet (store k p i).poll_list
  unfolding store
  store-Quiet k p i h =
      Quiet-set i.poll_list k (with_events (get_or i.poll_list k no_fd) pollout) h
        (Quiet-get_or i.poll_list k h)

  new_entry-Quiet :
      (queue : ℕ) (p : Packet) (i : Injector)
      → Quiet i.poll_list
      → Quiet (new_entry garbage queue p i).poll_list
  unfolding new_entry
  new_entry-Quiet queue p i h = Quiet-append i.poll_list (waiting_fd queue garbage) h no_bit

  buffer_cases :
      (queue : ℕ) (p : Packet) (i : Injector) (k : ℕ) (unset full : Bool)
      → Quiet i.poll_list
      → Still (
          if unset
          then (new_entry garbage queue p i, [])
          else if full
          then (i, kicked p ∷ [])
          else (store k p i, []))
  buffer_cases queue p i k true full h = record {
    quiet = new_entry-Quiet queue p i h;
    none_flushed = refl;
  }
  buffer_cases queue p i k false true h = record { quiet = h; none_flushed = refl }
  buffer_cases queue p i k false false h = record {
    quiet = store-Quiet k p i h;
    none_flushed = refl;
  }

  buffer-Still :
      (queue : ℕ) (p : Packet) (i : Injector) → Quiet i.poll_list → Still (buffer garbage queue p i)
  unfolding buffer
  buffer-Still queue p i h = buffer_cases queue p i (index_of i p.b_endpoint) _ _ h

  packet_cases :
      (queue : ℕ) (p : Packet) (i : Injector) (without writable : Bool)
      → Quiet i.poll_list
      → Still (
          if without
          then (i, kicked p ∷ [])
          else if writable
          then (i, sent queue p ∷ [])
          else buffer garbage queue p i)
  packet_cases queue p i true writable h = record { quiet = h; none_flushed = refl }
  packet_cases queue p i false true h = record { quiet = h; none_flushed = refl }
  packet_cases queue p i false false h = buffer-Still queue p i h

  setup_cases :
      (queue : ℕ) (s : SetupPacket) (i : Injector) (without writable : Bool)
      → Quiet i.poll_list
      → Still (
          if without
          then (record i { setup_wait = true }, kicked_setup s ∷ [])
          else if writable
          then (record i { setup_wait = true }, sent_setup queue s ∷ [])
          else (i, []))
  setup_cases queue s i true writable h = record { quiet = h; none_flushed = refl }
  setup_cases queue s i false true h = record { quiet = h; none_flushed = refl }
  setup_cases queue s i false false h = record { quiet = h; none_flushed = refl }

  take_arrival-Still :
      (a : Arrival) (i : Injector) → Quiet i.poll_list → Still (take_arrival garbage a i)
  unfolding take_arrival take_packet take_setup
  take_arrival-Still nothing i h = record { quiet = h; none_flushed = refl }
  take_arrival-Still (a_packet w p) i h =
      packet_cases (queue_of i p.b_endpoint) p i (queue_of i p.b_endpoint == 0) w h
  take_arrival-Still (a_setup w s) i h =
      setup_cases (get_or i.out_queues 0 0) s i (get_or i.out_queues 0 0 == 0) w h

  take_arrivals-Still :
      (arrivals : List Arrival) (i : Injector)
      → Quiet i.poll_list
      → Still (take_arrivals garbage arrivals i)
  unfolding take_arrivals
  take_arrivals-Still [] i h = record { quiet = h; none_flushed = refl }
  take_arrivals-Still (a ∷ rest) i h =
      let first = take_arrival-Still a i h in
      let more = take_arrivals-Still rest (take_arrival garbage a i).0 first.quiet in
      record {
        quiet = more.quiet;
        none_flushed =
            flushes-append (take_arrival garbage a i).1 _ first.none_flushed more.none_flushed;
      }

  flushes-reply : (o : Option SetupPacket) → flushes (reply_effects o) ≡ 0
  unfolding take_reply
  flushes-reply none = refl
  flushes-reply (some s) = ground arith

  round_cases :
      (r : Round) (i : Injector) (waiting ready : Bool)
      → Quiet i.poll_list
      → Still (
          if waiting
          then (i, reply_effects r.reply)
          else if ready
          then poll_round garbage r i
          else (i, []))
  unfolding poll_round
  round_cases r i true ready h = record { quiet = h; none_flushed = flushes-reply r.reply }
  round_cases r i false true h = rw (flush-quiet i h) (take_arrivals-Still r.arrivals i h)
  round_cases r i false false h = record { quiet = h; none_flushed = refl }

  run-Still : (rs : List Round) (i : Injector) → Quiet i.poll_list → Still (run garbage rs i)
  unfolding run round
  run-Still [] i h = record { quiet = h; none_flushed = refl }
  run-Still (r ∷ rs) i h =
      let first = round_cases r i i.setup_wait r.ready h in
      let more = run-Still rs (round garbage r i).0 first.quiet in
      record {
        quiet = more.quiet;
        none_flushed = flushes-append (round garbage r i).1 _ first.none_flushed more.none_flushed;
      }

  -- Only the files of the source are given to poll, so that nothing sets the POLLOUT bit of the
  -- entry of a queue: if no entry has it at first, and realloc leaves it clear in a new one, no
  -- packet is ever sent from the buffer.
  pub run-flushes :
      (rs : List Round) (i : Injector) → Quiet i.poll_list → flushes (run garbage rs i).1 ≡ 0
  run-flushes rs i h = (run-Still rs i h).none_flushed

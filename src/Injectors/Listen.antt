-- ===== src/Injectors/Listen.antt =====
-- src/lib/Injector.cpp and Injector.h: the loop of an injector, which takes packets from its source
-- and puts them on the queues of the relay. What the calls of the system and of the plugin give is
-- the input of a round, and what the loop does is a list of effects.
mod Tests
pub mod Counts
pub mod Flushing
pub mod Sound
pub mod Kept
pub mod Marks
pub mod Waiting
pub mod Stuck
use usbproxy_legacy.Prelude.{
  ℕ, zero, suc, ◌+◌, ◌%◌, Bool, true, false, ◌&&◌, Option, none, some, List, [], ◌∷◌, ◌++◌, ◌==◌,
  ◌/=◌, if◌then◌else◌, get_or, set, length, drop, replicate, has_bits, is_given,
}
use usbproxy_legacy.Packet.{Packet, SetupPacket}

-- `POLLIN` and `POLLOUT`.
abbrev pub pollin : ℕ
pollin = 1

abbrev pub pollout : ℕ
pollout = 4

pub record PollFd : Type 0 where
  pub fd : ℕ
  pub events : ℕ
  pub revents : ℕ

-- `setup_wait` and the lists are variables of `listen`; `polllistsize` is the length of the lists.
pub record Injector : Type 0 where
  pub in_queues : List ℕ
  pub out_queues : List ℕ
  pub in_poll_index : List ℕ
  pub out_poll_index : List ℕ
  pub poll_list : List PollFd
  pub poll_buffer : List (Option Packet)
  pub pollreadcount : ℕ
  pub setup_wait : Bool

pub injector : Injector
injector = record {
  in_queues = replicate 16 0;
  out_queues = replicate 16 0;
  in_poll_index = replicate 16 0;
  out_poll_index = replicate 16 0;
  poll_list = [];
  poll_buffer = [];
  pollreadcount = 0;
  setup_wait = false;
}

pub set_queue : ℕ → ℕ → Injector → Injector
set_queue ep queue i =
    if has_bits ep 0x80
    then record i { in_queues = set i.in_queues (ep % 16) queue }
    else record i { out_queues = set i.out_queues (ep % 16) queue }

-- The loop over the files of the source: its counter is raised twice in a round, so that every other
-- entry stays as calloc made it.
pub entries : List ℕ → List PollFd
entries [] = []
entries (a ∷ []) = record { fd = a; events = pollin; revents = 0 } ∷ []
entries (a ∷ (b ∷ rest)) =
    record { fd = a; events = pollin; revents = 0 }
    ∷ (record { fd = 0; events = 0; revents = 0 } ∷ entries rest)

pub prepare : List ℕ → Injector → Injector
unfolding entries
prepare fds i = record i {
  poll_list = entries fds;
  poll_buffer = replicate (length fds) none;
  pollreadcount = length fds;
}

-- A packet is sent on a queue, given back to the plugin by full_pipe, or sent from the buffer; a
-- reply is handed to the plugin.
pub data Effect : Type 0 where
  sent flushed : ℕ → Packet → Effect
  kicked : Packet → Effect
  sent_setup : ℕ → SetupPacket → Effect
  kicked_setup : SetupPacket → Effect
  replied acked stalled : SetupPacket → Effect

abbrev queue_of : Injector → ℕ → ℕ
queue_of i ep = get_or (if has_bits ep 0x80 then i.in_queues else i.out_queues) (ep % 16) 0

abbrev index_of : Injector → ℕ → ℕ
index_of i ep = get_or (if has_bits ep 0x80 then i.in_poll_index else i.out_poll_index) (ep % 16) 0

abbrev waiting_fd : ℕ → ℕ → PollFd
waiting_fd queue garbage = record { fd = queue; events = pollout; revents = garbage }

-- A new entry at the end of the lists; `garbage` is what realloc leaves in `revents`.
unfoldable pub new_entry : ℕ → ℕ → Packet → Injector → Injector
new_entry garbage queue p i = record i {
  in_poll_index =
      if has_bits p.b_endpoint 0x80
      then set i.in_poll_index (p.b_endpoint % 16) (length i.poll_list)
      else i.in_poll_index;
  out_poll_index =
      if has_bits p.b_endpoint 0x80
      then i.out_poll_index
      else set i.out_poll_index (p.b_endpoint % 16) (length i.poll_list);
  poll_list = i.poll_list ++ (waiting_fd queue garbage ∷ []);
  poll_buffer = i.poll_buffer ++ (some p ∷ []);
}

abbrev with_events : PollFd → ℕ → PollFd
with_events f n = record f { events = n }

abbrev no_fd : PollFd
no_fd = record { fd = 0; events = 0; revents = 0 }

unfoldable pub store : ℕ → Packet → Injector → Injector
store k p i = record i {
  poll_buffer = set i.poll_buffer k (some p);
  poll_list = set i.poll_list k (with_events (get_or i.poll_list k no_fd) pollout);
}

-- A packet that cannot be sent now.
unfoldable pub buffer : ℕ → ℕ → Packet → Injector → Injector × List Effect
buffer garbage queue p i =
    let k = index_of i p.b_endpoint in
    if k == 0
    then (new_entry garbage queue p i, [])
    else if is_given (get_or i.poll_buffer k none)
    then (i, kicked p ∷ [])
    else (store k p i, [])

-- `writable` is what poll says of the queue.
unfoldable pub take_packet : ℕ → Bool → Packet → Injector → Injector × List Effect
take_packet garbage writable p i =
    let queue = queue_of i p.b_endpoint in
    if queue == 0
    then (i, kicked p ∷ [])
    else if writable
    then (i, sent queue p ∷ [])
    else buffer garbage queue p i

abbrev waits : Injector → Injector
waits i = record i { setup_wait = true }

-- A request whose queue is full is dropped.
unfoldable pub take_setup : Bool → SetupPacket → Injector → Injector × List Effect
take_setup writable s i =
    let queue = get_or i.out_queues 0 0 in
    if queue == 0
    then (waits i, kicked_setup s ∷ [])
    else if writable
    then (waits i, sent_setup queue s ∷ [])
    else (i, [])

-- What get_packets gives.
pub data Arrival : Type 0 where
  nothing : Arrival
  a_packet : Bool → Packet → Arrival
  a_setup : Bool → SetupPacket → Arrival

unfoldable pub take_arrival : ℕ → Arrival → Injector → Injector × List Effect
take_arrival garbage nothing i = (i, [])
take_arrival garbage (a_packet w p) i = take_packet garbage w p i
take_arrival garbage (a_setup w s) i = take_setup w s i

-- The loop over the readable files of the source: one arrival for each.
unfoldable pub take_arrivals : ℕ → List Arrival → Injector → Injector × List Effect
take_arrivals garbage [] i = (i, [])
take_arrivals garbage (a ∷ as') i =
    let (j, es) = take_arrival garbage a i in
    let (k, rest) = take_arrivals garbage as' j in (k, es ++ rest)

-- The loop over the entries of the queues: what is in the buffer of one that is writable is sent,
-- but as the bytes of the packet instead of its address.
unfoldable pub flush_one : PollFd → Option Packet → PollFd × Option Packet × List Effect
flush_one f none =
    if has_bits f.revents pollout
    then (record f { revents = 0; events = 0 }, none, [])
    else (f, none, [])
flush_one f (some p) =
    if has_bits f.revents pollout
    then (record f { revents = 0 }, none, flushed f.fd p ∷ [])
    else (f, some p, [])

unfoldable pub flush_all :
    ℕ → List PollFd → List (Option Packet) → List PollFd × List (Option Packet) × List Effect
flush_all n [] bs = ([], bs, [])
flush_all n (f ∷ fs) [] = (f ∷ fs, [], [])
flush_all (suc n) (f ∷ fs) (b ∷ bs) =
    let (fs', bs', es) = flush_all n fs bs in (f ∷ fs', b ∷ bs', es)
flush_all zero (f ∷ fs) (b ∷ bs) =
    let (f', b', es) = flush_one f b in
    let (fs', bs', rest) = flush_all zero fs bs in (f' ∷ fs', b' ∷ bs', es ++ rest)

-- The entries behind the files of the source. poll is given only those of the source, so the
-- `revents` of these are what they were.
unfoldable pub flush : Injector → Injector × List Effect
flush i =
    let (fs, bs, es) = flush_all i.pollreadcount i.poll_list i.poll_buffer in
    (record i { poll_list = fs; poll_buffer = bs }, es)

-- The reply to a request that was injected.
unfoldable pub take_reply : SetupPacket → Effect
take_reply s =
    if s.transmit_in then (if s.ctrl_req.w_length /= 0 then replied s else acked s) else stalled s

-- What happens in a round: a reply is there, if the loop waits for one; or else whether poll finds
-- something, and the arrivals.
pub record Round : Type 0 where
  pub reply : Option SetupPacket
  pub ready : Bool
  pub arrivals : List Arrival

abbrev reply_effects : Option SetupPacket → List Effect
reply_effects none = []
reply_effects (some s) = take_reply s ∷ []

unfoldable pub poll_round : ℕ → Round → Injector → Injector × List Effect
poll_round garbage r i =
    let (j, es) = flush i in let (k, rest) = take_arrivals garbage r.arrivals j in (k, es ++ rest)

unfoldable pub round : ℕ → Round → Injector → Injector × List Effect
round garbage r i =
    if i.setup_wait
    then (i, reply_effects r.reply)
    else if r.ready
    then poll_round garbage r i
    else (i, [])

unfoldable pub run : ℕ → List Round → Injector → Injector × List Effect
run garbage [] i = (i, [])
run garbage (r ∷ rs) i =
    let (j, es) = round garbage r i in let (k, rest) = run garbage rs j in (k, es ++ rest)

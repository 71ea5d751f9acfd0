-- ===== src/Tcp.antt =====
-- src/lib/TCP_Helper.cpp: the bookkeeping of the 32 ports over which endpoints travel. What socket,
-- bind, listen, connect, accept and poll give is an argument of the function that calls them; a
-- socket that is not there is 0. Waiting and the output are left out.
pub mod Ports
mod Tests
use usbproxy_legacy.Prelude.{
  ℕ, zero, suc, ◌+◌, ◌-◌, Bool, true, false, ◌&&◌, ◌||◌, not, Option, none, some, List, [], ◌∷◌,
  ◌==◌, ◌/=◌, if◌then◌else◌, get_or, set, map, length, replicate, bit_and, bit_or, has_bits,
}

-- The four arrays at one index.
pub record Channel : Type 0 where
  pub listener : ℕ
  pub socket : ℕ
  pub buffer : Bool
  pub connect : Bool

pub record TcpHelper : Type 0 where
  pub server : Bool
  pub connected : Bool
  pub channels : List Channel

-- 0, `ETIMEDOUT` and -1.
pub data Rc : Type 0 where
  success timeout failure : Rc

pub data Connecting : Type 0 where
  at_once in_progress refused : Connecting

-- Nothing within the time, `POLLHUP`, the wanted event alone, or another.
pub data Polled : Type 0 where
  expired hang_up ready other_event : Polled

-- What the calls of client_connect give: socket, connect, poll.
pub record ClientCalls : Type 0 where
  pub fd : Option ℕ
  pub connecting : Connecting
  pub polled : Polled

-- Those of server_listen: socket, and whether bind and listen succeed. Those of server_connect:
-- poll and accept.
pub record ServerCalls : Type 0 where
  pub listen_fd : ℕ
  pub bound : Bool
  pub listening : Bool
  pub polled : Polled
  pub accepted : Option ℕ

abbrev pub empty_channel : Channel
empty_channel = record { listener = 0; socket = 0; buffer = false; connect = false }

-- The constructor; without an address the program is the server.
abbrev tcp_helper : Bool → TcpHelper
tcp_helper server = record {
  server = server;
  connected = false;
  channels = replicate 32 empty_channel;
}

-- The port of an endpoint address.
unfoldable pub port_of : ℕ → ℕ
port_of ep = if has_bits ep 0x80 then bit_or (bit_and ep 0xf) 0x10 else ep

-- The wait for a connection that is under way.
pub await : Channel → Polled → Channel × Rc
await c expired = (c, timeout)
await c hang_up = (record c { socket = 0 }, timeout)
await c ready = (record c { connect = true }, success)
await c other_event = (c, failure)

pub new_socket : Channel → ℕ → Connecting → Polled → Channel × Rc
new_socket c fd at_once polled = (record c { socket = fd; connect = true }, success)
new_socket c fd in_progress polled = await (record c { socket = fd; connect = false }) polled
new_socket c fd refused polled = (c, failure)

abbrev pub with_socket : Channel → ClientCalls → Option ℕ → Channel × Rc
with_socket c k none = (c, failure)
with_socket c k (some fd) = new_socket c fd k.connecting k.polled

pub client_connect : Channel → ClientCalls → Channel × Rc
client_connect c k =
    if c.connect && c.socket /= 0
    then (c, success)
    else if c.socket == 0
    then with_socket c k k.fd
    else await c k.polled

server_listen : Channel → ServerCalls → Channel
server_listen c k =
    if c.listener /= 0
    then c
    else if not k.bound
    then c
    else if not k.listening
    then c
    else record c { connect = false; listener = k.listen_fd }

abbrev is_ready : Polled → Bool
is_ready ready = true
is_ready _ = false

server_connect : Channel → ServerCalls → Channel × Rc
server_connect c k =
    if is_ready k.polled
    then elim k.accepted [
      | none ↦ (c, failure)
      | some fd ↦ (record c { socket = fd; connect = true }, success)
    ]
    else (c, timeout)

abbrev pub is_success : Rc → Bool
is_success success = true
is_success _ = false

abbrev pub channel : TcpHelper → ℕ → Channel
channel t i = get_or t.channels i empty_channel

abbrev set_channel : TcpHelper → ℕ → Channel → TcpHelper
set_channel t i c = record t { channels = set t.channels i c }

-- The first part of connect, on port 0.
connect_zero : Bool → Channel → ClientCalls → ServerCalls → Channel × Rc
unfolding client_connect server_listen server_connect
connect_zero server c client k =
    if server
    then (let c' = server_listen c k in
        if c'.listener == 0 then (c', timeout) else server_connect c' k)
    else client_connect c client

connect : TcpHelper → ClientCalls → ServerCalls → TcpHelper × Rc
unfolding connect_zero
connect t client k =
    let r = connect_zero t.server (channel t 0) client k in
    let c = if is_success (r.1) then record (r.0) { buffer = true } else r.0 in
    (record (set_channel t 0 c) { connected = is_success (r.1) }, r.1)

pub close_channel : Channel → Channel
close_channel c = record c { listener = 0; socket = 0; buffer = false }

pub disconnect : TcpHelper → TcpHelper
disconnect t = record t { channels = map close_channel t.channels }

-- The first loop of client_open_endpoints: the calls for each port, and the ports that are left to
-- wait for. Each endpoint is in the list once.
pub client_begin : (ℕ → ClientCalls) → TcpHelper → List ℕ → TcpHelper × List ℕ
client_begin calls t [] = (t, [])
client_begin calls t (ep ∷ eps) =
    let i = port_of ep in
    let c = channel t i in
    let c' = if not c.connect && c.socket == 0 then (client_connect c (calls i)).0 else c in
    let t' = if not c.connect && c.socket == 0 then set_channel t i c' else t in
    let rest = client_begin calls t' eps in if c'.connect then rest else (rest.0, i ∷ rest.1)

-- The loop over the ports that were polled; the second result is `ep_count`.
pub client_finish : (ℕ → Polled) → (ℕ → ClientCalls) → TcpHelper → List ℕ → ℕ → TcpHelper × ℕ
unfolding client_connect
client_finish polled calls t [] n = (t, n)
client_finish polled calls t (i ∷ is) n =
    let c = channel t i in
    let r = client_connect c (calls i) in
    let done = is_success (r.1) in
    elim (polled i) [
      | expired ↦ client_finish polled calls t is n
      | other_event ↦ client_finish polled calls t is n
      | hang_up ↦ client_finish polled calls (set_channel t i (record c { socket = 0 })) is n
      | ready ↦
          client_finish polled calls
            (set_channel t i (if done then record (r.0) { buffer = true } else r.0)) is
            (if done then n - 1 else n)
    ]

-- What open_endpoints returns: `ETIMEDOUT`, or how many ports are not connected.
pub data Opened : Type 0 where
  expired_all : Opened
  missing : ℕ → Opened

-- The calls of the two loops, and whether poll returns in time.
abbrev pub client_wait :
    Bool → (ℕ → Polled) → (ℕ → ClientCalls) → TcpHelper → List ℕ → TcpHelper × Opened
client_wait in_time polled second t [] = (t, missing 0)
client_wait in_time polled second t (i ∷ is) =
    let s = client_finish polled second t (i ∷ is) (length (i ∷ is)) in
    if in_time then (s.0, missing (s.1)) else (t, expired_all)

pub client_open_endpoints :
    TcpHelper
    → List ℕ
    → (ℕ → ClientCalls)
    → Bool
    → (ℕ → Polled)
    → (ℕ → ClientCalls)
    → TcpHelper × Opened
client_open_endpoints t eps first in_time polled second =
    let r = client_begin first t eps in client_wait in_time polled second (r.0) (r.1)

-- The same for the server; `in_time` is whether poll over the sockets of some ports returns in time.
unfoldable pub server_begin : (ℕ → ServerCalls) → TcpHelper → List ℕ → TcpHelper × List ℕ
unfolding port_of server_listen
server_begin calls t [] = (t, [])
server_begin calls t (ep ∷ eps) =
    let i = port_of ep in
    let c = channel t i in
    let t' =
      if not c.connect && c.listener == 0 then set_channel t i (server_listen c (calls i)) else t in
    let rest = server_begin calls t' eps in if c.connect then rest else (rest.0, i ∷ rest.1)

server_finish : (ℕ → Polled) → (ℕ → ServerCalls) → TcpHelper → List ℕ → ℕ → TcpHelper × ℕ
unfolding server_connect
server_finish polled calls t [] n = (t, n)
server_finish polled calls t (i ∷ is) n =
    let r = server_connect (channel t i) (calls i) in
    let done = is_success (r.1) in
    let next = set_channel t i (if done then record (r.0) { buffer = true } else r.0) in
    let further = server_finish polled calls next is (if done then n - 1 else n) in
    let skipped = server_finish polled calls t is n in
    if is_ready (polled i) then further else skipped

unfoldable pub server_open_endpoints :
    TcpHelper
    → List ℕ
    → (ℕ → ServerCalls)
    → (List ℕ → Bool)
    → (ℕ → Polled)
    → (ℕ → ServerCalls)
    → TcpHelper × Opened
unfolding server_begin server_finish
server_open_endpoints t eps first in_time polled second =
    let r = server_begin first t eps in
    let s = server_finish polled second (r.0) (r.1) (length (r.1)) in
    if in_time (r.1) then (s.0, missing (s.1)) else (r.0, expired_all)

-- The socket that send_data writes to and receive_data reads from.
pub socket_of : TcpHelper → ℕ → ℕ
socket_of t ep = (channel t (port_of ep)).socket

-- ===== src/Tcp/Ports.antt =====
-- src/lib/TCP_Helper.cpp: which ports are connected.
use usbproxy_legacy.Prelude.{
  ℕ, zero, suc, ◌≡◌, ◌≢◌, refl, ap, sym, ◌∙◌, Bool, true, false, ◌&&◌, Option, none, some, List, [],
  ◌∷◌, ◌==◌, ◌/=◌, get_or, map, All, Given, Bool-cases, inl, inr, arith,
}
use usbproxy_legacy.Tcp.{
  Channel, TcpHelper, Polled, expired, hang_up, ready, other_event, Connecting, at_once,
  in_progress, refused, ClientCalls, await, new_socket, client_connect, is_success, channel,
  empty_channel, close_channel, disconnect, port_of, client_begin, with_socket, client_wait,
  client_open_endpoints, missing, socket_of,
}

abbrev pub is_linked : Channel → Bool
is_linked c = c.connect && c.socket /= 0

await-is_linked :
    (c : Channel) (p : Polled)
    → c.socket ≢ 0
    → c.connect ≡ false
    → is_success ((await c p).1) ≡ is_linked ((await c p).0)
unfolding await
await-is_linked c expired h e = ground arith
await-is_linked c hang_up h e = ground arith
await-is_linked c ready h e = ground arith
await-is_linked c other_event h e = ground arith

new_socket-is_linked :
    (c : Channel) (fd : ℕ) (k : Connecting) (p : Polled)
    → fd ≢ 0
    → c.socket ≡ 0
    → is_success ((new_socket c fd k p).1) ≡ is_linked ((new_socket c fd k p).0)
unfolding new_socket
new_socket-is_linked c fd at_once p h e = ground arith
new_socket-is_linked c fd in_progress p h e =
    await-is_linked (record c { socket = fd; connect = false }) p h refl
new_socket-is_linked c fd refused p h e = ground arith

-- client_connect reports success exactly when it leaves the port with a socket that is connected,
-- if a socket that it gets is not 0.
pub client_connect-is_linked :
    (c : Channel) (k : ClientCalls)
    → Given (λ fd. fd ≢ 0) k.fd
    → is_success ((client_connect c k).1) ≡ is_linked ((client_connect c k).0)
unfolding client_connect
client_connect-is_linked c k h = elim (Bool-cases (is_linked c)) [
  | inl e ↦ rw e (sym e)
  | inr e ↦ elim (Bool-cases (c.socket == 0)) [
    | inl f ↦ rw (e, f) (given k.fd h e (ground arith))
    | inr f ↦ rw (e, f) (await-is_linked c k.polled (ground arith) (ground arith))
  ]
]
  where
    given :
        (o : Option ℕ)
        → Given (λ fd. fd ≢ 0) o
        → is_linked c ≡ false
        → c.socket ≡ 0
        → is_success ((with_socket c k o).1) ≡ is_linked ((with_socket c k o).0)
    given none n e z = sym e
    given (some fd) n e z = new_socket-is_linked c fd k.connecting k.polled n z

get_or-close_channel :
    (cs : List Channel) (i : ℕ)
    → get_or (map close_channel cs) i empty_channel ≡ close_channel (get_or cs i empty_channel)
unfolding close_channel
get_or-close_channel [] i = refl
get_or-close_channel (c ∷ cs) zero = refl
get_or-close_channel (c ∷ cs) (suc i) = get_or-close_channel cs i

client_begin-connected :
    (calls : ℕ → ClientCalls) (t : TcpHelper) (eps : List ℕ)
    → All (λ ep. (channel t (port_of ep)).connect ≡ true) eps
    → client_begin calls t eps ≡ (t, [])
unfolding client_begin
client_begin-connected calls t [] h = refl
client_begin-connected calls t (ep ∷ eps) h =
    rw (h.0, client_begin-connected calls t eps h.1, h.0) refl

closed :
    (t : TcpHelper) (eps : List ℕ)
    → All (λ ep. (channel t (port_of ep)).connect ≡ true) eps
    → All (λ ep. (channel (disconnect t) (port_of ep)).connect ≡ true) eps
unfolding disconnect close_channel
closed t [] h = tt
closed t (ep ∷ eps) h =
    (ap (λ c. c.connect) (get_or-close_channel t.channels (port_of ep)) ∙ h.0, closed t eps h.1)

client_open_endpoints-connected :
    (t : TcpHelper) (eps : List ℕ) (first second : ℕ → ClientCalls) (in_time : Bool)
    (polled : ℕ → Polled)
    → All (λ e. (channel t (port_of e)).connect ≡ true) eps
    → client_open_endpoints t eps first in_time polled second ≡ (t, missing 0)
unfolding client_open_endpoints
client_open_endpoints-connected t eps first second in_time polled h =
    ap (λ r. client_wait in_time polled second (r.0) (r.1)) (client_begin-connected first t eps h)

-- After disconnect the endpoints that were connected count as connected still: a client that opens
-- them again makes no call for them and reports that none is missing, while the socket of each
-- endpoint is gone, so that what is sent to it goes to descriptor 0.
pub client_open_endpoints-disconnect :
    (t : TcpHelper) (eps : List ℕ) (first second : ℕ → ClientCalls) (in_time : Bool)
    (polled : ℕ → Polled) (ep : ℕ)
    → All (λ e. (channel t (port_of e)).connect ≡ true) eps
    → (client_open_endpoints (disconnect t) eps first in_time polled second
        ≡ (disconnect t, missing 0))
      × (socket_of (disconnect t) ep ≡ 0)
unfolding socket_of disconnect close_channel
client_open_endpoints-disconnect t eps first second in_time polled ep h = (
  client_open_endpoints-connected (disconnect t) eps first second in_time polled (closed t eps h),
  ap (λ c. c.socket) (get_or-close_channel t.channels (port_of ep)),
)

-- ===== src/Devices/TcpDevice.antt =====
-- src/Plugins/Devices/DeviceProxy_TCP.cpp: a device at the other end of a network. A request is sent
-- as its 8 bytes and its data; the answer is a byte that is 0, a length with its high byte first, and
-- the data, or a byte that is not 0. Also open_endpoints and receive_data of src/lib/TCP_Helper.cpp.
mod Tests
pub mod Opening
use usbproxy_legacy.Prelude.{
  ℕ, zero, suc, ◌+◌, ◌*◌, ◌%◌, ◌/◌, Bool, true, false, ◌&&◌, not, Option, none, some, List, [], ◌∷◌,
  ◌++◌, ◌==◌, ◌/=◌, ltb, if◌then◌else◌, get_or, length, take, drop, has_bits,
}
use usbproxy_legacy.Packet.{CtrlRequest}
use usbproxy_legacy.Usb.Interface
use usbproxy_legacy.Usb.Interface.{Interface, Parsed, ok, overflow, null_pointer, ◌>>=◌}
use usbproxy_legacy.Usb.Configuration
use usbproxy_legacy.Usb.Configuration.{Configuration}
use usbproxy_legacy.Tcp.{
  TcpHelper, ClientCalls, ServerCalls, Polled, Opened, expired_all, missing, client_begin,
  client_open_endpoints, server_open_endpoints,
}

-- `TCP_BUFFER_SIZE`.
abbrev pub tcp_buffer_size : ℕ
tcp_buffer_size = 1456

-- What waits at a socket: nothing within the time, bytes, or an error of read.
pub data Arrived : Type 0 where
  silent broken : Arrived
  available : List ℕ → Arrived

-- The data that receive_data gives; none leaves the pointer and the length of the caller as they
-- were. After an error the length is -1, and realloc with it gives a null pointer.
abbrev pub receive_data : Arrived → Parsed (List ℕ)
receive_data silent = ok []
receive_data broken = null_pointer
receive_data (available bytes) = ok (take tcp_buffer_size bytes)

abbrev pub is_in : CtrlRequest → Bool
is_in r = has_bits r.b_request_type 0x80

-- The 8 bytes of a `usb_ctrlrequest`.
abbrev pub setup_bytes : CtrlRequest → List ℕ
setup_bytes r =
    r.b_request_type
    ∷ r.b_request
    ∷ r.w_value % 256
    ∷ r.w_value / 256
    ∷ r.w_index % 256
    ∷ r.w_index / 256
    ∷ r.w_length % 256
    ∷ r.w_length / 256
    ∷ []

-- memcpy of so many bytes.
abbrev pub copied : List ℕ → ℕ → List ℕ
copied bytes zero = []
copied bytes (suc n) = get_or bytes 0 0 ∷ copied (drop 1 bytes) n

-- What is written to the socket of endpoint 0.
unfoldable pub request_frame : CtrlRequest → List ℕ → List ℕ
request_frame r bytes = setup_bytes r ++ (if is_in r then [] else copied bytes r.w_length)

-- The result -1, or 0 with the bytes that are put behind `dataptr`.
pub data Reply : Type 0 where
  stalled : Reply
  done : List ℕ → Reply

-- The smaller of the length of the answer and that of the request.
abbrev pub reply_length : CtrlRequest → List ℕ → ℕ
reply_length r buf =
    let usblen = get_or buf 1 0 * 256 + get_or buf 2 0 in
    if ltb r.w_length usblen then r.w_length else usblen

unfoldable pub read_reply : CtrlRequest → List ℕ → Reply
read_reply r [] = stalled
read_reply r (x ∷ xs) =
    if x /= 0 then stalled else done (copied (drop 3 (x ∷ xs)) (reply_length r (x ∷ xs)))

-- What is sent, and the result with what then arrives.
unfoldable pub control_request : CtrlRequest → List ℕ → Arrived → List ℕ × Parsed Reply
control_request r bytes arrived =
    (request_frame r bytes, receive_data arrived >>= λ buf. ok (read_reply r buf))

-- The addresses of the endpoints of an interface, from one index on.
unfoldable pub addresses : Interface → ℕ → ℕ → Parsed (List ℕ)
addresses i zero n = ok []
addresses i (suc left) n = elim (Interface.get_endpoint_by_idx i n) [
  | none ↦ null_pointer
  | some e ↦ (addresses i left (n + 1) >>= λ rest. ok (e.b_endpoint_address ∷ rest))
]

abbrev of_interface : Option Interface → Parsed (List ℕ)
of_interface none = null_pointer
of_interface (some i) = addresses i i.descriptor.b_num_endpoints 0

unfoldable pub of_interfaces : Configuration → ℕ → ℕ → Parsed (List ℕ)
of_interfaces c zero n = ok []
of_interfaces c (suc left) n = of_interface (Configuration.get_interface c n) >>= λ first.
    of_interfaces c left (n + 1) >>= λ rest. ok (first ++ rest)

-- The array of the addresses. Its length is a byte: more than 255 are written past its end.
unfoldable pub endpoints_of : Configuration → Parsed (List ℕ)
endpoints_of c = of_interfaces c c.descriptor.b_num_interfaces 0 >>= λ eps.
    (if ltb (length eps) 256 then ok eps else overflow)

-- What the calls of the system give in a call of open_endpoints; `in_time` is whether poll over the
-- sockets of some ports returns in time.
pub record Attempt : Type 0 where
  pub connects : ℕ → ClientCalls
  pub listens : ℕ → ServerCalls
  pub in_time : List ℕ → Bool
  pub polled : ℕ → Polled
  pub connects_again : ℕ → ClientCalls
  pub accepts : ℕ → ServerCalls

unfoldable pub open_endpoints : TcpHelper → List ℕ → Attempt → TcpHelper × Opened
open_endpoints t eps a =
    if t.server
    then server_open_endpoints t eps a.listens a.in_time a.polled a.accepts
    else client_open_endpoints t eps a.connects (a.in_time (client_begin a.connects t eps).1)
        a.polled a.connects_again

abbrev pub is_open : Opened → Bool
is_open expired_all = false
is_open (missing n) = n == 0

-- The loop of setConfig over so many calls, and whether it is left. The time that has run out is a
-- positive number too.
unfoldable pub open_until : List ℕ → List Attempt → TcpHelper → TcpHelper × Bool
open_until eps [] t = (t, false)
open_until eps (a ∷ as') t =
    let r = open_endpoints t eps a in
    let rest = open_until eps as' r.0 in if is_open r.1 then (r.0, true) else rest

unfoldable pub set_config : Configuration → List Attempt → TcpHelper → Parsed (TcpHelper × Bool)
set_config c attempts t = endpoints_of c >>= λ eps. ok (open_until eps attempts t)

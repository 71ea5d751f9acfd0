-- ===== src/Hosts/TcpHost.antt =====
-- src/Plugins/Hosts/HostProxy_TCP.cpp: a host at the other end of a network, and what it and
-- DeviceProxy_TCP make of each other's messages.
mod Tests
pub mod Messages
use usbproxy_legacy.Prelude.{
  ℕ, ◌+◌, ◌*◌, ◌%◌, ◌/◌, Bool, true, false, ◌&&◌, not, Option, none, some, List, [], ◌∷◌, ◌++◌,
  ◌==◌, ◌/=◌, if◌then◌else◌, get_or, length, drop,
}
use usbproxy_legacy.Packet.{CtrlRequest}
use usbproxy_legacy.Usb.Interface.{Parsed, ok, ◌>>=◌}
use usbproxy_legacy.Usb.Configuration.{Configuration}
use usbproxy_legacy.Tcp.{TcpHelper}
use usbproxy_legacy.Devices.TcpDevice.{
  Arrived, receive_data, is_in, copied, Attempt, open_until, endpoints_of,
}

-- The first 8 bytes as a `usb_ctrlrequest`.
abbrev pub request_of : List ℕ → CtrlRequest
request_of b = record {
  b_request_type = get_or b 0 0;
  b_request = get_or b 1 0;
  w_value = get_or b 2 0 + get_or b 3 0 * 256;
  w_index = get_or b 4 0 + get_or b 5 0 * 256;
  w_length = get_or b 6 0 + get_or b 7 0 * 256;
}

-- The pointer of the caller: null, or with these bytes written over the pointer itself, from its
-- address on, instead of the buffer that was allocated.
pub data DataPtr : Type 0 where
  null : DataPtr
  overwritten : List ℕ → DataPtr

-- `bRequest` is set to 0 and 0 is returned, or 1 with the request, the length and the pointer.
pub data Taken : Type 0 where
  no_request : Taken
  request : CtrlRequest → ℕ → DataPtr → Taken

unfoldable pub take_request : List ℕ → Taken
take_request [] = no_request
take_request (x ∷ xs) =
    let r = request_of (x ∷ xs) in
    if not (is_in r) && r.w_length /= 0
    then request r (length (drop 8 (x ∷ xs))) (overwritten (drop 8 (x ∷ xs)))
    else request r 0 null

unfoldable pub control_request : Arrived → Parsed Taken
control_request arrived = receive_data arrived >>= λ buf. ok (take_request buf)

-- What is written to the socket of the endpoint.
unfoldable pub send_data : ℕ → List ℕ → ℕ → List ℕ
send_data endpoint bytes n =
    if endpoint == 0 then 0 ∷ n / 256 % 256 ∷ n % 256 ∷ copied bytes n else copied bytes n

abbrev pub control_ack : List ℕ
control_ack = 0 ∷ 0 ∷ 0 ∷ []

unfoldable pub stall_ep : ℕ → List ℕ
stall_ep endpoint = if endpoint == 0 then 1 ∷ [] else []

set_config : Configuration → List Attempt → TcpHelper → Parsed (TcpHelper × Bool)
set_config c attempts t = endpoints_of c >>= λ eps. ok (open_until eps attempts t)

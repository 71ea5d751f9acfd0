-- ===== src/Devices/TcpDevice/Opening.antt =====
-- src/Plugins/Devices/DeviceProxy_TCP.cpp and src/lib/TCP_Helper.cpp: a server that has nothing to
-- wait for.
use usbproxy_legacy.Prelude.{ℕ, ◌≡◌, refl, ap, ◌∙◌, true, false, List, [], ◌∷◌, if◌then◌else◌}
use usbproxy_legacy.Usb.Interface.{ok}
use usbproxy_legacy.Usb.Configuration.{Configuration}
use usbproxy_legacy.Tcp.{
  TcpHelper, ServerCalls, expired_all, channel, port_of, server_begin, client_begin,
  client_open_endpoints, server_open_endpoints,
}
use usbproxy_legacy.Devices.TcpDevice.{
  Attempt, open_endpoints, open_until, endpoints_of, set_config, is_open,
}

-- Each endpoint is connected.
abbrev pub Connected : TcpHelper → List ℕ → Type 0
Connected t [] = Unit
Connected t (ep ∷ eps) = ((channel t (port_of ep)).connect ≡ true) × Connected t eps

-- poll waits until the time is over when it is given no socket, as it is documented to.
abbrev pub PollWaits : List Attempt → Type 0
PollWaits [] = Unit
PollWaits (a ∷ as') = (a.in_time [] ≡ false) × PollWaits as'

server_begin-Connected :
    (calls : ℕ → ServerCalls) (t : TcpHelper) (eps : List ℕ)
    → Connected t eps
    → server_begin calls t eps ≡ (t, [])
unfolding server_begin
server_begin-Connected calls t [] h = refl
server_begin-Connected calls t (ep ∷ eps) h = rw (h.0, server_begin-Connected calls t eps h.1) refl

open_endpoints-Connected :
    (t : TcpHelper) (eps : List ℕ) (a : Attempt)
    → t.server ≡ true
    → Connected t eps
    → a.in_time [] ≡ false
    → open_endpoints t eps a ≡ (t, expired_all)
unfolding open_endpoints server_open_endpoints
open_endpoints-Connected t eps a server h late =
    ap
      (λ b.
        if b
        then server_open_endpoints t eps a.listens a.in_time a.polled a.accepts
        else client_open_endpoints t eps a.connects (a.in_time (client_begin a.connects t eps).1)
            a.polled a.connects_again)
      server
    ∙ rw (server_begin-Connected a.listens t eps h, late) refl

open_until-Connected :
    (eps : List ℕ) (attempts : List Attempt) (t : TcpHelper)
    → t.server ≡ true
    → Connected t eps
    → PollWaits attempts
    → open_until eps attempts t ≡ (t, false)
unfolding open_until
open_until-Connected eps [] t server h late = refl
open_until-Connected eps (a ∷ rest) t server h late =
    ap (λ r. if is_open r.1 then (r.0, true) else open_until eps rest r.0)
      (open_endpoints-Connected t eps a server h late.0)
    ∙ open_until-Connected eps rest t server h late.1

-- A server does not leave setConfig when every endpoint of the configuration is connected already, or
-- when it has none, whatever its calls of the system give: if only poll runs out of time when it is
-- given no socket, as it is documented to, the loop goes on for any number of calls of
-- open_endpoints, which change nothing.
pub set_config-stuck :
    (c : Configuration) (eps : List ℕ) (attempts : List Attempt) (t : TcpHelper)
    → endpoints_of c ≡ ok eps
    → t.server ≡ true
    → Connected t eps
    → PollWaits attempts
    → set_config c attempts t ≡ ok (t, false)
unfolding set_config
set_config-stuck c eps attempts t known server h late =
    rw (known, open_until-Connected eps attempts t server h late) refl

-- ===== src/Tcp/Tests.antt =====
-- A client with one connected endpoint: the theorems about ports.
use usbproxy_legacy.Prelude.{◌≡◌, refl, true, false, some, [], ◌∷◌, replicate}
use usbproxy_legacy.Tcp.{
  Channel, TcpHelper, ClientCalls, in_progress, ready, client_open_endpoints, disconnect, missing,
  socket_of, port_of,
}
use usbproxy_legacy.Tcp.Ports.{client_open_endpoints-disconnect}

abbrev calls : ClientCalls
calls = record { fd = some 5; connecting = in_progress; polled = ready }

abbrev linked : Channel
linked = record { listener = 0; socket = 5; buffer = true; connect = true }

abbrev client : TcpHelper
client = record { server = false; connected = true; channels = replicate 32 linked }

client_open_endpoints-disconnect_example :
    (client_open_endpoints
        (disconnect client)
        (1 ∷ 0x81 ∷ [])
        (λ i. calls)
        true
        (λ i. ready)
        (λ i. calls)
      ≡ (disconnect client, missing 0))
    × (socket_of (disconnect client) 1 ≡ 0)
unfolding port_of
client_open_endpoints-disconnect_example =
    client_open_endpoints-disconnect client (1 ∷ 0x81 ∷ []) (λ i. calls) (λ i. calls) true
      (λ i. ready) 1 (refl, (refl, tt))

-- ===== src/Devices/TcpDevice/Tests.antt =====
-- src/Plugins/Devices/DeviceProxy_TCP.cpp: runs on small inputs.
use usbproxy_legacy.Prelude.{length, ◌/=◌, ◌≡◌, refl, true, false, none, [], ◌∷◌, set, replicate}
use usbproxy_legacy.Usb.Interface
use usbproxy_legacy.Usb.Interface.{ok}
use usbproxy_legacy.Usb.InterfaceGroup
use usbproxy_legacy.Usb.Configuration
use usbproxy_legacy.Tcp.{TcpHelper, empty_channel, in_progress, expired, port_of}
use usbproxy_legacy.Hosts.GadgetFs.Tests.{config}
use usbproxy_legacy.Devices.TcpDevice.{Attempt, addresses, of_interfaces, endpoints_of, set_config}
use usbproxy_legacy.Devices.TcpDevice.Opening.{Connected, set_config-stuck}

-- Endpoint 1 IN has port 17.
abbrev server : TcpHelper
server = record {
  server = true;
  connected = true;
  channels =
      set (replicate 32 empty_channel) 17
        (record { listener = 3; socket = 4; buffer = true; connect = true });
}

abbrev late : Attempt
late = record {
  connects = λ i. record { fd = none; connecting = in_progress; polled = expired };
  listens = λ i. record {
    listen_fd = 0;
    bound = false;
    listening = false;
    polled = expired;
    accepted = none;
  };
  in_time = λ ports. length ports /= 0;
  polled = λ i. expired;
  connects_again = λ i. record { fd = none; connecting = in_progress; polled = expired };
  accepts = λ i. record {
    listen_fd = 0;
    bound = false;
    listening = false;
    polled = expired;
    accepted = none;
  };
}

config_endpoints : endpoints_of config ≡ ok (0x81 ∷ [])
unfolding endpoints_of of_interfaces addresses Configuration.get_interface
    InterfaceGroup.get_active_interface InterfaceGroup.get_interface Interface.get_endpoint_by_idx
config_endpoints = refl

server-Connected : Connected server (0x81 ∷ [])
unfolding port_of
server-Connected = (refl, tt)

set_config-stuck_example : set_config config (late ∷ late ∷ late ∷ []) server ≡ ok (server, false)
set_config-stuck_example =
    set_config-stuck config (0x81 ∷ []) (late ∷ late ∷ late ∷ []) server config_endpoints refl
      server-Connected (refl, (refl, (refl, tt)))

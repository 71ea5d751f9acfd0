-- ===== src/Manager/Data.antt =====
-- src/lib/Manager.cpp: start_data_relaying and setConfig.
use usbproxy_legacy.Prelude.{
  is_given, ℕ, zero, suc, ◌+◌, Bool, true, false, ◌&&◌, ◌||◌, Option, none, some, List, [], ◌∷◌,
  ◌++◌, ◌==◌, if◌then◌else◌, map, get_or, set, bit_and, has_bits,
}
use usbproxy_legacy.Descriptors.{InterfaceDescriptor}
use usbproxy_legacy.Criteria.{test_device, test_endpoint, test_interface, test_configuration}
use usbproxy_legacy.Usb.Interface.{
  Interface, Parsed, ok, null_pointer, failed, ◌>>=◌, get_endpoint_by_idx,
}
use usbproxy_legacy.Usb.Configuration.{
  Configuration, get_interface_alternate, get_interface_alternate_count,
}
use usbproxy_legacy.Usb.DeviceQualifier
use usbproxy_legacy.Usb.Device.{
  Device, get_configuration, set_active_configuration, get_active_configuration,
}
use usbproxy_legacy.Manager.{
  Plugin, OwnedEndpoint, Side, device_side, host_side, Slot, Port, Manager, Event, claim_interface,
  set_endpoint_interface, set_config, record_events, elements, empty_slot,
}
use usbproxy_legacy.Manager.Stop.{each_interface}
use usbproxy_legacy.Manager.Control.{attach}

abbrev pub empty_port : Port
empty_port = record { in_slot = empty_slot; out_slot = empty_slot }

-- The endpoints in the order of the three loops, with the interface of each. A null pointer is
-- followed.
endpoints_from : Interface → ℕ → ℕ → Parsed (List OwnedEndpoint)
endpoints_from i zero k = ok []
endpoints_from i (suc n) k = elim (get_endpoint_by_idx i k) [
  | none ↦ null_pointer
  | some e ↦ endpoints_from i n (k + 1) >>= λ es.
      ok (record { descriptor = e; interface = some i.descriptor } ∷ es)
]

alternates_from : Configuration → ℕ → ℕ → ℕ → Parsed (List OwnedEndpoint)
unfolding endpoints_from
alternates_from c number zero k = ok []
alternates_from c number (suc n) k = elim (get_interface_alternate c number k) [
  | none ↦ null_pointer
  | some i ↦ endpoints_from i i.descriptor.b_num_endpoints 0 >>= λ es.
      alternates_from c number n (k + 1) >>= λ fs. ok (es ++ fs)
]

interfaces_from : Configuration → ℕ → ℕ → Parsed (List OwnedEndpoint)
unfolding alternates_from
interfaces_from c zero k = ok []
interfaces_from c (suc n) k = alternates_from c k (get_interface_alternate_count c k) 0 >>= λ es.
    interfaces_from c n (k + 1) >>= λ fs. ok (es ++ fs)

unfoldable pub endpoints_of : Configuration → Parsed (List OwnedEndpoint)
unfolding interfaces_from
endpoints_of c = interfaces_from c c.descriptor.b_num_interfaces 0

abbrev pub is_isochronous : OwnedEndpoint → Bool
is_isochronous e = bit_and e.descriptor.bm_attributes 3 == 1

abbrev pub is_in : OwnedEndpoint → Bool
is_in e = has_bits e.descriptor.b_endpoint_address 0x80

abbrev pub number_of : OwnedEndpoint → ℕ
number_of e = bit_and e.descriptor.b_endpoint_address 15

abbrev pub put_endpoint : OwnedEndpoint → Slot → Slot
put_endpoint e s = record s { endpoint = some e; queue = true }

abbrev pub put_port : OwnedEndpoint → Port → Port
put_port e p =
    if is_in e
    then record p { in_slot = put_endpoint e p.in_slot }
    else record p { out_slot = put_endpoint e p.out_slot }

-- The arrays after the body of the innermost loop, and the call that it makes.
unfoldable pub place : OwnedEndpoint → List Port → List Port
place e ports =
    if is_isochronous e
    then ports
    else set ports (number_of e) (put_port e (get_or ports (number_of e) empty_port))

interface_number : Option InterfaceDescriptor → ℕ
interface_number none = 0
interface_number (some d) = d.b_interface_number

place_call : OwnedEndpoint → List Event
unfolding interface_number
place_call e =
    if is_isochronous e
    then []
    else set_endpoint_interface e.descriptor.b_endpoint_address (interface_number e.interface) ∷ []

unfoldable pub place_all : List OwnedEndpoint → List Port → List Port
unfolding place
place_all [] ports = ports
place_all (e ∷ es) ports = place_all es (place e ports)

place_calls : List OwnedEndpoint → List Event
unfolding place_call
place_calls [] = []
place_calls (e ∷ es) = place_call e ++ place_calls es

-- The loops from 1 to 15.
abbrev pub behind_first : (Port → Port) → List Port → List Port
behind_first f [] = []
behind_first f (p ∷ ps) = p ∷ map f ps

-- New relayers from `source` to `sink`, where there is an endpoint.
unfoldable pub new_relayers : Side → Side → Slot → Slot
new_relayers source sink s = elim s.endpoint [
  | none ↦ s
  | some e ↦ record s {
    reader = some (e, source);
    writer = some (record { endpoint = e; proxy = sink; filters = [] });
  }
]

abbrev pub port_relayers : Port → Port
port_relayers p = record {
  in_slot = new_relayers device_side host_side p.in_slot;
  out_slot = new_relayers host_side device_side p.out_slot;
}

test_owner : Plugin → Option InterfaceDescriptor → Bool
test_owner f none = false
test_owner f (some i) = test_interface f.interface i

pub accepts : Plugin → OwnedEndpoint → Bool
unfolding test_owner
accepts f e = test_endpoint f.endpoint e.descriptor && test_owner f e.interface

unfoldable pub attach_if : Plugin → Slot → Slot
unfolding accepts
attach_if f s = elim s.endpoint [ none ↦ s | some e ↦ if accepts f e then attach f s else s ]

abbrev pub attach_port : Plugin → Port → Port
attach_port f p = record { in_slot = attach_if f p.in_slot; out_slot = attach_if f p.out_slot }

pub selects : Device → Configuration → Plugin → Bool
selects d c f = test_device f.device d.descriptor && test_configuration f.configuration c.descriptor

unfoldable pub attach_all : Device → Configuration → List Plugin → List Port → List Port
unfolding selects attach_if
attach_all d c [] ports = ports
attach_all d c (f ∷ fs) ports =
    attach_all d c fs (if selects d c f then behind_first (attach_port f) ports else ports)

-- Threads for the relayers of a slot. To assign to a thread that still runs ends the program.
unfoldable pub run_slot : Slot → Parsed Slot
run_slot s =
    if is_given s.reader && s.reader_thread || is_given s.writer && s.writer_thread
    then failed
    else ok (record s {
      reader_thread = s.reader_thread || is_given s.reader;
      writer_thread = s.writer_thread || is_given s.writer;
    })

unfoldable pub run_ports : List Port → Parsed (List Port)
unfolding run_slot
run_ports [] = ok []
run_ports (p ∷ ps) = run_slot p.in_slot >>= λ i. run_slot p.out_slot >>= λ o.
    run_ports ps >>= λ qs. ok (record { in_slot = i; out_slot = o } ∷ qs)

unfoldable pub run_behind_first : List Port → Parsed (List Port)
unfolding run_ports
run_behind_first [] = ok []
run_behind_first (p ∷ ps) = run_ports ps >>= λ qs. ok (p ∷ qs)

-- The ports before the threads start. What is done for the injectors is commented out.
unfoldable pub prepared :
    Device → Configuration → List Plugin → List OwnedEndpoint → List Port → List Port
unfolding place_all attach_all new_relayers
prepared d c filters es ports =
    attach_all d c filters (behind_first port_relayers (place_all es ports))

-- With a device and a configuration; a null pointer to one is followed.
unfoldable pub relay_data : Device → Configuration → Manager → Parsed Manager
unfolding endpoints_of place_calls prepared run_behind_first
relay_data d c m = endpoints_of c >>= λ es.
    run_behind_first (prepared d c (elements m.filters m.filter_count) es m.ports) >>= λ ports.
    ok
      (record (record_events m
        (place_calls es ++ each_interface claim_interface 0 c.descriptor.b_num_interfaces)) {
          ports = ports;
        })

unfoldable pub start_data_relaying : Manager → Parsed Manager
unfolding relay_data
start_data_relaying m = elim m.device [
  | none ↦ null_pointer
  | some d ↦ elim (get_active_configuration d) [ none ↦ null_pointer | some c ↦ relay_data d c m ]
]

-- What the proxies are told: the configurations for full and for high speed, and the speed.
config_calls : Device → ℕ → Bool → List Event
unfolding DeviceQualifier.get_configuration
config_calls d index high_speed =
    let own = get_configuration d index in
    let tell = λ (fs hs : Option Configuration) (speed : Bool).
      set_config fs hs speed device_side ∷ set_config fs hs speed host_side ∷ [] in
    elim d.qualifier [
      | none ↦ tell own none high_speed
      | some q ↦
          if high_speed
          then tell (DeviceQualifier.get_configuration q index) own true
          else tell own (DeviceQualifier.get_configuration q index) false
    ]

-- `high_speed` is `device->is_highspeed()`.
set_configuration : Manager → ℕ → Bool → Parsed Manager
unfolding config_calls start_data_relaying
set_configuration m index high_speed = elim m.device [
  | none ↦ null_pointer
  | some d ↦
      let chosen = set_active_configuration d index in
      start_data_relaying
        (record_events (record m { device = some chosen }) (config_calls chosen index high_speed))
]

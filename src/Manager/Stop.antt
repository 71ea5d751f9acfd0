-- ===== src/Manager/Stop.antt =====
-- src/lib/Manager.cpp: stop_relaying. The threads that are asked to stop do so: a `join` returns.
use usbproxy_legacy.Prelude.{
  is_given, ℕ, zero, suc, ◌+◌, Bool, true, ◌&&◌, ◌||◌, not, Option, none, some, List, [], ◌∷◌, ◌++◌,
  if◌then◌else◌, map,
}
use usbproxy_legacy.Usb.Interface.{Parsed, ok, null_pointer, ◌>>=◌}
use usbproxy_legacy.Usb.Device.{Device, get_active_configuration}
use usbproxy_legacy.Manager.{
  idle, setting_up, relaying, stopping, setup_abort, resetting, Plugin, Slot, Port, Manager, Event,
  please_stop, delete_endpoint, release_interface, disconnect_host, disconnect_device,
  record_events, elements,
}

-- A thread is asked to stop through the object that it runs, which must be there.
unfoldable pub slot_stops : Slot → Bool
slot_stops s =
    (not s.reader_thread || is_given s.reader) && (not s.writer_thread || is_given s.writer)

unfoldable pub ports_stop : List Port → Bool
unfolding slot_stops
ports_stop [] = true
ports_stop (p ∷ ps) = slot_stops p.in_slot && slot_stops p.out_slot && ports_stop ps

-- A thread is joined if its object is there; the object is deleted.
unfoldable pub clear_slot : Slot → Slot
clear_slot s = record s {
  endpoint = none;
  reader = none;
  writer = none;
  reader_thread = s.reader_thread && not (is_given s.reader);
  writer_thread = s.writer_thread && not (is_given s.writer);
}

unfoldable pub clear_port : Port → Port
unfolding clear_slot
clear_port p = record { in_slot = clear_slot p.in_slot; out_slot = clear_slot p.out_slot }

-- Endpoint 0, if the loop has left it.
delete_first : List Port → List Event
delete_first [] = []
delete_first (p ∷ ps) = if is_given p.out_slot.endpoint then delete_endpoint ∷ [] else []

-- The loops `for (i=0;i<n;i++)` that claim and release interfaces; `i` is the next one.
abbrev pub each_interface : (ℕ → Event) → ℕ → ℕ → List Event
each_interface e i zero = []
each_interface e i (suc n) = e i ∷ each_interface e (i + 1) n

unfoldable pub interface_count : Device → Parsed ℕ
interface_count d = elim (get_active_configuration d) [
  | none ↦ null_pointer
  | some c ↦ ok (c.descriptor.b_num_interfaces)
]

unfoldable pub release : Option Device → Parsed (List Event)
unfolding interface_count
release none = ok []
release (some d) = interface_count d >>= λ n. ok (each_interface release_interface 0 n)

stop_events : List Plugin → List Event
stop_events [] = []
stop_events (p ∷ ps) = please_stop p.name ∷ stop_events ps

-- From `status=USBM_STOPPING` on.
unfoldable pub teardown : Manager → Parsed Manager
unfolding ports_stop clear_port delete_first release stop_events
teardown m =
    if not (ports_stop m.ports)
    then null_pointer
    else (release m.device >>= λ released.
        let ports = map clear_port m.ports in
        ok
          (record (record_events m (
            stop_events (elements m.injectors m.injector_count)
            ++ delete_first ports
            ++ released
            ++ (disconnect_host ∷ disconnect_device ∷ []))) {
              status = idle;
              device = none;
              injector_threads = [];
              ports = ports;
            }))

unfoldable pub stop_relaying : Manager → Parsed Manager
unfolding teardown
stop_relaying m = elim m.status [
  | setting_up ↦ ok (record m { status = setup_abort })
  | relaying ↦ teardown m
  | setup_abort ↦ teardown m
  | idle ↦ ok m
  | stopping ↦ ok m
  | resetting ↦ ok m
]

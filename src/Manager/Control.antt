-- ===== src/Manager/Control.antt =====
-- src/lib/Manager.cpp: start_control_relaying. Each test of `status` is a look, which may find that
-- another thread has called stop_relaying.
use usbproxy_legacy.Prelude.{
  ℕ, zero, suc, ◌+◌, Bool, true, ◌&&◌, none, some, List, [], ◌∷◌, ◌++◌, ◌/=◌, if◌then◌else◌,
}
use usbproxy_legacy.Criteria.{test_device, test_endpoint}
use usbproxy_legacy.Usb.Interface.{Parsed, ok, no_fuel, ◌>>=◌}
use usbproxy_legacy.Usb.Device.{Device}
use usbproxy_legacy.Manager.{
  idle, setting_up, relaying, setup_abort, Plugin, OwnedEndpoint, device_side, host_side, Slot,
  Port, Manager, Event, connect_device, connect_host, claim_interface, listen, is_setup, look,
  record_events, elements,
}
use usbproxy_legacy.Manager.Stop.{stop_relaying, interface_count, each_interface}

-- `if (status!=USBM_SETUP) {stop_relaying();return;}` before the rest.
unfoldable pub unless_stopped : Manager → (Manager → Parsed Manager) → Parsed Manager
unfolding stop_relaying
unless_stopped m rest = if is_setup ((look m).status) then rest (look m) else stop_relaying (look m)

-- `ETIMEDOUT`.
abbrev pub timed_out : ℕ
timed_out = 110

-- `rc=connect(); while (rc==ETIMEDOUT && status==USBM_SETUP) rc=connect();`, from the call with
-- number `k` on. `rc k` is what this call returns.
unfoldable pub connect : Event → (ℕ → ℕ) → ℕ → ℕ → Manager → Parsed (ℕ × Manager)
connect e rc zero k m = no_fuel
connect e rc (suc n) k m =
    let called = record_events m (e ∷ []) in
    let again = connect e rc n (k + 1) (look called) in
    if rc k /= timed_out
    then ok (rc k, called)
    else if is_setup ((look called).status)
    then again
    else ok (rc k, look called)

-- The endpoint object of endpoint 0.
abbrev pub endpoint_zero : Device → OwnedEndpoint
endpoint_zero d = record {
  descriptor = record {
    b_length = 7;
    b_descriptor_type = 5;
    b_endpoint_address = 0;
    bm_attributes = 0;
    w_max_packet_size = d.descriptor.b_max_packet_size0;
    b_interval = 0;
  };
  interface = none;
}

-- The output side of endpoint 0 is changed.
abbrev pub change_first : (Slot → Slot) → List Port → List Port
change_first f [] = []
change_first f (p ∷ ps) = record p { out_slot = f p.out_slot } ∷ ps

abbrev pub change_zero : Manager → (Slot → Slot) → Manager
change_zero m f = record m { ports = change_first f m.ports }

abbrev pub set_endpoint : OwnedEndpoint → Slot → Slot
set_endpoint e s = record s { endpoint = some e }

abbrev pub set_relayers : OwnedEndpoint → Slot → Slot
set_relayers e s = record s {
  reader = some (e, host_side);
  writer = some (record { endpoint = e; proxy = device_side; filters = [] });
}

abbrev pub attach : Plugin → Slot → Slot
attach f s = record s {
  writer = elim s.writer [
    | none ↦ none
    | some w ↦ some (record w { filters = w.filters ++ (f ∷ []) })
  ];
}

pub accepts_zero : Device → Plugin → Bool
accepts_zero d f =
    test_device f.device d.descriptor && test_endpoint f.endpoint (endpoint_zero d).descriptor

abbrev pub attach_zero : Device → Plugin → Manager → Manager
attach_zero d f m = if accepts_zero d f then change_zero m (attach f) else m

unfoldable pub apply_filters :
    Device → List Plugin → Manager → (Manager → Parsed Manager) → Parsed Manager
unfolding unless_stopped
apply_filters d [] m rest = rest m
apply_filters d (f ∷ fs) m rest =
    unless_stopped m (λ m'. apply_filters d fs (attach_zero d f m') rest)

-- What is done for an injector is commented out.
unfoldable pub apply_injectors : List Plugin → Manager → (Manager → Parsed Manager) → Parsed Manager
unfolding unless_stopped
apply_injectors [] m rest = rest m
apply_injectors (p ∷ ps) m rest = unless_stopped m (λ m'. apply_injectors ps m' rest)

abbrev pub start_injector : Plugin → Manager → Manager
start_injector p m = record (record_events m (listen p.name ∷ [])) {
  injector_threads = m.injector_threads ++ (p ∷ []);
}

unfoldable pub start_injectors : List Plugin → Manager → (Manager → Parsed Manager) → Parsed Manager
unfolding unless_stopped
start_injectors [] m rest = rest m
start_injectors (p ∷ ps) m rest =
    unless_stopped m (λ m'. start_injectors ps (start_injector p m') rest)

abbrev pub run_reader : Slot → Slot
run_reader s = record s { reader_thread = true }

abbrev pub run_writer : Slot → Slot
run_writer s = record s { writer_thread = true }

-- A stop between the last test and the last assignment is overwritten.
unfoldable pub start_threads : Manager → Parsed Manager
unfolding unless_stopped
start_threads m =
    let reading = look (change_zero m run_reader) in
    if is_setup reading.status
    then unless_stopped (change_zero reading run_writer)
        (λ m'. ok (record (look m') { status = relaying }))
    else stop_relaying (record reading { status = setup_abort })

-- From the connection to the host on.
unfoldable pub connect_to_host : ℕ → (ℕ → ℕ) → Manager → Parsed Manager
unfolding connect start_threads stop_relaying
connect_to_host n rc m = connect connect_host rc n 0 m >>= λ r.
    if r.0 /= 0 then stop_relaying (record (r.1) { status = setup_abort }) else start_threads (r.1)

-- From the connection to the device on; `loaded` is what `new Device(deviceProxy)` comes to.
unfoldable pub set_up : ℕ → (ℕ → ℕ) → Device → Manager → Parsed Manager
unfolding interface_count apply_filters apply_injectors start_injectors connect_to_host
    unless_stopped
set_up n host_rc d m = interface_count d >>= λ count.
    let claimed =
      record_events (record m { device = some d }) (each_interface claim_interface 0 count) in
    let injectors = elements m.injectors m.injector_count in
    let e = endpoint_zero d in
    unless_stopped claimed (λ m0. unless_stopped (change_zero m0 (set_endpoint e)) (λ m1.
      apply_filters d (elements m.filters m.filter_count) (change_zero m1 (set_relayers e)) (λ m2.
        apply_injectors injectors m2
          (λ m3. start_injectors injectors m3 (connect_to_host n host_rc)))))

unfoldable pub start_control_relaying :
    ℕ → (ℕ → ℕ) → (ℕ → ℕ) → Parsed Device → Manager → Parsed Manager
unfolding connect set_up
start_control_relaying n device_rc host_rc loaded m =
    connect connect_device device_rc n 0 (record m { status = setting_up }) >>= λ r.
    if r.0 /= 0
    then ok (record (r.1) { status = idle })
    else (loaded >>= λ d. set_up n host_rc d (r.1))

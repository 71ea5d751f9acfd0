-- ===== src/Manager/Started.antt =====
-- src/lib/Manager.cpp: every way through start_control_relaying.
use usbproxy_legacy.Prelude.{
  ℕ, ◌<◌, ◌≡◌, ◌≢◌, ◌⊎◌, inl, inr, refl, ap, ◌∙◌, sym, Bool, true, false, none, some, List, [], ◌∷◌,
  ◌/=◌, Bool-cases, arith,
}
use mathlib.Core.Path.{subst}
use usbproxy_legacy.Usb.Interface.{ok}
use usbproxy_legacy.Usb.Device.{Device}
use usbproxy_legacy.Manager.{
  Status, idle, setting_up, relaying, setup_abort, Plugin, Slot, Port, Manager, connect_host,
  connect_device, OwnedEndpoint, look, is_setup, elements, record_events, claim_interface,
}
use usbproxy_legacy.Manager.Stop.{
  slot_stops, ports_stop, stop_relaying, interface_count, each_interface,
}
use usbproxy_legacy.Manager.Control.{
  unless_stopped, timed_out, endpoint_zero, accepts_zero, apply_filters, apply_injectors,
  start_injectors, start_threads, connect_to_host, set_up, start_control_relaying, change_zero,
  change_first, run_reader, run_writer, set_relayers, set_endpoint,
}
use usbproxy_legacy.Manager.Outcome.{Returns, IsIdle, is_clear, all_clear}
use usbproxy_legacy.Manager.Steps.{
  accepted_by, zero_slot, with_zero, InState, clear-stops, all_clear-ports_stop, look-cases,
  connect-Returns, stop-IsIdle, unless_stopped-Returns, apply_filters-Returns,
  apply_injectors-Returns, start_injectors-Returns,
}

module _ (d : Device) (count : ℕ) (counted : interface_count d ≡ ok count) (P : Manager → Type 0)
    (on_idle : (m : Manager) → IsIdle m → P m) where
  start_threads-Returns :
      (p : Port) (ps : List Port) (js fs : List Plugin) (m : Manager)
      → let zero_ports =
          λ (reading writing : Bool). with_zero p ps (endpoint_zero d) fs reading writing in
        InState setting_up (some d) (zero_ports false false) js m
        → ((reading writing : Bool) → ports_stop (zero_ports reading writing) ≡ true)
        → ((m' : Manager) → InState relaying (some d) (zero_ports true true) js m' → P m')
        → Returns P (start_threads m)
  unfolding start_threads
  start_threads-Returns p ps js fs m h stoppable started =
      let m0 = change_zero m run_reader in
      let ports : m0.ports ≡ with_zero p ps (endpoint_zero d) fs true false =
        ap (change_first run_reader) h.ports in
      elim (look-cases m0 h.status) [
        | inl l ↦ rw (ap is_setup l) (
            unless_stopped-Returns d count counted P on_idle
              (with_zero p ps (endpoint_zero d) fs true true) js (change_zero (look m0) run_writer)
              (λ m'. ok (record (look m') { status = relaying }))
              (record {
                status = l;
                device = h.device;
                threads = h.threads;
                ports = ap (change_first run_writer) ports;
              })
              (stoppable true true)
              (λ m' h'.
                started (record (look m') { status = relaying })
                  (record {
                    status = refl;
                    device = h'.device;
                    threads = h'.threads;
                    ports = h'.ports;
                  })))
        | inr l ↦ rw (ap is_setup l) (
            stop-IsIdle d count counted P on_idle (record (look m0) { status = setup_abort }) refl
              h.device (ap ports_stop ports ∙ stoppable true false))
      ]

  connect_to_host-Returns :
      (p : Port) (ps : List Port) (js fs : List Plugin) (n j : ℕ) (rc : ℕ → ℕ) (m : Manager)
      → let zero_ports =
          λ (reading writing : Bool). with_zero p ps (endpoint_zero d) fs reading writing in
        j < n
        → rc j ≢ timed_out
        → InState setting_up (some d) (zero_ports false false) js m
        → ((reading writing : Bool) → ports_stop (zero_ports reading writing) ≡ true)
        → ((m' : Manager) → InState relaying (some d) (zero_ports true true) js m' → P m')
        → Returns P (connect_to_host n rc m)
  unfolding connect_to_host
  connect_to_host-Returns p ps js fs n j rc m less answers h stoppable started =
      let before = with_zero p ps (endpoint_zero d) fs false false in
      let give_up : (m' : Manager)
          → m'.device ≡ some d
          → m'.ports ≡ before
          → Returns P (stop_relaying (record m' { status = setup_abort })) =
        λ m' has same.
          stop-IsIdle d count counted P on_idle (record m' { status = setup_abort }) refl has
            (ap ports_stop same ∙ stoppable false false) in
      connect-Returns P connect_host rc n 0 j m _ (some d) before js (omega arith) (omega arith)
        answers h
        (λ c m' h' kept. elim (Bool-cases (c /= 0)) [
          | inl e ↦ rw e (give_up m' h'.device h'.ports)
          | inr e ↦ rw e (start_threads-Returns p ps js fs m' h' stoppable started)
        ])
        (λ m' h'. give_up m' h'.device h'.ports)

relayers-zero_slot :
    (s : Slot) (e : OwnedEndpoint)
    → is_clear s ≡ true
    → set_relayers e (set_endpoint e s) ≡ zero_slot s e [] false false
relayers-zero_slot s e clear =
    let no_reader : s.reader_thread ≡ false = ground arith in
    let no_writer : s.writer_thread ≡ false = ground arith in
    ap (λ r. zero_slot s e [] r s.writer_thread) no_reader
    ∙ ap (λ w. zero_slot s e [] false w) no_writer

with_zero-stops :
    (p : Port) (ps : List Port) (e : OwnedEndpoint) (fs : List Plugin) (reading writing : Bool)
    → all_clear (p ∷ ps) ≡ true
    → ports_stop (with_zero p ps e fs reading writing) ≡ true
unfolding ports_stop slot_stops
with_zero-stops p ps e fs reading writing clear =
    ground (arith, clear-stops p.in_slot, all_clear-ports_stop ps)

set_endpoint-stops :
    (p : Port) (ps : List Port) (e : OwnedEndpoint)
    → all_clear (p ∷ ps) ≡ true
    → ports_stop (change_first (set_endpoint e) (p ∷ ps)) ≡ true
unfolding ports_stop slot_stops
set_endpoint-stops p ps e clear =
    ground (arith, clear-stops p.in_slot, clear-stops p.out_slot, all_clear-ports_stop ps)

relayers-with_zero :
    (p : Port) (ps : List Port) (e : OwnedEndpoint)
    → all_clear (p ∷ ps) ≡ true
    → change_first (set_relayers e) (change_first (set_endpoint e) (p ∷ ps))
      ≡ with_zero p ps e [] false false
relayers-with_zero p ps e clear =
    let cleared : is_clear p.out_slot ≡ true = ground arith in
    ap (λ s. record p { out_slot = s } ∷ ps) (relayers-zero_slot p.out_slot e cleared)

-- How start_control_relaying ends with filters `fs` and injectors `js`.
abbrev pub Ended : Device → List Plugin → List Plugin → Port → List Port → Manager → Type 0
Ended d fs js p ps m =
    IsIdle m
    ⊎ InState relaying (some d)
        (with_zero p ps (endpoint_zero d) (accepted_by (accepts_zero d) fs) true true) js m

-- From the injectors on.
injectors-Returns :
    (d : Device) (count n j : ℕ) (rc : ℕ → ℕ) (m : Manager) (p : Port) (ps : List Port)
    (fs js : List Plugin)
    → interface_count d ≡ ok count
    → j < n
    → rc j ≢ timed_out
    → all_clear (p ∷ ps) ≡ true
    → InState setting_up
        (some d)
        (with_zero p ps (endpoint_zero d) (accepted_by (accepts_zero d) fs) false false)
        []
        m
    → Returns
        (Ended d fs js p ps)
        (apply_injectors js m (λ m3. start_injectors js m3 (connect_to_host n rc)))
injectors-Returns d count n j rc m p ps fs js counted less answers clear h =
    let accepted = accepted_by (accepts_zero d) fs in
    let P = Ended d fs js p ps in
    let on_idle : (m' : Manager) → IsIdle m' → P m' = λ m' idled. inl idled in
    let before = with_zero p ps (endpoint_zero d) accepted false false in
    let stops = λ (r w : Bool). with_zero-stops p ps (endpoint_zero d) accepted r w clear in
    apply_injectors-Returns d count counted P on_idle before [] js m
      (λ m3. start_injectors js m3 (connect_to_host n rc)) h (stops false false)
      (λ m3 h3.
        start_injectors-Returns d count counted P on_idle before [] js m3 (connect_to_host n rc) h3
          (stops false false)
          (λ m4 h4.
            connect_to_host-Returns d count counted P on_idle p ps js accepted n j rc m4 less
              answers h4 stops (λ m' h'. inr h')))

set_up-Returns :
    (d : Device) (count n j : ℕ) (rc : ℕ → ℕ) (m : Manager) (p : Port) (ps : List Port)
    → interface_count d ≡ ok count
    → j < n
    → rc j ≢ timed_out
    → all_clear (p ∷ ps) ≡ true
    → InState setting_up none (p ∷ ps) [] m
    → let fs = elements m.filters m.filter_count in
      let js = elements m.injectors m.injector_count in
      Returns (Ended d fs js p ps) (set_up n rc d m)
unfolding set_up
set_up-Returns d count n j rc m p ps counted less answers clear h =
    let fs = elements m.filters m.filter_count in
    let js = elements m.injectors m.injector_count in
    let e = endpoint_zero d in
    let P = Ended d fs js p ps in
    let on_idle : (m' : Manager) → IsIdle m' → P m' = λ m' idled. inl idled in
    let claimed =
      record_events (record m { device = some d }) (each_interface claim_interface 0 count) in
    let rest2 = λ (m2 : Manager).
      apply_injectors js m2 (λ m3. start_injectors js m3 (connect_to_host n rc)) in
    let rest1 = λ (m1 : Manager). apply_filters d fs (change_zero m1 (set_relayers e)) rest2 in
    rw counted (
      unless_stopped-Returns d count counted P on_idle (p ∷ ps) [] claimed
        (λ m0. unless_stopped (change_zero m0 (set_endpoint e)) rest1)
        (record { status = h.status; device = refl; threads = h.threads; ports = h.ports })
        (all_clear-ports_stop (p ∷ ps) clear)
        (λ m0 h0.
          unless_stopped-Returns d count counted P on_idle (change_first (set_endpoint e) (p ∷ ps))
            [] (change_zero m0 (set_endpoint e)) rest1
            (record {
              status = h0.status;
              device = h0.device;
              threads = h0.threads;
              ports = ap (change_first (set_endpoint e)) h0.ports;
            })
            (set_endpoint-stops p ps e clear)
            (λ m1 h1.
              apply_filters-Returns d count counted P on_idle p ps [] [] fs
                (change_zero m1 (set_relayers e)) rest2
                (record {
                  status = h1.status;
                  device = h1.device;
                  threads = h1.threads;
                  ports =
                      ap (change_first (set_relayers e)) h1.ports ∙ relayers-with_zero p ps e clear;
                })
                (λ l. with_zero-stops p ps e l false false clear)
                (λ m2 h2.
                  injectors-Returns d count n j rc m2 p ps fs js counted less answers clear h2))))

-- A start with the manager idle returns, whenever another thread stops it meanwhile, if the proxies
-- answer at some time, within the fuel, and the device can be read and has an active configuration.
-- It leaves the manager idle again, with every endpoint, relayer, thread and the device gone, or it leaves it
-- relaying: then endpoint 0 has a reader from the host and a writer to the device, both running,
-- the writer has exactly the filters that accept the device and endpoint 0, in order, and the
-- thread of each injector runs.
pub start_control_relaying-Returns :
    (d : Device) (count n i j : ℕ) (device_rc host_rc : ℕ → ℕ) (m : Manager) (p : Port)
    (ps : List Port)
    → interface_count d ≡ ok count
    → i < n
    → device_rc i ≢ timed_out
    → j < n
    → host_rc j ≢ timed_out
    → IsIdle m
    → m.ports ≡ p ∷ ps
    → let fs = elements m.filters m.filter_count in
      let js = elements m.injectors m.injector_count in
      Returns (Ended d fs js p ps) (start_control_relaying n device_rc host_rc (ok d) m)
unfolding start_control_relaying
start_control_relaying-Returns d count n i j device_rc host_rc m p ps counted li ai lj aj h first =
    let fs = elements m.filters m.filter_count in
    let js = elements m.injectors m.injector_count in
    let clear : all_clear (p ∷ ps) ≡ true = sym (ap all_clear first) ∙ h.ports in
    let idled : (s : Status)
        → (m' : Manager) → InState s none (p ∷ ps) [] m'
        → IsIdle (record m' { status = idle }) =
      λ s m' h'. record {
        status = refl;
        device = h'.device;
        threads = h'.threads;
        ports = ap all_clear h'.ports ∙ clear;
      } in
    connect-Returns (Ended d fs js p ps) connect_device device_rc n 0 i
      (record m { status = setting_up }) _ none (p ∷ ps) [] (omega arith) (omega arith) ai
      (record { status = refl; device = h.device; threads = h.threads; ports = first })
      (λ c m' h' kept. elim (Bool-cases (c /= 0)) [
        | inl e ↦ rw e (inl (idled setting_up m' h'))
        | inr e ↦ rw e (
            subst (λ l. Returns (Ended d l js p ps) (set_up n host_rc d m')) kept.filters
              (subst
                (λ l.
                  Returns (Ended d (elements m'.filters m'.filter_count) l p ps)
                    (set_up n host_rc d m'))
                kept.injectors (set_up-Returns d count n j host_rc m' p ps counted lj aj clear h')))
      ])
      (λ m' h'. inl (idled setup_abort m' h'))

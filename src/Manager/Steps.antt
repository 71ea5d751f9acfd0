-- ===== src/Manager/Steps.antt =====
-- src/lib/Manager.cpp: the looks at `status`, the connection loops and the loops over plugins in
-- start_control_relaying, each with what it passes on.
use usbproxy_legacy.Prelude.{
  ℕ, zero, suc, ◌+◌, ◌<◌, ◌≤◌, ◌≡◌, ◌≢◌, ◌⊎◌, inl, inr, refl, ap, ◌∙◌, sym, Bool, true, false,
  Option, some, List, [], ◌∷◌, ◌++◌, ◌/=◌, if◌then◌else◌, Bool-cases, arith, append_assoc,
  append-nil,
}
use mathlib.Core.Path.{subst}
use usbproxy_legacy.Usb.Interface.{Parsed, ok, ◌>>=◌}
use usbproxy_legacy.Usb.Device.{Device}
use usbproxy_legacy.Manager.{
  Status, setting_up, setup_abort, Plugin, Slot, Port, Manager, OwnedEndpoint, host_side,
  device_side, Event, look, is_setup, interrupt, elements, record_events, release_interface,
}
use usbproxy_legacy.Manager.Stop.{
  slot_stops, ports_stop, release, teardown, stop_relaying, interface_count, each_interface,
}
use usbproxy_legacy.Manager.Control.{
  unless_stopped, timed_out, connect, endpoint_zero, accepts_zero, apply_filters, apply_injectors,
  start_injectors, change_zero, change_first, attach, attach_zero, start_injector,
}
use usbproxy_legacy.Manager.Outcome.{
  Returns, IsIdle, is_clear, all_clear, teardown-IsIdle, Returns-map,
}

-- The plugins that a test accepts, in order.
abbrev pub accepted_by : (Plugin → Bool) → List Plugin → List Plugin
accepted_by t [] = []
accepted_by t (f ∷ fs) = if t f then f ∷ accepted_by t fs else accepted_by t fs

-- The output side of endpoint 0 with its relayers and filters.
abbrev pub zero_slot : Slot → OwnedEndpoint → List Plugin → Bool → Bool → Slot
zero_slot s e fs reading writing = record {
  endpoint = some e;
  queue = s.queue;
  reader = some (e, host_side);
  writer = some (record { endpoint = e; proxy = device_side; filters = fs });
  reader_thread = reading;
  writer_thread = writing;
}

abbrev pub with_zero : Port → List Port → OwnedEndpoint → List Plugin → Bool → Bool → List Port
with_zero p ps e fs reading writing =
    record p { out_slot = zero_slot p.out_slot e fs reading writing } ∷ ps

-- The parts of a state that the way through the setup decides.
pub record InState (s : Status) (d : Option Device) (ps : List Port) (js : List Plugin)
    (m : Manager) : Type 0 where
  pub status : m.status ≡ s
  pub device : m.device ≡ d
  pub threads : m.injector_threads ≡ js
  pub ports : m.ports ≡ ps

-- The plugins have stayed.
pub record Keeps (m m' : Manager) : Type 0 where
  pub filters : elements m'.filters m'.filter_count ≡ elements m.filters m.filter_count
  pub injectors : elements m'.injectors m'.injector_count ≡ elements m.injectors m.injector_count

append-accepted_by :
    (t : Plugin → Bool) (done fs : List Plugin) (f : Plugin)
    → t f ≡ true
    → (done ++ (f ∷ [])) ++ accepted_by t fs ≡ done ++ accepted_by t (f ∷ fs)
append-accepted_by t done fs f e = rw e (append_assoc done (f ∷ []) (accepted_by t fs))

accepted_by-rejected :
    (t : Plugin → Bool) (fs : List Plugin) (f : Plugin)
    → t f ≡ false
    → accepted_by t fs ≡ accepted_by t (f ∷ fs)
accepted_by-rejected t fs f e = rw e refl

pub clear-stops : (s : Slot) → is_clear s ≡ true → slot_stops s ≡ true
unfolding slot_stops
clear-stops s h = ground arith

pub all_clear-ports_stop : (ps : List Port) → all_clear ps ≡ true → ports_stop ps ≡ true
unfolding ports_stop
all_clear-ports_stop [] h = refl
all_clear-ports_stop (p ∷ ps) h =
    ground (arith, clear-stops p.in_slot, clear-stops p.out_slot, all_clear-ports_stop ps)

interrupt-cases :
    (bs : List Bool)
    → (interrupt setting_up bs ≡ setting_up) ⊎ (interrupt setting_up bs ≡ setup_abort)
interrupt-cases [] = inl refl
interrupt-cases (true ∷ bs) = inr refl
interrupt-cases (false ∷ bs) = inl refl

pub look-cases :
    (m : Manager)
    → m.status ≡ setting_up
    → ((look m).status ≡ setting_up) ⊎ ((look m).status ≡ setup_abort)
look-cases m h = rw h (interrupt-cases m.stops)

-- The call with number `j`, not before `k`, answers within the `n` rounds. The loop ends in the setup,
-- or with a time-out after a stop.
pub connect-Returns :
    (P : Manager → Type 0) (e : Event) (rc : ℕ → ℕ) (n k j : ℕ) (m : Manager)
    (rest : ℕ × Manager → Parsed Manager) (d : Option Device) (ps : List Port) (js : List Plugin)
    → k ≤ j
    → j < k + n
    → rc j ≢ timed_out
    → InState setting_up d ps js m
    → ((c : ℕ) (m' : Manager)
        → InState setting_up d ps js m'
        → Keeps m m'
        → Returns P (rest (c, m')))
    → ((m' : Manager) → InState setup_abort d ps js m' → Returns P (rest (timed_out, m')))
    → Returns P (connect e rc n k m >>= rest)
unfolding connect
connect-Returns P e rc zero k j m rest d ps js first less answers h go stop = absurd (omega arith)
connect-Returns P e rc (suc n) k j m rest d ps js first less answers h go stop =
    let called = record_events m (e ∷ []) in
    let still : InState setting_up d ps js called = record {
      status = h.status;
      device = h.device;
      threads = h.threads;
      ports = h.ports;
    } in
    elim (Bool-cases (rc k /= timed_out)) [
      | inl t ↦ rw t (go (rc k) called still (record { filters = refl; injectors = refl }))
      | inr t ↦
          let same : rc k ≡ timed_out = ground arith in
          let later : j ≢ k = λ q. answers (ap rc q ∙ same) in
          rw t (elim (look-cases called h.status) [
            | inl l ↦ rw (ap is_setup l) (
                connect-Returns P e rc n (k + 1) j (look called) rest d ps js (omega arith)
                  (omega arith) answers
                  (record { status = l; device = h.device; threads = h.threads; ports = h.ports })
                  (λ c m' h' kept.
                    go c m' h' (record { filters = kept.filters; injectors = kept.injectors }))
                  stop)
            | inr l ↦ rw (ap is_setup l) (
                rw same (
                  stop (look called) (record {
                    status = l;
                    device = h.device;
                    threads = h.threads;
                    ports = h.ports;
                  })))
          ])
    ]

module _ (d : Device) (count : ℕ) (counted : interface_count d ≡ ok count) (P : Manager → Type 0)
    (on_idle : (m : Manager) → IsIdle m → P m) where
  pub stop-IsIdle :
      (m : Manager)
      → m.status ≡ setup_abort
      → m.device ≡ some d
      → ports_stop m.ports ≡ true
      → Returns P (stop_relaying m)
  unfolding stop_relaying release
  stop-IsIdle m aborted has stoppable =
      let released : release m.device ≡ ok (each_interface release_interface 0 count) =
        rw has (rw counted refl) in
      rw aborted (
        Returns-map IsIdle P on_idle (teardown m)
          (teardown-IsIdle m (each_interface release_interface 0 count) stoppable released))

  pub unless_stopped-Returns :
      (ps : List Port) (js : List Plugin) (m : Manager) (rest : Manager → Parsed Manager)
      → InState setting_up (some d) ps js m
      → ports_stop ps ≡ true
      → ((m' : Manager) → InState setting_up (some d) ps js m' → Returns P (rest m'))
      → Returns P (unless_stopped m rest)
  unfolding unless_stopped
  unless_stopped-Returns ps js m rest h stoppable go = elim (look-cases m h.status) [
    | inl e ↦ rw (ap is_setup e) (
        go (look m)
          (record { status = e; device = h.device; threads = h.threads; ports = h.ports }))
    | inr e ↦
        rw (ap is_setup e) (stop-IsIdle (look m) e h.device (ap ports_stop h.ports ∙ stoppable))
  ]

  pub apply_filters-Returns :
      (p : Port) (ps : List Port) (js done fs : List Plugin) (m : Manager)
      (rest : Manager → Parsed Manager)
      → let zero_ports = λ (l : List Plugin). with_zero p ps (endpoint_zero d) l false false in
        InState setting_up (some d) (zero_ports done) js m
        → ((l : List Plugin) → ports_stop (zero_ports l) ≡ true)
        → ((m' : Manager)
            → InState setting_up
                (some d)
                (zero_ports (done ++ accepted_by (accepts_zero d) fs))
                js
                m'
            → Returns P (rest m'))
        → Returns P (apply_filters d fs m rest)
  unfolding apply_filters
  apply_filters-Returns p ps js done [] m rest h stoppable go = go m (
      subst (λ l. InState setting_up (some d) (with_zero p ps (endpoint_zero d) l false false) js m)
        (sym (append-nil done)) h)
  apply_filters-Returns p ps js done (f ∷ fs) m rest h stoppable go =
      let before = with_zero p ps (endpoint_zero d) done false false in
      unless_stopped-Returns before js m (λ m'. apply_filters d fs (attach_zero d f m') rest) h
        (stoppable done)
        (λ m' h'. elim (Bool-cases (accepts_zero d f)) [
          | inl e ↦ rw e (
              apply_filters-Returns p ps js (done ++ (f ∷ [])) fs (change_zero m' (attach f)) rest
                (record {
                  status = h'.status;
                  device = h'.device;
                  threads = h'.threads;
                  ports = ap (change_first (attach f)) h'.ports;
                })
                stoppable
                (λ m2 h2. go m2 (
                  subst
                    (λ l.
                      InState setting_up (some d) (with_zero p ps (endpoint_zero d) l false false)
                        js m2)
                    (append-accepted_by (accepts_zero d) done fs f e) h2)))
          | inr e ↦ rw e (
              apply_filters-Returns p ps js done fs m' rest h' stoppable (λ m2 h2. go m2 (
                subst
                  (λ l.
                    InState setting_up (some d)
                      (with_zero p ps (endpoint_zero d) (done ++ l) false false) js m2)
                  (accepted_by-rejected (accepts_zero d) fs f e) h2)))
        ])

  pub apply_injectors-Returns :
      (ps : List Port) (ts js : List Plugin) (m : Manager) (rest : Manager → Parsed Manager)
      → InState setting_up (some d) ps ts m
      → ports_stop ps ≡ true
      → ((m' : Manager) → InState setting_up (some d) ps ts m' → Returns P (rest m'))
      → Returns P (apply_injectors js m rest)
  unfolding apply_injectors
  apply_injectors-Returns ps ts [] m rest h stoppable go = go m h
  apply_injectors-Returns ps ts (j ∷ js) m rest h stoppable go =
      unless_stopped-Returns ps ts m (λ m'. apply_injectors js m' rest) h stoppable
        (λ m' h'. apply_injectors-Returns ps ts js m' rest h' stoppable go)

  pub start_injectors-Returns :
      (ps : List Port) (ts js : List Plugin) (m : Manager) (rest : Manager → Parsed Manager)
      → InState setting_up (some d) ps ts m
      → ports_stop ps ≡ true
      → ((m' : Manager) → InState setting_up (some d) ps (ts ++ js) m' → Returns P (rest m'))
      → Returns P (start_injectors js m rest)
  unfolding start_injectors
  start_injectors-Returns ps ts [] m rest h stoppable go =
      go m (subst (λ l. InState setting_up (some d) ps l m) (sym (append-nil ts)) h)
  start_injectors-Returns ps ts (j ∷ js) m rest h stoppable go =
      unless_stopped-Returns ps ts m (λ m'. start_injectors js (start_injector j m') rest) h
        stoppable
        (λ m' h'.
          start_injectors-Returns ps (ts ++ (j ∷ [])) js (start_injector j m') rest
            (record {
              status = h'.status;
              device = h'.device;
              threads = ap (λ l. l ++ (j ∷ [])) h'.threads;
              ports = h'.ports;
            })
            stoppable
            (λ m2 h2.
              go m2 (
                subst (λ l. InState setting_up (some d) ps l m2) (append_assoc ts (j ∷ []) js) h2)))

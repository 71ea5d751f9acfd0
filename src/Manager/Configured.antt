-- ===== src/Manager/Configured.antt =====
-- src/lib/Manager.cpp: the relayers and threads of all data endpoints after start_data_relaying.
use usbproxy_legacy.Prelude.{
  ℕ, zero, suc, ◌≤◌, ◌≡◌, inl, inr, refl, ap, sym, ◌∙◌, Bool, true, ◌&&◌, none, some, List, [], ◌∷◌,
  get_or, set, length, Bool-cases, arith, map,
}
use usbproxy_legacy.Usb.Interface.{ok, null_pointer}
use usbproxy_legacy.Usb.Configuration.{Configuration}
use usbproxy_legacy.Usb.Device.{Device, get_active_configuration}
use usbproxy_legacy.Manager.{Plugin, OwnedEndpoint, device_side, host_side, Port, Manager, elements}
use usbproxy_legacy.Manager.Data.{
  empty_port, endpoints_of, put_port, is_in, is_isochronous, number_of, place, place_all,
  behind_first, port_relayers, attach_port, selects, attach_all, run_ports, run_behind_first,
  prepared, relay_data, start_data_relaying,
}
use usbproxy_legacy.Manager.Outcome.{Returns, all_clear}
use usbproxy_legacy.Manager.Placed.{
  last_match, goes_in, goes_out, with_endpoint, placed, get_or-place_all, placed-in, placed-out,
}
use usbproxy_legacy.Manager.Attached.{
  relayed, selected, relayed_port, is_unused, attach_slots, run_slot-relayed,
}

abbrev attach_ports : Device → Configuration → List Plugin → Port → Port
attach_ports d c fs p = record {
  in_slot = attach_slots d c fs p.in_slot;
  out_slot = attach_slots d c fs p.out_slot;
}

map-map : (f g : Port → Port) (ps : List Port) → map f (map g ps) ≡ map (λ p. f (g p)) ps
map-map f g [] = refl
map-map f g (p ∷ ps) = ap (◌∷◌ (f (g p))) (map-map f g ps)

attach_all-map :
    (d : Device) (c : Configuration) (fs : List Plugin) (g : Port → Port) (q : Port)
    (qs : List Port)
    → attach_all d c fs (q ∷ map g qs) ≡ q ∷ map (λ p. attach_ports d c fs (g p)) qs
unfolding attach_all
attach_all-map d c [] g q qs = refl
attach_all-map d c (f ∷ fs) g q qs = elim (Bool-cases (selects d c f)) [
  | inl e ↦ rw e (
      ap (λ l. attach_all d c fs (q ∷ l)) (map-map (attach_port f) g qs)
      ∙ attach_all-map d c fs (λ p. attach_port f (g p)) q qs)
  | inr e ↦ rw e (attach_all-map d c fs g q qs)
]

abbrev all_unused : List Port → Bool
all_unused [] = true
all_unused (p ∷ ps) = is_unused p.in_slot && is_unused p.out_slot && all_unused ps

abbrev tail_unused : List Port → Bool
tail_unused [] = true
tail_unused (p ∷ ps) = all_unused ps

all_clear-all_unused : (ps : List Port) → all_clear ps ≡ true → all_unused ps ≡ true
all_clear-all_unused [] h = refl
all_clear-all_unused (p ∷ ps) h = ground (arith, all_clear-all_unused ps)

run_ports-relayed :
    (d : Device) (c : Configuration) (fs : List Plugin) (ps : List Port)
    → all_unused ps ≡ true
    → run_ports (map (λ p. attach_ports d c fs (port_relayers p)) ps)
      ≡ ok (map (relayed_port d c fs) ps)
unfolding run_ports
run_ports-relayed d c fs [] h = refl
run_ports-relayed d c fs (p ∷ ps) h =
    let first : is_unused p.in_slot ≡ true = ground arith in
    let second : is_unused p.out_slot ≡ true = ground arith in
    let rest : all_unused ps ≡ true = ground arith in
    rw
      (
        run_slot-relayed d c device_side host_side fs p.in_slot first,
        run_slot-relayed d c host_side device_side fs p.out_slot second,
        run_ports-relayed d c fs ps rest,
      )
      refl

attach_all-nil : (d : Device) (c : Configuration) (fs : List Plugin) → attach_all d c fs [] ≡ []
unfolding attach_all
attach_all-nil d c [] = refl
attach_all-nil d c (f ∷ fs) = elim (Bool-cases (selects d c f)) [
  | inl e ↦ rw e (attach_all-nil d c fs)
  | inr e ↦ rw e (attach_all-nil d c fs)
]

run_behind_first-relayed :
    (d : Device) (c : Configuration) (fs : List Plugin) (ports : List Port)
    → tail_unused ports ≡ true
    → run_behind_first (attach_all d c fs (behind_first port_relayers ports))
      ≡ ok (behind_first (relayed_port d c fs) ports)
unfolding run_behind_first
run_behind_first-relayed d c fs [] h = rw (attach_all-nil d c fs) refl
run_behind_first-relayed d c fs (p ∷ ps) h =
    rw (attach_all-map d c fs port_relayers p ps, run_ports-relayed d c fs ps h) refl

set-all_unused :
    (ps : List Port) (i : ℕ) (p : Port)
    → all_unused ps ≡ true
    → (is_unused p.in_slot && is_unused p.out_slot) ≡ true
    → all_unused (set ps i p) ≡ true
set-all_unused [] i p h u = refl
set-all_unused (q ∷ ps) zero p h u = ground arith
set-all_unused (q ∷ ps) (suc i) p h u = ground (arith, set-all_unused ps i p)

get_or-is_unused :
    (ps : List Port) (i : ℕ)
    → all_unused ps ≡ true
    → (is_unused (get_or ps i empty_port).in_slot && is_unused (get_or ps i empty_port).out_slot)
      ≡ true
get_or-is_unused [] i h = refl
get_or-is_unused (p ∷ ps) zero h = ground arith
get_or-is_unused (p ∷ ps) (suc i) h = get_or-is_unused ps i (ground arith)

put_port-is_unused :
    (e : OwnedEndpoint) (p : Port)
    → (is_unused p.in_slot && is_unused p.out_slot) ≡ true
    → (is_unused (put_port e p).in_slot && is_unused (put_port e p).out_slot) ≡ true
put_port-is_unused e p h = elim (Bool-cases (is_in e)) [ inl i ↦ rw i h | inr i ↦ rw i h ]

set-tail_unused :
    (e : OwnedEndpoint) (ports : List Port) (n : ℕ)
    → tail_unused ports ≡ true
    → tail_unused (set ports n (put_port e (get_or ports n empty_port))) ≡ true
set-tail_unused e [] n h = refl
set-tail_unused e (p ∷ ps) zero h = h
set-tail_unused e (p ∷ ps) (suc n) h =
    let q = get_or ps n empty_port in
    set-all_unused ps n (put_port e q) h (put_port-is_unused e q (get_or-is_unused ps n h))

place-tail_unused :
    (e : OwnedEndpoint) (ports : List Port)
    → tail_unused ports ≡ true
    → tail_unused (place e ports) ≡ true
unfolding place
place-tail_unused e ports h = elim (Bool-cases (is_isochronous e)) [
  | inl i ↦ rw i h
  | inr i ↦ rw i (set-tail_unused e ports (number_of e) h)
]

place_all-tail_unused :
    (es : List OwnedEndpoint) (ports : List Port)
    → tail_unused ports ≡ true
    → tail_unused (place_all es ports) ≡ true
unfolding place_all
place_all-tail_unused [] ports h = h
place_all-tail_unused (e ∷ es) ports h =
    place_all-tail_unused es (place e ports) (place-tail_unused e ports h)

get_or-map :
    (f : Port → Port) (ps : List Port) (j : ℕ)
    → f empty_port ≡ empty_port
    → get_or (map f ps) j empty_port ≡ f (get_or ps j empty_port)
get_or-map f [] j h = sym h
get_or-map f (p ∷ ps) zero h = refl
get_or-map f (p ∷ ps) (suc j) h = get_or-map f ps j h

get_or-behind_first :
    (f : Port → Port) (ps : List Port) (j : ℕ)
    → f empty_port ≡ empty_port
    → 1 ≤ j
    → get_or (behind_first f ps) j empty_port ≡ f (get_or ps j empty_port)
get_or-behind_first f [] j h pos = sym h
get_or-behind_first f (p ∷ ps) zero h pos = absurd (omega arith)
get_or-behind_first f (p ∷ ps) (suc j) h pos = get_or-map f ps j h

-- What data endpoint `j` comes to, from what it was before.
abbrev pub configured : Device → Configuration → List Plugin → List OwnedEndpoint → ℕ → Port → Port
configured d c fs es j p = record {
  in_slot =
      relayed device_side host_side (selected d c) fs
        (with_endpoint (last_match (goes_in j) es) p.in_slot);
  out_slot =
      relayed host_side device_side (selected d c) fs
        (with_endpoint (last_match (goes_out j) es) p.out_slot);
}

relayed_port-placed :
    (d : Device) (c : Configuration) (fs : List Plugin) (es : List OwnedEndpoint) (j : ℕ) (p : Port)
    → relayed_port d c fs (placed es j p) ≡ configured d c fs es j p
relayed_port-placed d c fs es j p = rw (placed-in es j p, placed-out es j p) refl

start_data_relaying-relay_data :
    (m : Manager) (d : Device) (c : Configuration)
    → m.device ≡ some d
    → get_active_configuration d ≡ some c
    → start_data_relaying m ≡ relay_data d c m
unfolding start_data_relaying
start_data_relaying-relay_data m d c has active =
    ap
      (λ o. elim o [
        | none ↦ null_pointer
        | some e ↦ elim (get_active_configuration e) [
          | none ↦ null_pointer
          | some x ↦ relay_data e x m
        ]
      ])
      has
    ∙ ap (λ o. elim o [ none ↦ null_pointer | some x ↦ relay_data d x m ]) active

relay_data-configured :
    (m : Manager) (d : Device) (c : Configuration) (es : List OwnedEndpoint) (p : Port)
    (ps : List Port)
    → endpoints_of c ≡ ok es
    → m.ports ≡ p ∷ ps
    → length ps ≡ 15
    → all_clear ps ≡ true
    → Returns
        (λ m'.
          (j : ℕ)
          → 1 ≤ j
          → get_or m'.ports j empty_port
            ≡ configured d c
                (elements m.filters m.filter_count)
                es
                j
                (get_or (p ∷ ps) j empty_port))
        (relay_data d c m)
unfolding relay_data prepared
relay_data-configured m d c es p ps known first sized clear =
    let fs = elements m.filters m.filter_count in
    let before = place_all es (p ∷ ps) in
    let ran : run_behind_first (prepared d c fs es m.ports)
        ≡ ok (behind_first (relayed_port d c fs) before) =
      ap (λ l. run_behind_first (prepared d c fs es l)) first
      ∙ run_behind_first-relayed d c fs before
          (place_all-tail_unused es (p ∷ ps) (all_clear-all_unused ps clear)) in
    rw (known, ran)
      (λ j pos.
        get_or-behind_first (relayed_port d c fs) before j refl pos
        ∙ ap (relayed_port d c fs) (get_or-place_all es (p ∷ ps) j (ap suc sized))
        ∙ relayed_port-placed d c fs es j (get_or (p ∷ ps) j empty_port))

-- With the device configured, its endpoints at hand and no relayer yet but those of endpoint 0,
-- start_data_relaying returns, and serves each data endpoint from 1 to 15, in both directions: it
-- keeps the last endpoint of that number and direction that is not isochronous, over all alternate
-- settings of all interfaces; the reader reads from the device for an IN endpoint and from the host
-- for an OUT endpoint, the writer writes to the other side and has exactly the filters whose
-- criteria accept device, configuration, interface and endpoint, in order; both run. Without such
-- an endpoint nothing is set up.
pub start_data_relaying-configured :
    (m : Manager) (d : Device) (c : Configuration) (es : List OwnedEndpoint) (p : Port)
    (ps : List Port)
    → m.device ≡ some d
    → get_active_configuration d ≡ some c
    → endpoints_of c ≡ ok es
    → m.ports ≡ p ∷ ps
    → length ps ≡ 15
    → all_clear ps ≡ true
    → Returns
        (λ m'.
          (j : ℕ)
          → 1 ≤ j
          → get_or m'.ports j empty_port
            ≡ configured d c
                (elements m.filters m.filter_count)
                es
                j
                (get_or (p ∷ ps) j empty_port))
        (start_data_relaying m)
start_data_relaying-configured m d c es p ps has active known first sized clear =
    rw (start_data_relaying-relay_data m d c has active)
      (relay_data-configured m d c es p ps known first sized clear)

-- ===== src/Manager/Outcome.antt =====
-- src/lib/Manager.cpp: how stop_relaying and start_control_relaying end.
use usbproxy_legacy.Prelude.{
  is_given, ◌≡◌, refl, Bool, true, ◌&&◌, not, none, List, [], ◌∷◌, map, arith,
}
use usbproxy_legacy.Usb.Interface.{Parsed, ok, overflow, null_pointer, failed, no_fuel}
use usbproxy_legacy.Manager.{idle, Slot, Port, Manager, Event}
use usbproxy_legacy.Manager.Stop.{slot_stops, ports_stop, clear_slot, clear_port, release, teardown}

-- The code returns, in a state with property `P`.
abbrev pub Returns : (Manager → Type 0) → Parsed Manager → Type 0
Returns P (ok m) = P m
Returns P overflow = ⊥
Returns P null_pointer = ⊥
Returns P failed = ⊥
Returns P no_fuel = ⊥

-- Neither an endpoint nor a relayer nor a thread.
abbrev pub is_clear : Slot → Bool
is_clear s =
    not (is_given s.endpoint)
    && not (is_given s.reader)
    && not (is_given s.writer)
    && not s.reader_thread
    && not s.writer_thread

abbrev pub all_clear : List Port → Bool
all_clear [] = true
all_clear (p ∷ ps) = is_clear p.in_slot && is_clear p.out_slot && all_clear ps

pub record IsIdle (m : Manager) : Type 0 where
  pub status : m.status ≡ idle
  pub device : m.device ≡ none
  pub threads : m.injector_threads ≡ []
  pub ports : all_clear m.ports ≡ true

clear_slot-is_clear : (s : Slot) → slot_stops s ≡ true → is_clear (clear_slot s) ≡ true
unfolding slot_stops clear_slot
clear_slot-is_clear s h = ground arith

clear_port-all_clear :
    (ps : List Port) → ports_stop ps ≡ true → all_clear (map clear_port ps) ≡ true
unfolding ports_stop clear_port
clear_port-all_clear [] h = refl
clear_port-all_clear (p ∷ ps) h =
    ground (
      arith,
      clear_slot-is_clear p.in_slot,
      clear_slot-is_clear p.out_slot,
      clear_port-all_clear ps,
    )

pub Returns-map :
    (P Q : Manager → Type 0)
    → ((m : Manager) → P m → Q m)
    → (r : Parsed Manager) → Returns P r
    → Returns Q r
Returns-map P Q f (ok m) h = f m h
Returns-map P Q f overflow h = absurd h
Returns-map P Q f null_pointer h = absurd h
Returns-map P Q f failed h = absurd h
Returns-map P Q f no_fuel h = absurd h

-- With every thread stoppable and the configuration to release at hand.
pub teardown-IsIdle :
    (m : Manager) (es : List Event)
    → ports_stop m.ports ≡ true
    → release m.device ≡ ok es
    → Returns IsIdle (teardown m)
unfolding teardown
teardown-IsIdle m es stoppable released = rw stoppable (
    rw released (record {
      status = refl;
      device = refl;
      threads = refl;
      ports = clear_port-all_clear m.ports stoppable;
    }))

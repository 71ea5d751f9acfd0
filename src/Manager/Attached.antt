-- ===== src/Manager/Attached.antt =====
-- src/lib/Manager.cpp: what start_data_relaying does to one slot, from its relayers to its threads.
use usbproxy_legacy.Prelude.{
  is_given, ◌≡◌, inl, inr, refl, ap, sym, ◌∙◌, Bool, true, false, not, ◌&&◌, ◌||◌, Option, none,
  some, List, [], ◌∷◌, ◌++◌, if◌then◌else◌, Bool-cases, arith, append_assoc, append-nil,
}
use usbproxy_legacy.Usb.Interface.{ok}
use usbproxy_legacy.Usb.Configuration.{Configuration}
use usbproxy_legacy.Usb.Device.{Device}
use usbproxy_legacy.Manager.{Plugin, OwnedEndpoint, Side, device_side, host_side, Slot, Port}
use usbproxy_legacy.Manager.Data.{new_relayers, accepts, attach_if, selects, run_slot}
use usbproxy_legacy.Manager.Steps.{accepted_by}

-- A slot with running relayers for its endpoint, if it has one.
abbrev pub relayed : Side → Side → (Plugin → OwnedEndpoint → Bool) → List Plugin → Slot → Slot
relayed source sink t fs s = elim s.endpoint [
  | none ↦ s
  | some e ↦ record s {
    reader = some (e, source);
    writer = some (record { endpoint = e; proxy = sink; filters = accepted_by (λ f. t f e) fs });
    reader_thread = true;
    writer_thread = true;
  }
]

abbrev pub selected : Device → Configuration → Plugin → OwnedEndpoint → Bool
selected d c f e = selects d c f && accepts f e

abbrev pub relayed_port : Device → Configuration → List Plugin → Port → Port
relayed_port d c fs p = record {
  in_slot = relayed device_side host_side (selected d c) fs p.in_slot;
  out_slot = relayed host_side device_side (selected d c) fs p.out_slot;
}

-- No relayer and no thread; there may be an endpoint.
abbrev pub is_unused : Slot → Bool
is_unused s =
    not (is_given s.reader) && not (is_given s.writer) && not s.reader_thread && not s.writer_thread

abbrev pub attach_slots : Device → Configuration → List Plugin → Slot → Slot
attach_slots d c [] s = s
attach_slots d c (f ∷ fs) s = attach_slots d c fs (if selects d c f then attach_if f s else s)

-- A slot that has its relayers, with filters `done` attached.
attached : Side → Side → List Plugin → OwnedEndpoint → Slot → Slot
attached source sink done e s = record s {
  endpoint = some e;
  reader = some (e, source);
  writer = some (record { endpoint = e; proxy = sink; filters = done });
}

attach_slots-attached :
    (d : Device) (c : Configuration) (source sink : Side) (done fs : List Plugin)
    (e : OwnedEndpoint) (s : Slot)
    → attach_slots d c fs (attached source sink done e s)
      ≡ attached source sink (done ++ accepted_by (λ f. selected d c f e) fs) e s
unfolding attached attach_if
attach_slots-attached d c source sink done [] e s =
    ap (λ l. attached source sink l e s) (sym (append-nil done))
attach_slots-attached d c source sink done (f ∷ fs) e s = elim (Bool-cases (selects d c f)) [
  | inl a ↦ elim (Bool-cases (accepts f e)) [
    | inl b ↦
        rw (a, b)
          (attach_slots-attached d c source sink (done ++ (f ∷ [])) fs e s
            ∙ ap (λ l. attached source sink l e s)
                (append_assoc done (f ∷ []) (accepted_by (λ g. selected d c g e) fs)))
    | inr b ↦ rw (a, b) (attach_slots-attached d c source sink done fs e s)
  ]
  | inr a ↦ rw a (attach_slots-attached d c source sink done fs e s)
]

attach_if-none : (f : Plugin) (s : Slot) → s.endpoint ≡ none → attach_if f s ≡ s
unfolding attach_if
attach_if-none f s h = rw h refl

attach_slots-none :
    (d : Device) (c : Configuration) (fs : List Plugin) (s : Slot)
    → s.endpoint ≡ none
    → attach_slots d c fs s ≡ s
unfolding attach_if
attach_slots-none d c [] s h = refl
attach_slots-none d c (f ∷ fs) s h = elim (Bool-cases (selects d c f)) [
  | inl a ↦ rw (a, attach_if-none f s h) (attach_slots-none d c fs s h)
  | inr a ↦ rw a (attach_slots-none d c fs s h)
]

run_slot-unused : (s : Slot) → is_unused s ≡ true → run_slot s ≡ ok s
unfolding run_slot
run_slot-unused s h =
    let free : (is_given s.reader && s.reader_thread || is_given s.writer && s.writer_thread)
        ≡ false =
      ground arith in
    let reading : (s.reader_thread || is_given s.reader) ≡ s.reader_thread = ground arith in
    let writing : (s.writer_thread || is_given s.writer) ≡ s.writer_thread = ground arith in
    rw free (
      ap
        (λ r.
          ok (record s { reader_thread = r; writer_thread = s.writer_thread || is_given s.writer }))
        reading
      ∙ ap (λ w. ok (record s { writer_thread = w })) writing)

running : Side → Side → List Plugin → OwnedEndpoint → Slot → Slot
unfolding attached
running source sink fs e s = record (attached source sink fs e s) {
  reader_thread = true;
  writer_thread = true;
}

run_slot-attached :
    (source sink : Side) (fs : List Plugin) (e : OwnedEndpoint) (s : Slot)
    → is_unused s ≡ true
    → run_slot (attached source sink fs e s) ≡ ok (running source sink fs e s)
unfolding run_slot attached running
run_slot-attached source sink fs e s h =
    let free : (s.reader_thread || s.writer_thread) ≡ false = ground arith in
    let reading : (s.reader_thread || true) ≡ true = ground arith in
    let writing : (s.writer_thread || true) ≡ true = ground arith in
    rw (free, reading, writing) refl

new_relayers-attached :
    (source sink : Side) (e : OwnedEndpoint) (s : Slot)
    → s.endpoint ≡ some e
    → new_relayers source sink s ≡ attached source sink [] e s
unfolding new_relayers attached
new_relayers-attached source sink e s h = rw h refl

relayed-running :
    (source sink : Side) (t : Plugin → OwnedEndpoint → Bool) (fs : List Plugin) (e : OwnedEndpoint)
    (s : Slot)
    → s.endpoint ≡ some e
    → running source sink (accepted_by (λ f. t f e) fs) e s ≡ relayed source sink t fs s
unfolding running attached
relayed-running source sink t fs e s h = rw h refl

new_relayers-none :
    (source sink : Side) (s : Slot) → s.endpoint ≡ none → new_relayers source sink s ≡ s
unfolding new_relayers
new_relayers-none source sink s h = rw h refl

relayed-none :
    (source sink : Side) (t : Plugin → OwnedEndpoint → Bool) (fs : List Plugin) (s : Slot)
    → s.endpoint ≡ none
    → relayed source sink t fs s ≡ s
relayed-none source sink t fs s h = rw h refl

-- What becomes of an unused slot: relayers, filters, threads.
pub run_slot-relayed :
    (d : Device) (c : Configuration) (source sink : Side) (fs : List Plugin) (s : Slot)
    → is_unused s ≡ true
    → run_slot (attach_slots d c fs (new_relayers source sink s))
      ≡ ok (relayed source sink (selected d c) fs s)
run_slot-relayed d c source sink fs s h = go s.endpoint refl
  where
    go :
        (o : Option OwnedEndpoint)
        → s.endpoint ≡ o
        → run_slot (attach_slots d c fs (new_relayers source sink s))
          ≡ ok (relayed source sink (selected d c) fs s)
    go none e =
        ap (λ t. run_slot (attach_slots d c fs t)) (new_relayers-none source sink s e)
        ∙ ap run_slot (attach_slots-none d c fs s e)
        ∙ run_slot-unused s h
        ∙ ap ok (sym (relayed-none source sink (selected d c) fs s e))
    go (some x) e =
        ap (λ t. run_slot (attach_slots d c fs t)) (new_relayers-attached source sink x s e)
        ∙ ap run_slot (attach_slots-attached d c source sink [] fs x s)
        ∙ run_slot-attached source sink (accepted_by (λ f. selected d c f x) fs) x s h
        ∙ ap ok (relayed-running source sink (selected d c) fs x s e)

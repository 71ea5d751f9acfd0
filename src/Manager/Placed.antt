-- ===== src/Manager/Placed.antt =====
-- src/lib/Manager.cpp: what the enumeration of start_data_relaying puts into the arrays.
use usbproxy_legacy.Prelude.{
  ℕ, ◌<◌, ◌≡◌, inl, inr, refl, ap, ◌∙◌, Bool, true, false, not, ◌&&◌, Option, none, some, List, [],
  ◌∷◌, ◌==◌, if◌then◌else◌, get_or, length, length-set, get_or-set, Bool-cases, arith, bit_and-le,
}
use usbproxy_legacy.Manager.{OwnedEndpoint, Slot, Port}
use usbproxy_legacy.Manager.Data.{
  empty_port, is_isochronous, is_in, number_of, put_endpoint, put_port, place, place_all,
}

-- The last endpoint that a test accepts.
abbrev pub last_match : (OwnedEndpoint → Bool) → List OwnedEndpoint → Option OwnedEndpoint
last_match t [] = none
last_match t (e ∷ es) = elim (last_match t es) [
  | none ↦ if t e then some e else none
  | some f ↦ some f
]

-- The tests for the two slots of port `j`.
abbrev pub goes_in : ℕ → OwnedEndpoint → Bool
goes_in j e = not (is_isochronous e) && number_of e == j && is_in e

abbrev pub goes_out : ℕ → OwnedEndpoint → Bool
goes_out j e = not (is_isochronous e) && number_of e == j && not (is_in e)

abbrev pub with_endpoint : Option OwnedEndpoint → Slot → Slot
with_endpoint none s = s
with_endpoint (some e) s = put_endpoint e s

abbrev placed_port : ℕ → OwnedEndpoint → Port → Port
placed_port j e q = if not (is_isochronous e) && number_of e == j then put_port e q else q

number_of-bound : (e : OwnedEndpoint) → number_of e < 16
number_of-bound e = omega (arith, bit_and-le e.descriptor.b_endpoint_address 15)

pub length-place : (e : OwnedEndpoint) (ports : List Port) → length (place e ports) ≡ length ports
unfolding place
length-place e ports = elim (Bool-cases (is_isochronous e)) [
  | inl i ↦ rw i refl
  | inr i ↦ rw i (length-set ports (number_of e) _)
]

get_or-place :
    (e : OwnedEndpoint) (ports : List Port) (j : ℕ)
    → length ports ≡ 16
    → get_or (place e ports) j empty_port ≡ placed_port j e (get_or ports j empty_port)
unfolding place
get_or-place e ports j h = elim (Bool-cases (is_isochronous e)) [
  | inl i ↦ rw i refl
  | inr i ↦
      let n = number_of e in
      let bound = number_of-bound e in
      rw i (
        get_or-set ports n j (put_port e (get_or ports n empty_port)) empty_port (omega arith)
        ∙ elim (Bool-cases (n == j)) [
          | inl t ↦ let same : n ≡ j = ground arith in rw same refl
          | inr t ↦ let other : (j == n) ≡ false = ground arith in rw (t, other) refl
        ])
]

abbrev pub placed : List OwnedEndpoint → ℕ → Port → Port
placed [] j q = q
placed (e ∷ es) j q = placed es j (placed_port j e q)

pub get_or-place_all :
    (es : List OwnedEndpoint) (ports : List Port) (j : ℕ)
    → length ports ≡ 16
    → get_or (place_all es ports) j empty_port ≡ placed es j (get_or ports j empty_port)
unfolding place_all
get_or-place_all [] ports j h = refl
get_or-place_all (e ∷ es) ports j h =
    get_or-place_all es (place e ports) j (length-place e ports ∙ h)
    ∙ ap (placed es j) (get_or-place e ports j h)

with_endpoint-step :
    (t : OwnedEndpoint → Bool) (es : List OwnedEndpoint) (e : OwnedEndpoint) (s : Slot)
    → with_endpoint (last_match t es) (if t e then put_endpoint e s else s)
      ≡ with_endpoint (last_match t (e ∷ es)) s
with_endpoint-step t es e s = go (last_match t es) (t e)
  where
    go :
        (o : Option OwnedEndpoint) (b : Bool)
        → with_endpoint o (if b then put_endpoint e s else s)
          ≡ with_endpoint (elim o [ none ↦ if b then some e else none | some f ↦ some f ]) s
    go none true = refl
    go none false = refl
    go (some f) true = refl
    go (some f) false = refl

-- Each slot of a port gets the last endpoint for it.
pub placed-in :
    (es : List OwnedEndpoint) (j : ℕ) (q : Port)
    → (placed es j q).in_slot ≡ with_endpoint (last_match (goes_in j) es) q.in_slot
placed-in [] j q = refl
placed-in (e ∷ es) j q =
    placed-in es j (placed_port j e q)
    ∙ ap (with_endpoint (last_match (goes_in j) es)) (ground arith)
    ∙ with_endpoint-step (goes_in j) es e q.in_slot

pub placed-out :
    (es : List OwnedEndpoint) (j : ℕ) (q : Port)
    → (placed es j q).out_slot ≡ with_endpoint (last_match (goes_out j) es) q.out_slot
placed-out [] j q = refl
placed-out (e ∷ es) j q =
    placed-out es j (placed_port j e q)
    ∙ ap (with_endpoint (last_match (goes_out j) es)) (ground arith)
    ∙ with_endpoint-step (goes_out j) es e q.out_slot

-- ===== src/Devices/Loopback/Replies.antt =====
-- src/Plugins/Devices/DeviceProxy_Loopback.cpp: the length of what a control request writes.
use usbproxy_legacy.Prelude.{
  ℕ, ◌%◌, ◌/◌, ◌^◌, ◌≡◌, inl, inr, refl, ◌∙◌, Bool, true, ◌&&◌, ◌||◌, not, List, [], ◌∷◌, ◌==◌,
  ◌/=◌, leb, ltb, length, length-take, take, drop, has_bits, Bool-cases, arith,
}
use usbproxy_legacy.Packet.{CtrlRequest}
use usbproxy_legacy.Usb.UsbString.{UsbString}
use usbproxy_legacy.Devices.Loopback.{
  Loopback, loopback, Answer, stall, unset, written, control_request, get_descriptor, get_config,
  get_string, config_buffer, device_bytes, string_bytes, at_most,
}

-- The answer goes into a buffer of `wLength` bytes.
abbrev pub fits : CtrlRequest → Answer → Bool
fits r stall = true
fits r unset = true
fits r (written bs) = leb (length bs) r.w_length

-- The requests whose answer ignores `wLength`, with a smaller one.
abbrev pub overruns : CtrlRequest → Bool
overruns r =
    has_bits r.b_request_type 0x80
    && (r.b_request == 6 && r.w_value / 2 ^ 8 == 1 && ltb r.w_length 18
        || (r.b_request == 8 || r.b_request == 10) && r.w_length == 0)

fits-take :
    (r : CtrlRequest) (n : ℕ) (bs : List ℕ)
    → fits r (written (take (at_most n r.w_length) bs)) ≡ true
fits-take r n bs = ground (arith, length-take (at_most n r.w_length) bs)

get_config-fits : (d : Loopback) (r : CtrlRequest) → fits r (get_config d r) ≡ true
unfolding get_config
get_config-fits d r =
    elim (Bool-cases (ltb (r.w_value % 2 ^ 8) d.device_descriptor.b_num_configurations)) [
      | inl e ↦ rw e (fits-take r d.config_descriptor.w_total_length (config_buffer d))
      | inr e ↦ rw e refl
    ]

fits-string :
    (r : CtrlRequest) (l : List UsbString)
    → fits r (elim l [
      | [] ↦ stall
      | s ∷ ss ↦ written (take (at_most s.b_length r.w_length) (string_bytes s))
    ])
      ≡ true
fits-string r [] = refl
fits-string r (s ∷ ss) = fits-take r s.b_length (string_bytes s)

get_string-fits : (d : Loopback) (r : CtrlRequest) → fits r (get_string d r) ≡ true
unfolding get_string
get_string-fits d r =
    let idx = r.w_value % 2 ^ 8 in
    elim (Bool-cases (ltb 0 idx && r.w_index /= 0x409)) [
      | inl e ↦ rw e refl
      | inr e ↦ elim (Bool-cases (ltb d.string_max_index idx)) [
        | inl f ↦ rw (e, f) refl
        | inr f ↦ rw (e, f) (fits-string r (drop idx d.strings))
      ]
    ]

device-fits :
    (v p : ℕ) (r : CtrlRequest)
    → fits r (written (take 18 (device_bytes (loopback v p).device_descriptor)))
      ≡ not (ltb r.w_length 18)
unfolding device_bytes
device-fits v p r = ground arith

get_descriptor-fits :
    (v p : ℕ) (r : CtrlRequest)
    → fits r (get_descriptor (loopback v p) r) ≡ not (r.w_value / 2 ^ 8 == 1 && ltb r.w_length 18)
unfolding get_descriptor loopback
get_descriptor-fits v p r =
    let k = r.w_value / 2 ^ 8 in
    elim (Bool-cases (k == 1)) [
      | inl e ↦ rw e (device-fits v p r)
      | inr e ↦ elim (Bool-cases (k == 2)) [
        | inl f ↦ rw (e, f) (get_config-fits (loopback v p) r)
        | inr f ↦ elim (Bool-cases (k == 3)) [
          | inl g ↦ rw (e, f, g) (get_string-fits (loopback v p) r)
          | inr g ↦ rw (e, f, g) (ground arith)
        ]
      ]
    ]

-- What the loopback device writes for a control request fits into the `wLength` bytes of the
-- request, but for two cases: it writes its device descriptor of 18 bytes even where fewer are
-- asked for, and one byte for GET_CONFIGURATION and GET_INTERFACE even where none is.
pub control_request-fits :
    (v p : ℕ) (r : CtrlRequest) → fits r (control_request (loopback v p) r) ≡ not (overruns r)
unfolding control_request
control_request-fits v p r = elim (Bool-cases (has_bits r.b_request_type 0x80)) [
  | inl e ↦ elim (Bool-cases (r.b_request == 6)) [
    | inl f ↦ rw (e, f) (get_descriptor-fits v p r ∙ ground arith)
    | inr f ↦ rw (e, f) (ground arith)
  ]
  | inr e ↦ rw e (ground arith)
]

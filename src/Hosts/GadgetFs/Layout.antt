-- ===== src/Hosts/GadgetFs/Layout.antt =====
-- src/Plugins/Hosts/HostProxy_GadgetFS.cpp: the layout of what generate_descriptor writes, and the
-- polling intervals in it.
use usbproxy_legacy.Prelude.{
  ℕ, zero, suc, ◌+◌, ◌*◌, ◌-◌, ◌^◌, ◌≤◌, ◌<◌, ◌≡◌, ◌≢◌, refl, Bool, true, ◌&&◌, ◌||◌, Option, none,
  some, List, [], ◌++◌, ◌==◌, ltb, leb, if◌then◌else◌, all_below, all_below_sound, arith,
}
use usbproxy_legacy.Usb.Interface.{Parsed, ok}
use usbproxy_legacy.Usb.Configuration
use usbproxy_legacy.Usb.Configuration.{Configuration}
use usbproxy_legacy.Usb.Device.{Device}
use usbproxy_legacy.Hosts.GadgetFs.Generate.{new_interval}
use usbproxy_legacy.Hosts.GadgetFs.Served.{IsPlain, served, served_faster}

-- The bytes of the configurations, each as `shown` has it; one that is missing is left out.
abbrev pub shown_bytes : (Configuration → Configuration) → Option Configuration → List ℕ
shown_bytes shown none = []
shown_bytes shown (some c) = Configuration.get_full_descriptor (shown c)

abbrev pub joined : (Configuration → Configuration) → (ℕ → Option Configuration) → ℕ → ℕ → List ℕ
joined shown choice zero i = []
joined shown choice (suc n) i = shown_bytes shown (choice i) ++ joined shown choice n (i + 1)

-- What the part for high speed shows of a configuration.
abbrev pub served_at : Bool → Configuration → Configuration
served_at high c = if high then served c else served_faster c

-- A block that shows each plain configuration.
abbrev Shows : (Configuration → Parsed (List ℕ)) → (Configuration → Configuration) → Type 0
Shows f shown =
    (c : Configuration) → IsPlain c → f c ≡ ok (Configuration.get_full_descriptor (shown c))

-- A test of each byte.
interval_check : ℕ → Bool
interval_check b =
    b == 0 || leb (2 ^ (new_interval b - 1)) (8 * b) && ltb (8 * b) (2 ^ new_interval b)

interval_checks : all_below 256 interval_check ≡ true
unfolding interval_check new_interval
interval_checks = refl

-- The interval b that a high-speed host reads as 2 ^ (b - 1) microframes, eighths of a millisecond,
-- is not longer than that of the full-speed device in milliseconds, and longer than half of it.
pub new_interval_bounds :
    (b : ℕ) → b < 256 → b ≢ 0 → (2 ^ (new_interval b - 1) ≤ 8 * b) × (8 * b < 2 ^ new_interval b)
unfolding interval_check
new_interval_bounds b h nz =
    let t = all_below_sound 256 interval_check b interval_checks h in ground arith

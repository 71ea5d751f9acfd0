-- ===== src/Hosts/GadgetHelpers.antt =====
-- src/Plugins/Hosts/GadgetFS_helpers.c: the file system of the gadget and the names of its files.
mod Tests
use usbproxy_legacy.Prelude.{
  ℕ, zero, suc, ◌+◌, ◌-◌, ◌%◌, Bool, true, false, not, ◌&&◌, ◌||◌, Option, none, some, List, [],
  ◌∷◌, ◌++◌, ◌==◌, ltb, if◌then◌else◌, length, take, has_bits,
}
use usbproxy_legacy.ConfigParser.{Text, same_text}
use usbproxy_legacy.Hosts.Kernel.{Kernel, Mount}

-- The files of the controllers that are known:
-- 12480000.hsotg, 2184000.usb, at91_udc, atmel_usba_udc, dummy_udc, dwc_otg_pcd,
-- gfs_udc, goku_udc, lh740x_udc, musb-hdrc, musb_hdrc, net2280,
-- omap_udc, pxa2xx_udc, sh_udc, sw_usb_udc, usb20_otg.
abbrev pub devices : List Text
devices =
    (49 ∷ 50 ∷ 52 ∷ 56 ∷ 48 ∷ 48 ∷ 48 ∷ 48 ∷ 46 ∷ 104 ∷ 115 ∷ 111 ∷ 116 ∷ 103 ∷ [])
    ∷ (50 ∷ 49 ∷ 56 ∷ 52 ∷ 48 ∷ 48 ∷ 48 ∷ 46 ∷ 117 ∷ 115 ∷ 98 ∷ [])
    ∷ (97 ∷ 116 ∷ 57 ∷ 49 ∷ 95 ∷ 117 ∷ 100 ∷ 99 ∷ [])
    ∷ (97 ∷ 116 ∷ 109 ∷ 101 ∷ 108 ∷ 95 ∷ 117 ∷ 115 ∷ 98 ∷ 97 ∷ 95 ∷ 117 ∷ 100 ∷ 99 ∷ [])
    ∷ (100 ∷ 117 ∷ 109 ∷ 109 ∷ 121 ∷ 95 ∷ 117 ∷ 100 ∷ 99 ∷ [])
    ∷ (100 ∷ 119 ∷ 99 ∷ 95 ∷ 111 ∷ 116 ∷ 103 ∷ 95 ∷ 112 ∷ 99 ∷ 100 ∷ [])
    ∷ (103 ∷ 102 ∷ 115 ∷ 95 ∷ 117 ∷ 100 ∷ 99 ∷ [])
    ∷ (103 ∷ 111 ∷ 107 ∷ 117 ∷ 95 ∷ 117 ∷ 100 ∷ 99 ∷ [])
    ∷ (108 ∷ 104 ∷ 55 ∷ 52 ∷ 48 ∷ 120 ∷ 95 ∷ 117 ∷ 100 ∷ 99 ∷ [])
    ∷ (109 ∷ 117 ∷ 115 ∷ 98 ∷ 45 ∷ 104 ∷ 100 ∷ 114 ∷ 99 ∷ [])
    ∷ (109 ∷ 117 ∷ 115 ∷ 98 ∷ 95 ∷ 104 ∷ 100 ∷ 114 ∷ 99 ∷ [])
    ∷ (110 ∷ 101 ∷ 116 ∷ 50 ∷ 50 ∷ 56 ∷ 48 ∷ [])
    ∷ (111 ∷ 109 ∷ 97 ∷ 112 ∷ 95 ∷ 117 ∷ 100 ∷ 99 ∷ [])
    ∷ (112 ∷ 120 ∷ 97 ∷ 50 ∷ 120 ∷ 120 ∷ 95 ∷ 117 ∷ 100 ∷ 99 ∷ [])
    ∷ (115 ∷ 104 ∷ 95 ∷ 117 ∷ 100 ∷ 99 ∷ [])
    ∷ (115 ∷ 119 ∷ 95 ∷ 117 ∷ 115 ∷ 98 ∷ 95 ∷ 117 ∷ 100 ∷ 99 ∷ [])
    ∷ (117 ∷ 115 ∷ 98 ∷ 50 ∷ 48 ∷ 95 ∷ 111 ∷ 116 ∷ 103 ∷ [])
    ∷ []

abbrev is_known : List Text → Text → Bool
is_known [] name = false
is_known (d ∷ ds) name = same_text d name || is_known ds name

-- The first name of the directory that is known.
pub find_known : List Text → Option Text
find_known [] = none
find_known (n ∷ ns) = let rest = find_known ns in if is_known devices n then some n else rest

-- "gadgetfs", "USBProxy", "/tmp", "/tmp/", "gadget-", "/tmp/gadget-XXXXXX", "sw_usb_udc" and "-bulk".
abbrev gadgetfs : Text
gadgetfs = 103 ∷ 97 ∷ 100 ∷ 103 ∷ 101 ∷ 116 ∷ 102 ∷ 115 ∷ []

abbrev usb_proxy : Text
usb_proxy = 85 ∷ 83 ∷ 66 ∷ 80 ∷ 114 ∷ 111 ∷ 120 ∷ 121 ∷ []

abbrev tmp : Text
tmp = 47 ∷ 116 ∷ 109 ∷ 112 ∷ []

abbrev slash : Text
slash = 47 ∷ []

abbrev gadget_prefix : Text
gadget_prefix = 103 ∷ 97 ∷ 100 ∷ 103 ∷ 101 ∷ 116 ∷ 45 ∷ []

abbrev mount_template : Text
mount_template =
    47 ∷ 116 ∷ 109 ∷ 112 ∷ 47 ∷ 103 ∷ 97 ∷ 100 ∷ 103 ∷ 101 ∷ 116 ∷ 45 ∷ 88 ∷ 88 ∷ 88 ∷ 88 ∷ 88 ∷ 88
    ∷ []

abbrev pub sw_usb_udc : Text
sw_usb_udc = 115 ∷ 119 ∷ 95 ∷ 117 ∷ 115 ∷ 98 ∷ 95 ∷ 117 ∷ 100 ∷ 99 ∷ []

abbrev bulk_suffix : Text
bulk_suffix = 45 ∷ 98 ∷ 117 ∷ 108 ∷ 107 ∷ []

-- Directories that an earlier run has left: "gadget-" and six characters more.
is_leftover : Text → Bool
is_leftover name = length name == 13 && same_text (take 7 name) gadget_prefix

-- `snprintf` into 256 bytes.
abbrev printed : Text → Text
printed t = take 255 t

-- The decimal digits of a number below 16.
abbrev digits_of : ℕ → Text
digits_of n = if ltb n 10 then (48 + n) ∷ [] else 49 ∷ (38 + n) ∷ []

-- The ending of the name of an endpoint.
abbrev direction_of : ℕ → Text → Text
direction_of address filename =
    if same_text filename sw_usb_udc
    then bulk_suffix
    else if ltb 12 (address % 16)
    then []
    else if has_bits address 0x80
    then 105 ∷ 110 ∷ []
    else 111 ∷ 117 ∷ 116 ∷ []

-- "ep", the number and the direction.
unfoldable pub endpoint_name : ℕ → Text → Text
endpoint_name address filename =
    (101 ∷ 112 ∷ []) ++ (digits_of (address % 16) ++ direction_of address filename)

module _ {E : Type 0} (kernel : Kernel E) where
  remove_leftovers : List Text → E → E
  unfolding is_leftover
  remove_leftovers [] e = e
  remove_leftovers (n ∷ ns) e =
      remove_leftovers ns (if is_leftover n then kernel.rmdir e (tmp ++ (slash ++ n)) else e)

  remove_if_any : Option (List Text) → E → E
  remove_if_any none e = e
  remove_if_any (some names) e = remove_leftovers names e

  clean_tmp : E → E
  unfolding remove_leftovers remove_if_any
  clean_tmp e = remove_if_any (kernel.read_dir e tmp) e

  abbrev gadget_mounts : List Mount → List Mount
  gadget_mounts [] = []
  gadget_mounts (m ∷ ms) =
      if same_text m.fstype gadgetfs then m ∷ gadget_mounts ms else gadget_mounts ms

  unmount_all : List Mount → E → E
  unmount_all [] e = e
  unmount_all (m ∷ ms) e = unmount_all ms (kernel.umount2 e m.dir)

  -- The mounts of other programs are made again.
  mount_others : List Mount → E → E
  mount_others [] e = e
  mount_others (m ∷ ms) e =
      mount_others ms (if same_text m.fsname usb_proxy then e else kernel.mount e m.fsname m.dir)

  -- The new state and `gadgetfs_path`. mkdtemp is taken to succeed, as the code does.
  pub mount_gadget : E → E × Text
  unfolding clean_tmp unmount_all mount_others
  mount_gadget e =
      let ms = gadget_mounts (kernel.mounts e) in
      let (e', path) =
        kernel.mkdtemp (clean_tmp (mount_others ms (unmount_all ms e))) mount_template in
      (kernel.mount e' usb_proxy path, path)

  unmount_at : Option Text → E → E
  unmount_at none e = e
  unmount_at (some path) e = kernel.rmdir (kernel.umount2 e path) path

  -- `gadgetfs_path` is null behind it.
  pub unmount_gadget : E → Option Text → E
  unfolding unmount_at
  unmount_gadget e path = unmount_at path e

  open_named : E → Text → Option Text → E × Option ℕ
  open_named e path none = (e, none)
  open_named e path (some filename) = kernel.open_file e (printed (path ++ (slash ++ filename)))

  pub open_gadget : E → Text → Option Text → E × Option ℕ
  unfolding open_named
  open_gadget e path filename = open_named e path filename

  abbrev names_or_none : Option (List Text) → Option Text
  names_or_none none = none
  names_or_none (some names) = find_known names

  mounted_path : E → Option Text → E × Text
  mounted_path e none = mount_gadget e
  mounted_path e (some path) = (e, path)

  -- The state, `gadgetfs_path` and the name.
  pub find_gadget_filename : E → Option Text → E × Text × Option Text
  unfolding mounted_path
  find_gadget_filename e path =
      let (e', p) = mounted_path e path in (e', p, names_or_none (kernel.read_dir e' p))

  pub open_endpoint : E → Text → ℕ → Text → E × Option ℕ
  open_endpoint e path address filename =
      if address % 16 == 0
      then (e, none)
      else kernel.open_file e (printed (path ++ (slash ++ endpoint_name address filename)))

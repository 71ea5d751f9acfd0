-- ===== src/Hosts/GadgetFs/Endpoints.antt =====
-- src/Plugins/Hosts/HostProxy_GadgetFS.cpp: setConfig opens the files of the endpoints.
use usbproxy_legacy.Prelude.{
  ℕ, zero, suc, ◌+◌, ◌%◌, Bool, true, false, Option, none, some, List, [], ◌∷◌, ◌++◌, if◌then◌else◌,
  set, take, replicate, has_bits,
}
use usbproxy_legacy.ConfigParser.{Text}
use usbproxy_legacy.Descriptors.{EndpointDescriptor, endpoint_bytes}
use usbproxy_legacy.Usb.Interface
use usbproxy_legacy.Usb.Interface.{Interface}
use usbproxy_legacy.Usb.Configuration
use usbproxy_legacy.Usb.Configuration.{Configuration}
use usbproxy_legacy.Hosts.Kernel.{Kernel, Aio}
use usbproxy_legacy.Hosts.GadgetHelpers.{open_endpoint}
use usbproxy_legacy.Hosts.GadgetFs.{GadgetFs}
use usbproxy_legacy.Hosts.GadgetFs.Transfers.{number_of}

-- The loops go on, or setConfig has returned, or a null pointer was followed.
pub data Run (E : Type 0) : Type 0 where
  going stopped : E → GadgetFs → Run E
  crashed : Run E

infixl 5 ◌>>=◌
abbrev pub ◌>>=◌ : {E : Type 0} → Run E → (E → GadgetFs → Run E) → Run E
going e g >>= f = f e g
stopped e g >>= f = stopped e g
crashed >>= f = crashed

-- A loop of `n` rounds from index `i` on.
unfoldable pub rounds : {E : Type 0} → (ℕ → E → GadgetFs → Run E) → ℕ → ℕ → E → GadgetFs → Run E
rounds body zero i e g = going e g
rounds body (suc n) i e g = body i e g >>= λ e' g'. rounds body n (i + 1) e' g'

abbrev path_of : Option Text → Text
path_of none = []
path_of (some path) = path

-- What is written to the file of an endpoint: a tag, and the descriptors for both speeds.
pub endpoint_buffer : EndpointDescriptor → EndpointDescriptor → List ℕ
endpoint_buffer fs hs = take ((4 + fs.b_length + hs.b_length) % 256) (
    (1 ∷ 0 ∷ 0 ∷ 0 ∷ [])
    ++ (take fs.b_length (endpoint_bytes fs) ++ take hs.b_length (endpoint_bytes hs)))

abbrev pub in_aio : ℕ → Aio
in_aio fd = record { aio_fildes = fd; aio_buf = none; aio_nbytes = 0 }

abbrev pub out_aio : ℕ → ℕ → Aio
out_aio fd size = record { aio_fildes = fd; aio_buf = some (replicate size 0); aio_nbytes = size }

module _ {E : Type 0} (kernel : Kernel E) (high_speed : Bool) where
  -- A read is submitted; without success the slot is left as it was.
  unfoldable pub reading : GadgetFs → ℕ → Aio → E × Bool → Run E
  reading g n aio (e, true) = going e (record g { epout_async = set g.epout_async n (some aio) })
  reading g n aio (e, false) = going e g

  -- An IN endpoint waits for a write; for an OUT endpoint a read is submitted at once.
  unfoldable pub fill_slot : Bool → ℕ → ℕ → ℕ → E → GadgetFs → Run E
  fill_slot true n fd size e g =
      going e (record g { epin_async = set g.epin_async n (some (in_aio fd)) })
  fill_slot false n fd size e g =
      reading g n (out_aio fd size) (kernel.aio_read e (out_aio fd size))

  -- The slot of an endpoint whose file is `fd`; the result of the write is only printed.
  unfoldable pub open_slot : E → GadgetFs → EndpointDescriptor → EndpointDescriptor → ℕ → Run E
  open_slot e g fs hs fd =
      fill_slot (has_bits fs.b_endpoint_address 0x80) (number_of fs.b_endpoint_address) fd
        (if high_speed then hs.w_max_packet_size else fs.w_max_packet_size)
        (kernel.write e fd (endpoint_buffer fs hs)).0 g

  unfoldable pub open_file :
      GadgetFs → EndpointDescriptor → EndpointDescriptor → E × Option ℕ → Run E
  open_file g fs hs (e, none) = stopped e g
  open_file g fs hs (e, some fd) = open_slot e g fs hs fd

  -- The name is compared before the file is opened; a null pointer is followed.
  unfoldable pub open_named :
      E → GadgetFs → EndpointDescriptor → EndpointDescriptor → Option Text → Run E
  open_named e g fs hs none = crashed
  open_named e g fs hs (some name) =
      open_file g fs hs
        (open_endpoint kernel e (path_of g.gadgetfs_path) fs.b_endpoint_address name)

  -- The descriptor for full speed stands in for one that is missing.
  abbrev or_own : Option EndpointDescriptor → EndpointDescriptor → EndpointDescriptor
  or_own none fs = fs
  or_own (some hs) fs = hs

  abbrev or_same : Option Interface → Interface → Interface
  or_same none fs = fs
  or_same (some hs) fs = hs

  unfoldable pub open_at :
      Option EndpointDescriptor → Option EndpointDescriptor → E → GadgetFs → Run E
  open_at none hs e g = crashed
  open_at (some fs) hs e g = open_named e g fs (or_own hs fs) g.device_filename

  unfoldable pub endpoint_round : Interface → Interface → ℕ → E → GadgetFs → Run E
  endpoint_round fs hs k e g =
      open_at (Interface.get_endpoint_by_idx fs k) (Interface.get_endpoint_by_idx hs k) e g

  unfoldable pub open_alternate : Option Interface → Option Interface → E → GadgetFs → Run E
  open_alternate none hs e g = crashed
  open_alternate (some fs) hs e g =
      rounds (endpoint_round fs (or_same hs fs)) fs.descriptor.b_num_endpoints 0 e g

  -- The setting for high speed is looked up by the number of the alternate twice.
  abbrev high_alternate : Option Configuration → ℕ → Option Interface
  high_alternate none a = none
  high_alternate (some hs) a = Configuration.get_interface_alternate hs a a

  unfoldable pub alternate_round :
      Configuration → Option Configuration → ℕ → ℕ → E → GadgetFs → Run E
  alternate_round fs hs i a e g =
      open_alternate (Configuration.get_interface_alternate fs i a) (high_alternate hs a) e g

  unfoldable pub interface_round : Configuration → Option Configuration → ℕ → E → GadgetFs → Run E
  interface_round fs hs i e g =
      rounds (alternate_round fs hs i) (Configuration.get_interface_alternate_count fs i) 0 e g

  unfoldable pub set_config : Configuration → Option Configuration → E → GadgetFs → Run E
  set_config fs hs e g = rounds (interface_round fs hs) fs.descriptor.b_num_interfaces 0 e g

-- ===== src/Hosts/Kernel.antt =====
-- The system calls that the host proxy for GadgetFS makes, over the state `E` of the kernel. Numbers
-- of files are natural numbers; a failure is `none`.
use usbproxy_legacy.Prelude.{ℕ, Bool, Option, List}
use usbproxy_legacy.Packet.{CtrlRequest}
use usbproxy_legacy.ConfigParser.{Text}

-- An entry of the table of mounts.
pub record Mount : Type 0 where
  pub dir : Text
  pub fsname : Text
  pub fstype : Text

-- `struct usb_gadgetfs_event`: the request of a setup event; nothing of the others is used.
pub data Event : Type 0 where
  setup : CtrlRequest → Event
  other : Event

-- What the code uses of `struct aiocb`. A buffer is its bytes, a null pointer `none`.
pub record Aio : Type 0 where
  pub aio_fildes : ℕ
  pub aio_buf : Option (List ℕ)
  pub aio_nbytes : ℕ

-- `aio_error`: 0, `EINPROGRESS` or another error.
pub data Progress : Type 0 where
  done in_progress : Progress
  broken : ℕ → Progress

-- `aio_suspend` and the submission of a transfer give whether they succeed; `aio_return` of a write
-- the number of bytes, and of a read the bytes.
pub record Kernel (E : Type 0) : Type 0 where
  pub mounts : E → List Mount
  pub mount : E → Text → Text → E
  pub umount2 : E → Text → E
  pub mkdtemp : E → Text → E × Text
  pub rmdir : E → Text → E
  pub read_dir : E → Text → Option (List Text)
  pub open_file : E → Text → E × Option ℕ
  pub close : E → ℕ → E
  pub write : E → ℕ → List ℕ → E × Option ℕ
  pub read : E → ℕ → ℕ → E × Option (List ℕ)
  pub poll_in : E → ℕ → ℕ → E × Bool
  pub read_events : E → ℕ → E × Option (List Event)
  pub aio_write : E → Aio → E × Bool
  pub aio_read : E → Aio → E × Bool
  pub aio_cancel : E → Aio → E
  pub aio_error : E → Aio → Progress
  pub aio_suspend : E → Aio → ℕ → E × Bool
  pub aio_return_write : E → Aio → E × Option ℕ
  pub aio_return_read : E → Aio → E × Option (List ℕ)

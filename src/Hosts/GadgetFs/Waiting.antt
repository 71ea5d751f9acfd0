-- ===== src/Hosts/GadgetFs/Waiting.antt =====
-- src/Plugins/Hosts/HostProxy_GadgetFS.cpp: send_wait_complete and the flags of the transfers.
use usbproxy_legacy.Prelude.{
  ℕ, suc, ◌≡◌, ◌≢◌, ◌==◌, refl, true, false, none, some, length, has_bits, get_or-set_self, arith,
}
use usbproxy_legacy.Hosts.Kernel.{Kernel, Aio, in_progress}
use usbproxy_legacy.Hosts.GadgetFs.{GadgetFs}
use usbproxy_legacy.Hosts.GadgetFs.Transfers.{
  number_of, in_slot, is_active, send_wait_complete, freed,
}

module _ {E : Type 0} (kernel : Kernel E) (e : E) (g : GadgetFs) (endpoint timeout : ℕ)
    (aio : Aio) where
  -- A wait for an active transfer that ends without success: the buffer of the transfer is freed,
  -- although it is still in progress, and it is asked for its result.
  pub send_wait_complete-timeout :
      has_bits endpoint 0x80 ≡ true
      → endpoint ≢ 0
      → in_slot g (number_of endpoint) ≡ some aio
      → is_active g (number_of endpoint) ≡ true
      → kernel.aio_error e aio ≡ in_progress
      → (kernel.aio_suspend e aio (suc timeout)).1 ≡ false
      → (kernel.aio_return_write (kernel.aio_suspend e aio (suc timeout)).0 (freed aio)).1 ≡ none
      → length g.epin_async ≡ 16
      → ((send_wait_complete kernel e g endpoint (suc timeout)).2 ≡ false)
        × (in_slot (send_wait_complete kernel e g endpoint (suc timeout)).1 (number_of endpoint)
            ≡ some (record aio { aio_buf = none; aio_nbytes = 0 }))
  unfolding send_wait_complete
  send_wait_complete-timeout is_in nz slot active p s r len =
      let z : (endpoint == 0) ≡ false = ground arith in
      rw (z, is_in, slot, active, p, s, r)
        (
          refl,
          get_or-set_self g.epin_async (number_of endpoint) (some (freed aio)) none
              (omega (arith, len)),
        )

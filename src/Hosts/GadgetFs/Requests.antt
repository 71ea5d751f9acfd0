-- ===== src/Hosts/GadgetFs/Requests.antt =====
-- src/Plugins/Hosts/HostProxy_GadgetFS.cpp: the events that one call of control_request reads.
use usbproxy_legacy.Prelude.{
  ℕ, ◌≡◌, refl, ap, ◌∙◌, Bool, true, false, Option, none, some, List, [], ◌∷◌,
}
use usbproxy_legacy.Packet.{CtrlRequest}
use usbproxy_legacy.Hosts.Kernel.{Kernel, Event, setup, other}
use usbproxy_legacy.Hosts.GadgetFs.{
  GadgetFs, Payload, take_setup, take_events, request_on, polled, read_answer, control_request,
}

-- The first setup event.
abbrev pub first_setup : List Event → Option CtrlRequest
first_setup [] = none
first_setup (other ∷ events) = first_setup events
first_setup (setup r ∷ events) = some r

module _ {E : Type 0} (kernel : Kernel E) where
  abbrev pub taken :
      E → GadgetFs → Option CtrlRequest → E × GadgetFs × Option (CtrlRequest × Payload)
  taken e g none = (e, g, none)
  taken e g (some r) = (
    (take_setup kernel e g r).0,
    (take_setup kernel e g r).1,
    some ((take_setup kernel e g r).2, (take_setup kernel e g r).3),
  )

  take_events-first :
      (events : List Event) (e : E) (g : GadgetFs)
      → take_events kernel events e g ≡ taken e g (first_setup events)
  unfolding take_events
  take_events-first [] e g = refl
  take_events-first (other ∷ events) e g = take_events-first events e g
  take_events-first (setup r ∷ events) e g = refl

  on_answer :
      (g : GadgetFs) (r : E × Option (List Event)) (events : List Event)
      → r.1 ≡ some events
      → read_answer kernel g r ≡ taken r.0 g (first_setup events)
  unfolding read_answer
  on_answer g (e, none) events h = cc
  on_answer g (e, some es) events h =
      let same : es ≡ events = cc in
      take_events-first es e g ∙ ap (λ l. taken e g (first_setup l)) same

  on_poll :
      (g : GadgetFs) (fd : ℕ) (q : E × Bool)
      → q.1 ≡ true
      → polled kernel g fd q ≡ read_answer kernel g (kernel.read_events q.0 fd)
  unfolding polled
  on_poll g fd (e, true) h = refl
  on_poll g fd (e, false) h = cc

  on_file :
      (e : E) (g : GadgetFs) (timeout fd : ℕ) (o : Option ℕ)
      → o ≡ some fd
      → request_on kernel e g timeout o ≡ polled kernel g fd (kernel.poll_in e fd timeout)
  unfolding request_on
  on_file e g timeout fd none h = cc
  on_file e g timeout fd (some f) h =
      let same : f ≡ fd = cc in ap (λ x. polled kernel g x (kernel.poll_in e x timeout)) same

  -- A call that finds events hands on the first setup event among them, and no other; the events
  -- behind it are lost, since they have been read. Without a setup event there is no request.
  pub control_request-first :
      (e : E) (g : GadgetFs) (timeout fd : ℕ) (events : List Event)
      → g.device_file ≡ some fd
      → (kernel.poll_in e fd timeout).1 ≡ true
      → (kernel.read_events (kernel.poll_in e fd timeout).0 fd).1 ≡ some events
      → control_request kernel e g timeout
        ≡ taken (kernel.read_events (kernel.poll_in e fd timeout).0 fd).0 g (first_setup events)
  unfolding control_request
  control_request-first e g timeout fd events f p r =
      let q = kernel.poll_in e fd timeout in
      on_file e g timeout fd g.device_file f
      ∙ (on_poll g fd q p ∙ on_answer g (kernel.read_events q.0 fd) events r)

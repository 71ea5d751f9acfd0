-- ===== src/Manager.antt =====
-- src/lib/Manager.h and src/lib/Manager.cpp: the manager that sets up the relaying between a device
-- and a host, and takes it down. Another thread may call stop_relaying while the manager sets up;
-- its later calls are left out. Pointers to the proxies are taken to be set.
pub mod Plugins
pub mod Arrays
pub mod Stop
pub mod Control
pub mod Data
pub mod Outcome
pub mod Steps
pub mod Started
pub mod Placed
pub mod Attached
pub mod Configured
mod Tests
use usbproxy_legacy.Prelude.{
  ℕ, zero, suc, ◌+◌, ◌-◌, ◌%◌, ◌^◌, Bool, true, false, ◌&&◌, ◌||◌, Option, none, some, List, [],
  ◌∷◌, ◌++◌, ◌==◌, ltb, if◌then◌else◌, take, replicate,
}
use usbproxy_legacy.Descriptors.{EndpointDescriptor, InterfaceDescriptor, ConfigDescriptor}
use usbproxy_legacy.Criteria.{
  CriteriaEndpoint, CriteriaInterface, CriteriaConfiguration, CriteriaDevice, test_endpoint,
  test_interface,
}
use usbproxy_legacy.Usb.Device.{Device}
use usbproxy_legacy.Usb.Configuration.{Configuration}

pub data Status : Type 0 where
  idle setting_up relaying stopping setup_abort resetting : Status

-- What the manager sees of a filter or an injector. `name` stands for its address.
pub record Plugin : Type 0 where
  pub name : ℕ
  pub endpoint : CriteriaEndpoint
  pub interface : CriteriaInterface
  pub configuration : CriteriaConfiguration
  pub device : CriteriaDevice

-- An endpoint and its interface, which endpoint 0 does not have.
pub record OwnedEndpoint : Type 0 where
  pub descriptor : EndpointDescriptor
  pub interface : Option InterfaceDescriptor

-- The proxy that a relayer reads from or writes to.
pub data Side : Type 0 where
  device_side host_side : Side

pub record Writer : Type 0 where
  pub endpoint : OwnedEndpoint
  pub proxy : Side
  pub filters : List Plugin

-- One entry of the arrays of a direction: endpoint, whether there is a queue, reader, writer, and
-- whether the two threads are joinable.
pub record Slot : Type 0 where
  pub endpoint : Option OwnedEndpoint
  pub queue : Bool
  pub reader : Option (OwnedEndpoint × Side)
  pub writer : Option Writer
  pub reader_thread : Bool
  pub writer_thread : Bool

pub record Port : Type 0 where
  pub in_slot : Slot
  pub out_slot : Slot

-- The calls of the proxies and of the injectors, and the deletion of endpoint 0.
pub data Event : Type 0 where
  connect_device connect_host disconnect_device disconnect_host delete_endpoint : Event
  claim_interface release_interface : ℕ → Event
  set_endpoint_interface : ℕ → ℕ → Event
  set_config : Option Configuration → Option Configuration → Bool → Side → Event
  listen please_stop delete_plugin : ℕ → Event

-- `ports` has 16 elements. An array of plugins that is NULL is `none`. `stops` says for the next
-- looks at `status` whether another thread has called stop_relaying since the last one.
pub record Manager : Type 0 where
  pub status : Status
  pub device : Option Device
  pub filters : Option (List Plugin)
  pub filter_count : ℕ
  pub injectors : Option (List Plugin)
  pub injector_count : ℕ
  pub injector_threads : List Plugin
  pub ports : List Port
  pub log : List Event
  pub stops : List Bool

abbrev pub empty_slot : Slot
empty_slot = record {
  endpoint = none;
  queue = false;
  reader = none;
  writer = none;
  reader_thread = false;
  writer_thread = false;
}

-- The constructor.
abbrev pub manager : Manager
manager = record {
  status = idle;
  device = none;
  filters = none;
  filter_count = 0;
  injectors = none;
  injector_count = 0;
  injector_threads = [];
  ports = replicate 16 (record { in_slot = empty_slot; out_slot = empty_slot });
  log = [];
  stops = [];
}

abbrev pub is_setup : Status → Bool
is_setup setting_up = true
is_setup _ = false

abbrev pub record_events : Manager → List Event → Manager
record_events m es = record m { log = m.log ++ es }

-- A call of stop_relaying by another thread during the setup.
abbrev pub interrupt : Status → List Bool → Status
interrupt setting_up (true ∷ bs) = setup_abort
interrupt s _ = s

abbrev after_look : List Bool → List Bool
after_look [] = []
after_look (b ∷ bs) = bs

-- A look at `status`.
abbrev pub look : Manager → Manager
look m = record m { status = interrupt m.status m.stops; stops = after_look m.stops }

-- The first `count` elements of an array.
abbrev pub elements : Option (List Plugin) → ℕ → List Plugin
elements none n = []
elements (some ps) n = take n ps

-- ===== src/Tools/Mitm/Plugins.antt =====
-- src/tools/usb-mitm.cpp: the plugins that the command line asks for.
use usbproxy_legacy.Prelude.{
  ℕ, ◌≡◌, refl, ap, sym, ◌∙◌, Bool, true, false, Option, none, some, List, [], ◌∷◌, ◌++◌,
  append_assoc, Bool-cases, inl, inr, arith, if◌then◌else◌,
}
use usbproxy_legacy.Filters.MassStorage.{codes}
use usbproxy_legacy.ConfigParser.{ConfigParser, Text, get_vector, set, add_pointer}
use usbproxy_legacy.ConfigParser.Maps.{
  get_vector-add_to_vector, get_vector-set, get_vector-add_pointer, get_vector-parse_file,
  get_vector-config_parser,
}
use usbproxy_legacy.Tools.Mitm.{
  Switch, vendor, product, plugin, device_proxy, host_proxy, client, pcap, config_file, key_logger,
  verbose, server, stream_log, mass_storage, udp, xbox, help, not_named, not_opened, opened,
  CommandLine, command_line, plugins, add_plugin, log_keys, take_switch, take_switches,
  with_proxies, default_host, default_device, choose_proxies, configuration,
}

-- The plugins of a switch.
abbrev pub named_by : Switch → List Text
named_by (plugin t) = t ∷ []
named_by (pcap t) = codes "PacketFilter_PcapLogger" ∷ []
named_by (key_logger f) = codes "PacketFilter_KeyLogger" ∷ codes "PacketFilter_ROT13" ∷ []
named_by stream_log = codes "PacketFilter_StreamLog" ∷ []
named_by mass_storage = codes "PacketFilter_MassStorage" ∷ []
named_by udp = codes "Injector_UDP" ∷ []
named_by xbox = codes "Injector_UDPHID" ∷ codes "PacketFilter_UDPHID" ∷ []
named_by _ = []

abbrev pub named_by_all : List Switch → List Text
named_by_all [] = []
named_by_all (s ∷ ss) = named_by s ++ named_by_all ss

-- The plugins of a configuration.
abbrev loaded : ConfigParser → List Text
loaded c = get_vector c plugins

loaded-add_plugin :
    (c : ConfigParser) (name : Text) → loaded (add_plugin c name) ≡ loaded c ++ (name ∷ [])
loaded-add_plugin c name = get_vector-add_to_vector c plugins name plugins

append_two : (xs : List Text) (a b : Text) → (xs ++ (a ∷ [])) ++ (b ∷ []) ≡ xs ++ (a ∷ b ∷ [])
append_two [] a b = refl
append_two (x ∷ xs) a b = ap (◌∷◌ x) (append_two xs a b)

append_none : (xs : List Text) → xs ≡ xs ++ []
append_none [] = refl
append_none (x ∷ xs) = ap (◌∷◌ x) (append_none xs)

loaded-log_keys :
    (c : ConfigParser) (file : Option ℕ)
    → loaded (log_keys c file)
      ≡ loaded c ++ (codes "PacketFilter_KeyLogger" ∷ codes "PacketFilter_ROT13" ∷ [])
loaded-log_keys c file =
    loaded-add_plugin
      (add_pointer (add_plugin c (codes "PacketFilter_KeyLogger"))
        (codes "PacketFilter_KeyLogger::file") file)
      (codes "PacketFilter_ROT13")
    ∙ (ap (λ xs. xs ++ (codes "PacketFilter_ROT13" ∷ []))
          (get_vector-add_pointer (add_plugin c (codes "PacketFilter_KeyLogger"))
              (codes "PacketFilter_KeyLogger::file") file plugins
            ∙ loaded-add_plugin c (codes "PacketFilter_KeyLogger"))
        ∙ append_two (loaded c) (codes "PacketFilter_KeyLogger") (codes "PacketFilter_ROT13"))

-- What a switch leaves: the exit, or its plugins behind those before it.
Adds : CommandLine → Switch → Option CommandLine → Type 0
Adds l s none = Unit
Adds l s (some l') = loaded l'.cfg ≡ loaded l.cfg ++ named_by s

take_switch-Adds : (l : CommandLine) (s : Switch) → Adds l s (take_switch l s)
unfolding take_switch Adds
take_switch-Adds l (vendor t) = get_vector-set l.cfg _ t plugins ∙ append_none (loaded l.cfg)
take_switch-Adds l (product t) = get_vector-set l.cfg _ t plugins ∙ append_none (loaded l.cfg)
take_switch-Adds l (plugin t) = loaded-add_plugin l.cfg t
take_switch-Adds l (device_proxy t) = get_vector-set l.cfg _ t plugins ∙ append_none (loaded l.cfg)
take_switch-Adds l (host_proxy t) = get_vector-set l.cfg _ t plugins ∙ append_none (loaded l.cfg)
take_switch-Adds l (client t) = append_none (loaded l.cfg)
take_switch-Adds l (pcap t) =
    get_vector-set (add_plugin l.cfg (codes "PacketFilter_PcapLogger")) _ t plugins
    ∙ loaded-add_plugin l.cfg (codes "PacketFilter_PcapLogger")
take_switch-Adds l (config_file file) =
    get_vector-parse_file l.cfg file plugins ∙ append_none (loaded l.cfg)
take_switch-Adds l (key_logger not_named) = loaded-log_keys l.cfg _
take_switch-Adds l (key_logger not_opened) = tt
take_switch-Adds l (key_logger (opened f)) = loaded-log_keys l.cfg (some f)
take_switch-Adds l verbose = append_none (loaded l.cfg)
take_switch-Adds l server = append_none (loaded l.cfg)
take_switch-Adds l stream_log =
    get_vector-add_pointer (add_plugin l.cfg (codes "PacketFilter_StreamLog")) _ _ plugins
    ∙ loaded-add_plugin l.cfg (codes "PacketFilter_StreamLog")
take_switch-Adds l mass_storage = loaded-add_plugin l.cfg (codes "PacketFilter_MassStorage")
take_switch-Adds l udp =
    get_vector-set (add_plugin l.cfg (codes "Injector_UDP")) _ _ plugins
    ∙ loaded-add_plugin l.cfg (codes "Injector_UDP")
take_switch-Adds l xbox =
    loaded-add_plugin _ (codes "PacketFilter_UDPHID")
    ∙ (ap (λ xs. xs ++ (codes "PacketFilter_UDPHID" ∷ []))
          (get_vector-set (add_plugin l.cfg (codes "Injector_UDPHID")) _ _ plugins
            ∙ loaded-add_plugin l.cfg (codes "Injector_UDPHID"))
        ∙ append_two (loaded l.cfg) (codes "Injector_UDPHID") (codes "PacketFilter_UDPHID"))
take_switch-Adds l help = tt

AddsAll : CommandLine → List Switch → Option CommandLine → Type 0
AddsAll l ss none = Unit
AddsAll l ss (some l') = loaded l'.cfg ≡ loaded l.cfg ++ named_by_all ss

AddsAll-join :
    (l l' : CommandLine) (s : Switch) (ss : List Switch) (o : Option CommandLine)
    → loaded l'.cfg ≡ loaded l.cfg ++ named_by s
    → AddsAll l' ss o
    → AddsAll l (s ∷ ss) o
unfolding AddsAll
AddsAll-join l l' s ss none h k = tt
AddsAll-join l l' s ss (some m) h k =
    k
    ∙ (ap (λ xs. xs ++ named_by_all ss) h
        ∙ append_assoc (loaded l.cfg) (named_by s) (named_by_all ss))

AddsAll-step :
    (l : CommandLine) (s : Switch) (ss : List Switch) (o : Option CommandLine)
    → Adds l s o
    → ((m : CommandLine) → AddsAll m ss (take_switches m ss))
    → AddsAll l (s ∷ ss) (elim o [ none ↦ none | some m ↦ take_switches m ss ])
unfolding Adds AddsAll
AddsAll-step l s ss none h k = tt
AddsAll-step l s ss (some m) h k = AddsAll-join l m s ss (take_switches m ss) h (k m)

take_switches-AddsAll : (l : CommandLine) (ss : List Switch) → AddsAll l ss (take_switches l ss)
unfolding take_switches AddsAll
take_switches-AddsAll l [] = append_none (loaded l.cfg)
take_switches-AddsAll l (s ∷ ss) =
    AddsAll-step l s ss (take_switch l s) (take_switch-Adds l s) (λ m. take_switches-AddsAll m ss)

loaded-set : (c : ConfigParser) (key value : Text) → loaded (set c key value) ≡ loaded c
loaded-set c key value = get_vector-set c key value plugins

loaded-default_device : (l : CommandLine) → loaded (default_device l) ≡ loaded l.cfg
loaded-default_device l = elim (Bool-cases l.device_set) [
  | inl e ↦ rw e refl
  | inr e ↦ rw e (loaded-set l.cfg _ _)
]

loaded-default_host : (b : Bool) (c : ConfigParser) → loaded (default_host b c) ≡ loaded c
loaded-default_host true c = refl
loaded-default_host false c = loaded-set c _ _

-- Whatever is chosen after the switches, the plugins stay.
loaded-choose_proxies : (l : CommandLine) → loaded (choose_proxies l) ≡ loaded l.cfg
unfolding choose_proxies
loaded-choose_proxies l = host_cases l.host l.is_server
  where
    host_cases :
        (host : Option Text) (at_server : Bool)
        → loaded (elim host [
          | some address ↦
              set
                (with_proxies l.cfg (codes "DeviceProxy_LibUSB") (codes "HostProxy_TCP"))
                (codes "HostProxy_TCP::TCPAddress")
                address
          | none ↦
              if at_server
              then with_proxies l.cfg (codes "DeviceProxy_TCP") (codes "HostProxy_GadgetFS")
              else default_host l.host_set (default_device l)
        ])
          ≡ loaded l.cfg
    host_cases (some address) at_server =
        loaded-set _ _ address ∙ (loaded-set _ _ _ ∙ loaded-set l.cfg _ _)
    host_cases none true = loaded-set _ _ _ ∙ loaded-set l.cfg _ _
    host_cases none false = loaded-default_host l.host_set _ ∙ loaded-default_device l

abbrev loaded_of : Option ConfigParser → List Text
loaded_of none = []
loaded_of (some c) = loaded c

chosen :
    (ss : List Switch) (c : ConfigParser) (o : Option CommandLine)
    → AddsAll command_line ss o
    → (elim o [ none ↦ none | some l ↦ some (choose_proxies l) ]) ≡ some c
    → loaded c ≡ named_by_all ss
unfolding AddsAll
chosen ss c none k h = absurd (ground arith)
chosen ss c (some l) k h =
    sym (ap loaded_of h)
    ∙ (loaded-choose_proxies l
        ∙ (k ∙ ap (λ xs. xs ++ named_by_all ss) (get_vector-config_parser plugins)))

-- The plugins of the configuration are those that the switches name, in the order of the command
-- line, if the program does not exit with its usage or with a file that cannot be opened.
pub get_vector-configuration :
    (ss : List Switch) (c : ConfigParser)
    → configuration ss ≡ some c
    → get_vector c plugins ≡ named_by_all ss
unfolding configuration
get_vector-configuration ss c h =
    chosen ss c (take_switches command_line ss) (take_switches-AddsAll command_line ss) h

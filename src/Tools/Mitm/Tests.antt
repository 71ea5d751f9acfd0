-- ===== src/Tools/Mitm/Tests.antt =====
-- src/tools/usb-mitm.cpp: runs on small inputs.
use usbproxy_legacy.Prelude.{◌≡◌, refl, none, some, List, [], ◌∷◌}
use usbproxy_legacy.Filters.MassStorage.{codes}
use usbproxy_legacy.ConfigParser.{ConfigParser, get_vector, config_parser, set}
use usbproxy_legacy.Tools.Mitm.{
  Switch, plugin, key_logger, not_named, xbox, client, help, plugins, take_switch, take_switches,
  choose_proxies, configuration, log_keys, add_plugin,
}
use usbproxy_legacy.Tools.Mitm.Plugins.{named_by_all, get_vector-configuration}

-- usb-mitm -k -x -P Mine -c there
abbrev switches : List Switch
switches = key_logger not_named ∷ xbox ∷ plugin (codes "Mine") ∷ client (codes "there") ∷ []

-- The configuration before the proxies are chosen.
abbrev with_plugins : ConfigParser
with_plugins =
    add_plugin
      (add_plugin
        (set (add_plugin (log_keys config_parser (some 2)) (codes "Injector_UDPHID"))
          (codes "Injector_UDP::port") (codes "12345"))
        (codes "PacketFilter_UDPHID"))
      (codes "Mine")

abbrev chosen_configuration : ConfigParser
chosen_configuration =
    set
      (set (set with_plugins (codes "DeviceProxy") (codes "DeviceProxy_LibUSB")) (codes "HostProxy")
        (codes "HostProxy_TCP"))
      (codes "HostProxy_TCP::TCPAddress") (codes "there")

run_of_switches : configuration switches ≡ some chosen_configuration
unfolding configuration take_switches take_switch choose_proxies
run_of_switches = refl

get_vector-configuration_example : get_vector chosen_configuration plugins ≡ named_by_all switches
get_vector-configuration_example =
    get_vector-configuration switches chosen_configuration run_of_switches

exits_with_usage : configuration (help ∷ []) ≡ none
unfolding configuration take_switches take_switch
exits_with_usage = refl

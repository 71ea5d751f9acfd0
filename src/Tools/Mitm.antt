-- ===== src/Tools/Mitm.antt =====
-- src/tools/usb-mitm.cpp: from the command line to the configuration that the manager is given. A
-- switch comes with its argument, and with what the system makes of it.
pub mod Plugins
mod Tests
use usbproxy_legacy.Prelude.{
  ℕ, suc, Bool, true, false, Option, none, some, List, [], ◌∷◌, if◌then◌else◌,
}
use usbproxy_legacy.Filters.MassStorage.{codes}
use usbproxy_legacy.ConfigParser.{
  ConfigParser, Text, config_parser, set, add_to_vector, add_pointer, parse_file,
}

-- `stderr` as a pointer.
abbrev stderr : Option ℕ
stderr = some 2

abbrev pub plugins : Text
plugins = codes "Plugins"

-- The file of the key logger: none is named, or it is opened, or it cannot be opened.
pub data KeyFile : Type 0 where
  not_named not_opened : KeyFile
  opened : ℕ → KeyFile

-- -v, -p, -P, -D, -H, -c and -w with their text, -C with the lines of its file if
-- it can be opened, -k with its file, -d,
-- -s, -l, -m, -i, -x, and -h or an unknown one.
pub data Switch : Type 0 where
  vendor product plugin device_proxy host_proxy client pcap : Text → Switch
  config_file : Option (List Text) → Switch
  key_logger : KeyFile → Switch
  verbose server stream_log mass_storage udp xbox help : Switch

pub record CommandLine : Type 0 where
  pub cfg : ConfigParser
  pub host : Option Text
  pub is_server : Bool
  pub device_set : Bool
  pub host_set : Bool
  pub debug : ℕ
  pub keylog_output_file : Option ℕ

abbrev pub command_line : CommandLine
command_line = record {
  cfg = config_parser;
  host = none;
  is_server = false;
  device_set = false;
  host_set = false;
  debug = 0;
  keylog_output_file = none;
}

abbrev pub add_plugin : ConfigParser → Text → ConfigParser
add_plugin c name = add_to_vector c plugins name

-- The file of the key logger, and the filter that is demonstrated with it.
abbrev pub log_keys : ConfigParser → Option ℕ → ConfigParser
log_keys c file =
    add_plugin
      (add_pointer (add_plugin c (codes "PacketFilter_KeyLogger"))
        (codes "PacketFilter_KeyLogger::file") file)
      (codes "PacketFilter_ROT13")

-- One pass of the loop over the switches; `none` is the exit with 1.
unfoldable pub take_switch : CommandLine → Switch → Option CommandLine
take_switch l (vendor t) = some (record l { cfg = set l.cfg (codes "vendorId") t })
take_switch l (product t) = some (record l { cfg = set l.cfg (codes "productId") t })
take_switch l (plugin t) = some (record l { cfg = add_plugin l.cfg t })
take_switch l (device_proxy t) =
    some (record l { cfg = set l.cfg (codes "DeviceProxy") t; device_set = true })
take_switch l (host_proxy t) =
    some (record l { cfg = set l.cfg (codes "HostProxy") t; host_set = true })
take_switch l (client t) = some (record l { host = some t })
take_switch l (pcap t) = some (record l {
  cfg =
      set (add_plugin l.cfg (codes "PacketFilter_PcapLogger"))
        (codes "PacketFilter_PcapLogger::Filename") t;
})
take_switch l (config_file file) = some (record l { cfg = parse_file l.cfg file })
take_switch l (key_logger not_named) = some (record l { cfg = log_keys l.cfg stderr })
take_switch l (key_logger not_opened) = none
take_switch l (key_logger (opened f)) =
    some (record l { cfg = log_keys l.cfg (some f); keylog_output_file = some f })
take_switch l verbose = some (record l { debug = suc l.debug })
take_switch l server = some (record l { is_server = true })
take_switch l stream_log = some (record l {
  cfg =
      add_pointer (add_plugin l.cfg (codes "PacketFilter_StreamLog"))
        (codes "PacketFilter_StreamLog::file") stderr;
})
take_switch l mass_storage =
    some (record l { cfg = add_plugin l.cfg (codes "PacketFilter_MassStorage") })
take_switch l udp = some (record l {
  cfg = set (add_plugin l.cfg (codes "Injector_UDP")) (codes "Injector_UDP::Port") (codes "12345");
})
take_switch l xbox = some (record l {
  cfg =
      add_plugin
        (set (add_plugin l.cfg (codes "Injector_UDPHID")) (codes "Injector_UDP::port")
          (codes "12345"))
        (codes "PacketFilter_UDPHID");
})
take_switch l help = none

unfoldable pub take_switches : CommandLine → List Switch → Option CommandLine
take_switches l [] = some l
take_switches l (s ∷ ss) = elim (take_switch l s) [ none ↦ none | some l' ↦ take_switches l' ss ]

abbrev pub with_proxies : ConfigParser → Text → Text → ConfigParser
with_proxies c device host = set (set c (codes "DeviceProxy") device) (codes "HostProxy") host

abbrev pub default_device : CommandLine → ConfigParser
default_device l =
    if l.device_set then l.cfg else set l.cfg (codes "DeviceProxy") (codes "DeviceProxy_LibUSB")

abbrev pub default_host : Bool → ConfigParser → ConfigParser
default_host host_set c =
    if host_set then c else set c (codes "HostProxy") (codes "HostProxy_GadgetFS")

-- What is chosen after the switches.
unfoldable pub choose_proxies : CommandLine → ConfigParser
choose_proxies l = elim l.host [
  | some address ↦
      set (with_proxies l.cfg (codes "DeviceProxy_LibUSB") (codes "HostProxy_TCP"))
        (codes "HostProxy_TCP::TCPAddress") address
  | none ↦
      if l.is_server
      then with_proxies l.cfg (codes "DeviceProxy_TCP") (codes "HostProxy_GadgetFS")
      else default_host l.host_set (default_device l)
]

-- The configuration that load_plugins is given.
unfoldable pub configuration : List Switch → Option ConfigParser
configuration ss = elim (take_switches command_line ss) [
  | none ↦ none
  | some l ↦ some (choose_proxies l)
]

-- ===== src/Lib.antt =====
-- A verification library for USBProxy, a proxy between a USB device and a USB host: threads relay
-- control requests and data through queues and filters, and a model of the device answers for its
-- descriptors. Paths are those of the repository.
--
-- The parts and their files:
--
-- - Packet: the packets of src/lib/Packet.h. A shared pointer to one is a PacketPtr.
-- - SafeQueue: the bounded queue between two threads (src/lib/SafeQueue.hpp). The lock makes each
--   call one step; a dequeue that waits is a call that returns nothing.
-- - Relay: the threads of RelayReader and RelayWriter (src/lib). Relay.Types has what they call, as
--   an interface: filters, the device proxy, the manager. Relay.Writer is one pass of
--   relay_write_setup over a packet, Relay.Setup the two threads of endpoint 0 with their queues
--   and please_stop as a step function over events, Relay.Data the threads of the other endpoints.
-- - Criteria and PacketFilter: which endpoints, interfaces, configurations and devices a filter
--   applies to, and which packets (src/lib/Criteria.h, Criteria.cpp, PacketFilter.h,
--   PacketFilter.cpp).
-- - Filters.Rot13, Filters.KeyLogger, Filters.MassStorage, Filters.UdpHid: four filters of
--   src/Plugins/Filters, the last with the reports of Injector_UDPHID. Filters.Power is a fifth.
-- - Manager: src/lib/Manager.cpp. Manager.Plugins has the arrays of filters and injectors,
--   Manager.Stop stop_relaying, Manager.Control start_control_relaying, Manager.Data
--   start_data_relaying and setConfig (set_configuration); Manager.Steps and Manager.Started follow
--   the start through every stop by another thread, Manager.Placed, Manager.Attached and
--   Manager.Configured what becomes of each data endpoint, Manager.Arrays the plugins from
--   load_plugins to cleanup. The manager uses the criteria and the model of the device.
-- - Devices.Loopback: src/Plugins/Devices/DeviceProxy_Loopback.cpp, its ring and its answers.
-- - Devices.LibUsb: src/Plugins/Devices/DeviceProxy_LibUSB.cpp, over a record of the calls of libusb:
--   Connect has the choice of the device, Claims the interfaces that are held, Transfers the loops
--   of attempts.
-- - Devices.Dot11: src/Plugins/Devices/DeviceProxy_dot11.cpp, over a record of the calls of lorcon;
--   Tools.Dot11Control is the tool that sends its commands
--   (src/tools/additional/dot11_control.c).
-- - Hosts.GadgetFs: src/Plugins/Hosts/HostProxy_GadgetFS.cpp, over the record of system calls of
--   Hosts.Kernel: Generate, Intervals, Served and Layout have the descriptor, Requests the events, Transfers and Waiting
--   the endpoints' transfers, Endpoints, Slots and Opened setConfig. Hosts.GadgetHelpers is
--   GadgetFS_helpers.c.
-- - Devices.TcpDevice and Hosts.TcpHost: src/Plugins/Devices/DeviceProxy_TCP.cpp and
--   src/Plugins/Hosts/HostProxy_TCP.cpp, the messages of endpoint 0 and setConfig; Messages has what
--   one of the two makes of the other's, Opening the loop of a server over its endpoints.
-- - Tools.Mitm: src/tools/usb-mitm.cpp, from the switches of the command line to the configuration.
-- - Injectors.Udp: the packet in a datagram, of Injector_UDP and Injector_UDPHID
--   (src/Plugins/Injectors).
-- - Injectors.Listen: the loop of src/lib/Injector.cpp. Counts says what becomes of a packet, and Sound
--   that the indices of the queues stay within the lists.
-- - HexString: src/lib/HexString.cpp, bytes as text.
-- - ConfigParser: src/lib/ConfigParser.cpp, its stripping of blanks, its lines and its maps.
-- - Tcp: src/lib/TCP_Helper.cpp, the bookkeeping of its ports; the results of the system calls are
--   arguments.
-- - Descriptors: the packed structs of linux/usb/ch9.h.
-- - Usb: the model of the device (src/lib): Errors is DefinitionErrors.h, and Endpoint, Interface
--   with HID, InterfaceGroup, Configuration, UsbString (USBString), DeviceQualifier and Device are
--   the classes of these names. A constructor from bytes works on the list of the bytes that are
--   left.
--
-- State is passed explicitly; a pointer that may be null is an Option; a byte buffer is a list, in
-- which a read beyond the end is 0. Output to stderr is left out, except what the key logger
-- prints.
--
-- Loops are recursive on their lists, but for a few. Interface.parse and
-- Configuration.parse_interfaces take fuel: a descriptor of length 0 keeps the code in place for
-- ever. The theorems parse-get_full_descriptor and parse_interfaces-bytes_of say how much is enough
-- for a complete interface and for a list of them. The loops of Manager.Control.connect, which wait
-- for a device or a host, take fuel for each call: one that answers within it is enough. Those of
-- Manager.Plugins.cleanup take one round more than there are plugins. A run of threads is over a
-- list of events.
--
-- The end of a function without a return statement, which is undefined behaviour, is a result of its
-- own in Devices.Dot11. The buffer of the gadget's descriptor is taken to be large enough, as a data
-- packet of the mass storage filter is taken to hold a whole block, and the queue of a data endpoint
-- to hold no setup packet.
--
-- The attempts of a transfer of libusb are at most five, and a call of control_request reads the
-- events that the kernel gives at once: both loops need no fuel.
--
-- Not modelled: PluginManager, the
-- bindings and the filters that write files, which are calls of other libraries and of the system; the
-- destructor of the manager, and a stop of the manager by another thread while it is neither idle,
-- nor relaying, nor setting up; floating point, for which the polling interval stands as the number
-- of binary digits that its formula gives for each byte.
mod Prelude
pub mod Devices
pub mod ConfigParser
pub mod Tcp
pub mod Injectors
pub mod Manager
pub mod Packet
pub mod SafeQueue
pub mod Descriptors
pub mod Criteria
pub mod PacketFilter
pub mod Filters
pub mod Relay
pub mod Usb
pub mod Tools
pub mod Hosts
pub mod HexString

-- ===== src/Devices.antt =====
-- src/Plugins/Devices: the device proxies.
pub mod Loopback
pub mod LibUsb
pub mod Dot11
pub mod TcpDevice

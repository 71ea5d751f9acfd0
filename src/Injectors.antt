-- ===== src/Injectors.antt =====
-- src/Plugins/Injectors: threads that put packets from elsewhere into the traffic.
pub mod Udp
pub mod Listen

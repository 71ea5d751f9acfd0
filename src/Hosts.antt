-- ===== src/Hosts.antt =====
-- src/Plugins/Hosts: the host proxies.
pub mod Kernel
pub mod GadgetHelpers
pub mod GadgetFs
pub mod TcpHost

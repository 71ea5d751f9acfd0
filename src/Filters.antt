-- ===== src/Filters.antt =====
-- src/Plugins/Filters: the packet filters that change or record traffic, one module each.
pub mod Rot13
pub mod Power
pub mod UdpHid
pub mod KeyLogger
pub mod MassStorage

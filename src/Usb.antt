-- ===== src/Usb.antt =====
-- The model of a USB device in lib: endpoints, interfaces, configurations, and their descriptors.
pub mod Errors
pub mod Endpoint
pub mod Interface
pub mod InterfaceGroup
pub mod Configuration
pub mod UsbString
pub mod DeviceQualifier
pub mod Device
mod Tests

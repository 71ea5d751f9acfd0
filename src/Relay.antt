-- ===== src/Relay.antt =====
-- src/lib/RelayReader.cpp and src/lib/RelayWriter.cpp: the threads that carry packets between the
-- host side and the device side.
pub mod Types
pub mod Writer
pub mod Setup
pub mod Data
mod Tests

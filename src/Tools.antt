-- ===== src/Tools.antt =====
-- src/tools: the programs beside the library.
pub mod Dot11Control
pub mod Mitm
mod Tests

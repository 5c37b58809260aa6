-- ===== src/Devices.antt =====
-- The devices that the library brings (fairmq/devices).
pub mod Splitter
pub mod Sink
pub mod Multiplier
mod Tests

-- ===== src/Controller.antt =====
-- The control plugin (fairmq/plugins/Control.cxx), which drives a device through the plugin services.
pub mod Device
pub mod Sequences
pub mod Moves
pub mod Shutdown
pub mod Startup
mod Tests

-- ===== src/Device.antt =====
-- FairMQDevice (fairmq/FairMQDevice.cxx).
pub mod BindEndpoint
pub mod Inputs
pub mod Attach
pub mod Init
mod Tests

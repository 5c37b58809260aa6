-- ===== src/Plugins.antt =====
-- PluginServices (fairmq/PluginServices.h and .cxx), the device as plugins see it: its states and
-- the transitions that a plugin asks for.
pub mod Names
pub mod Control
pub mod Exclusive
pub mod States
mod Tests

pub data DeviceState : Type 0 where
  ok error idle initializing_device device_ready initializing_task ready running : DeviceState
  paused resetting_task resetting_device exiting : DeviceState

pub data DeviceStateTransition : Type 0 where
  init_device init_task run pause resume stop reset_task reset_device : DeviceStateTransition
  end error_found : DeviceStateTransition

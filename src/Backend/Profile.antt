-- ===== src/Backend/Profile.antt =====
-- `Profile` and the policies of daemon/backend.hpp.
use meta_monutchee.Base.{String, Option, List}
use meta_monutchee.System.{Configuration, BootPreferences}

pub record InterfacePolicy : Type 0 where
  pub name : String
  pub device_tree_node : String

pub record SensorPolicy : Type 0 where
  pub zone : String
  pub label : String

pub record Profile : Type 0 where
  pub settings_user : String
  pub control_user : String
  pub state_directory : String
  pub active_settings : String
  pub runtime_root : String
  pub runtime_etc_directory : String
  pub storage_status_file : String
  pub interfaces : List InterfacePolicy
  pub sensors : List SensorPolicy
  pub defaults : Configuration
  pub ssh_socket : String
  pub ssh_service : String
  pub ntp_units : List String
  pub irig_units : List String
  pub ptp_units : List String
  pub ptp_unit_templates : List String
  pub reset_paths : List String
  pub boot_preferences : Option BootPreferences

-- ===== src/System/Config.antt =====
-- The configuration of `common/mnc/system/system.hpp`, with the defaulted `operator==`.
use meta_monutchee.Base.{
  ℕ, String, Bool, true, false, ◌&&◌, List, [], ◌≡◌, ◌↔◌, arith, Eq, ◌==◌, eq_iff, string_eq,
  list_eq, nat_eq,
}

pub data NetworkMode : Type 0 where
  dhcp static_ipv4 : NetworkMode

pub record NetworkConfig : Type 0 where
  pub interface : String
  pub mode : NetworkMode
  pub address : String
  pub prefix_length : ℕ
  pub gateway : String
  pub dns_servers : List String
  pub preferred_default : Bool

pub record Preferences : Type 0 where
  pub hostname : String
  pub ssh_enabled : Bool
  pub network : List NetworkConfig

pub record TimePreferences : Type 0 where
  pub synchronization : String
  pub timezone : String
  pub ptp_interface : String
  pub ntp_servers : List String

pub record Configuration : Type 0 where
  pub system : Preferences
  pub time : TimePreferences

pub record BootPreferences : Type 0 where
  pub schema_version : ℕ
  pub factory : Configuration
  pub initial : Configuration
  pub managed_hostname : String

-- the default member initialisers
abbrev pub default_preferences : Preferences
default_preferences = record { hostname = "mnc"; ssh_enabled = true; network = [] }

abbrev pub default_time : TimePreferences
default_time = record {
  synchronization = "ntp";
  timezone = "UTC";
  ptp_interface = "";
  ntp_servers = [];
}

abbrev pub mode_beq : NetworkMode → NetworkMode → Bool
mode_beq dhcp dhcp = true
mode_beq static_ipv4 static_ipv4 = true
mode_beq _ _ = false

pub mode_beq_iff : (a b : NetworkMode) → (mode_beq a b ≡ true) ↔ (a ≡ b)
mode_beq_iff dhcp b = ground arith
mode_beq_iff static_ipv4 b = ground arith

instance abbrev pub mode_eq : Eq NetworkMode
mode_eq = record { beq = mode_beq; beq_iff = mode_beq_iff }

abbrev pub bool_beq : Bool → Bool → Bool
bool_beq true b = b
bool_beq false true = false
bool_beq false false = true

pub bool_beq_iff : (a b : Bool) → (bool_beq a b ≡ true) ↔ (a ≡ b)
bool_beq_iff true b = ground arith
bool_beq_iff false b = ground arith

instance abbrev pub bool_eq : Eq Bool
bool_eq = record { beq = bool_beq; beq_iff = bool_beq_iff }

-- `NetworkConfig::operator==`
unfoldable pub network_config_beq : NetworkConfig → NetworkConfig → Bool
network_config_beq a b =
    a.interface == b.interface
    && a.mode == b.mode
    && a.address == b.address
    && a.prefix_length == b.prefix_length
    && a.gateway == b.gateway
    && a.dns_servers == b.dns_servers
    && a.preferred_default == b.preferred_default

pub network_config_beq_iff : (a b : NetworkConfig) → (network_config_beq a b ≡ true) ↔ (a ≡ b)
unfolding network_config_beq
network_config_beq_iff a b = ground (
  arith,
  eq_iff a.interface b.interface,
  mode_beq_iff a.mode b.mode,
  eq_iff a.address b.address,
  eq_iff a.gateway b.gateway,
  (list_eq {A = String}).beq_iff a.dns_servers b.dns_servers,
  bool_beq_iff a.preferred_default b.preferred_default,
)

instance abbrev pub network_config_eq : Eq NetworkConfig
network_config_eq = record { beq = network_config_beq; beq_iff = network_config_beq_iff }

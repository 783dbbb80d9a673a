-- ===== src/Backend/Host.antt =====
-- What the backend calls outside itself: the virtual methods of `Platform`, the files and the clock.
-- Every call is an `Effect`; what it answers may depend on all the calls before it, newest first, so
-- that the host may change between any two calls, on its own or because of them.
use meta_monutchee.Base.{ℕ, String, Bool, List, Option, none, some, [], ◌∷◌}
use meta_monutchee.System.{
  Result, ok, err, Configuration, NetworkConfig, NetworkStatus, TimePreferences, PowerAction,
}
use meta_monutchee.Logging.Fields.{Field}
use meta_monutchee.Backend.State.{State}

-- `StorageBootStatus` of storage.cpp
pub record StorageBootStatus : Type 0 where
  pub factory_reset : Bool
  pub reset_prepared : Bool

pub data Effect : Type 0 where
  discover network_links clock random_id file_hash storage_status : Effect
  validate_configuration preferences : Configuration → Effect
  network : List NetworkConfig → Bool → Effect
  ssh_boot_policy : Bool → Effect
  clock_boot_policy : TimePreferences → Effect
  boot_hostname : String → Effect
  power : PowerAction → Effect
  durable_remove : String → Effect
  write_state : State → Effect
  audit : List Field → Effect

abbrev pub History : Type 0
History = List Effect

-- The answers. `write_state` is `atomicWrite` of the encoded state to `state.json`, `file_hash` is
-- `fileHash(profile_.active_settings)`, and `storage_status` reads `profile_.storage_status_file`.
pub record Host : Type 0 where
  pub discover : History → Result Configuration
  pub network_links : History → Result (List NetworkStatus)
  pub clock : History → Result ℕ
  pub random_id : History → Result String
  pub file_hash : History → Result String
  pub storage_status : History → Result StorageBootStatus
  pub validate_configuration : History → Configuration → Result (Unit {0})
  pub preferences : History → Configuration → Result (Unit {0})
  pub network : History → List NetworkConfig → Bool → Result (Unit {0})
  pub ssh_boot_policy : History → Bool → Result (Unit {0})
  pub clock_boot_policy : History → TimePreferences → Result (Unit {0})
  pub boot_hostname : History → String → Result (Unit {0})
  pub power : History → PowerAction → Result (Unit {0})
  pub durable_remove : History → String → Result (Unit {0})
  pub write_state : History → State → Result (Unit {0})

-- the last journal whose write was acknowledged
abbrev newer : Result (Unit {0}) → State → Option State → Option State
newer (ok _) s older = some s
newer (err _) s older = older

unfoldable pub journal : Host → History → Option State
journal host [] = none
journal host (write_state s ∷ before) = newer (host.write_state before s) s (journal host before)
journal host (_ ∷ before) = journal host before

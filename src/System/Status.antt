-- ===== src/System/Status.antt =====
-- Transactions, jobs and observed links of `common/mnc/system/system.hpp`.
use meta_monutchee.Base.{ℕ, String, Bool, List}
use meta_monutchee.System.Config.{NetworkConfig}

pub record NetworkStatus : Type 0 where
  pub interface : String
  pub mac_address : String
  pub carrier : Bool
  pub addresses : List String
  pub gateway : String
  pub dns_servers : List String

pub record AuditContext : Type 0 where
  pub actor : String
  pub request_id : String

pub record NetworkProposal : Type 0 where
  pub network : List NetworkConfig
  pub previous_settings_hash : String
  pub candidate_settings_hash : String
  pub audit_context : AuditContext

pub record NetworkTransaction : Type 0 where
  pub id : String
  pub state : String
  pub remaining_ms : ℕ
  pub network : List NetworkConfig
  pub message : String

pub record Job : Type 0 where
  pub id : String
  pub action : String
  pub state : String

pub data PowerAction : Type 0 where
  reboot shutdown : PowerAction

-- ===== src/Access/Policy.antt =====
-- `settingsOperation`, `controlOperation` and `allowed` of daemon/access_policy.hpp.
pub mod Roles
use meta_monutchee.Base.{
  ℕ, String, Bool, true, false, ◌||◌, Option, none, some, ◌==◌, string_eq, nat_eq, if◌then◌else◌,
}

unfoldable pub settings_operation : String → Bool
settings_operation name =
    name == "ApplyPreferences"
    || name == "BeginNetwork"
    || name == "PrepareNetworkCommit"
    || name == "FinishNetwork"

unfoldable pub control_operation : String → Bool
control_operation name = name == "Power" || name == "ResetDevice"

abbrev pub read_operation : String → Bool
read_operation name =
    name == "GetStatus"
    || name == "GetTime"
    || name == "ListTimezones"
    || name == "GetTimezoneCatalog"
    || name == "GetTemperatures"
    || name == "GetNetworkTransaction"
    || name == "GetJob"

-- `account && uid == *account`
abbrev pub is_account : Option ℕ → ℕ → Bool
is_account none uid = false
is_account (some account) uid = uid == account

unfoldable pub allowed : String → ℕ → Option ℕ → Option ℕ → Bool
unfolding settings_operation control_operation
allowed name uid settings_uid control_uid =
    if settings_operation name
    then uid == 0 || is_account settings_uid uid
    else if control_operation name
    then uid == 0 || is_account control_uid uid
    else read_operation name

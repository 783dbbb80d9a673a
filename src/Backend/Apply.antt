-- ===== src/Backend/Apply.antt =====
-- `apply` of daemon/storage.cpp.
pub mod Atomic
use meta_monutchee.Base.{
  String, Bool, true, false, ◌&&◌, not, ◌==◌, string_eq, list_eq, Option, none, some,
}
use meta_monutchee.System.{ErrorCode, Configuration, BootPreferences, network_config_eq}
use meta_monutchee.Validation.Preferences.{validate}
use meta_monutchee.Backend.Profile.{Profile}
use meta_monutchee.Backend.State.{State}
use meta_monutchee.Backend.Host.{Effect, Host}
use meta_monutchee.Backend.Monad.{
  M, throw, throw_if, rethrow, gets, modify, ask, lift, catch, ◌>>=◌, ◌>>◌,
}
use meta_monutchee.Backend.Journal.{idle, persist}

-- `profile_.boot_preferences && hostname != profile_.boot_preferences->managed_hostname`
abbrev pub is_foreign_hostname : Option BootPreferences → String → Bool
is_foreign_hostname none hostname = false
is_foreign_hostname (some boot) hostname = not (hostname == boot.managed_hostname)

abbrev pub set_configuration : Configuration → State → State
set_configuration c s = record s { configuration = c }

abbrev pub initialize : Configuration → State → State
initialize c s = record s { configuration = c; initialized = true }

module _ (host : Host) (profile : Profile) where
  -- the tests that `apply` and `beginNetwork` share
  unfoldable pub check_configuration : Configuration → M (Unit {0})
  check_configuration config = do
    lift (validate config)
    throw_if (is_foreign_hostname profile.boot_preferences config.system.hostname)
        ErrorCode.invalid_argument "hostname is managed by production identity"
    ask (Effect.validate_configuration config) (λ h. host.validate_configuration h config)

  -- the two calls by which preferences reach the platform
  unfoldable pub push_preferences : Configuration → M (Unit {0})
  push_preferences config = do
    ask (Effect.preferences config) (λ h. host.preferences h config)
    ask (Effect.ssh_boot_policy config.system.ssh_enabled)
        (λ h. host.ssh_boot_policy h config.system.ssh_enabled)

  -- the body of the inner `try`
  unfoldable pub restore_preferences : Configuration → M (Unit {0})
  unfolding push_preferences
  restore_preferences previous = do push_preferences previous; persist host

  -- the body of the outer `try`
  unfoldable pub store_preferences : Configuration → M (Unit {0})
  unfolding push_preferences
  store_preferences config = do push_preferences config; modify (initialize config); persist host

  unfoldable pub apply : Configuration → M (Unit {0})
  apply config = do
    idle
    check_configuration config
    previous ← gets (λ b. b.state)
    throw_if
        (previous.initialized
          && not (config.system.network == previous.configuration.system.network))
        ErrorCode.invalid_argument "network changes require a confirmation transaction"
    catch (store_preferences config) (λ e. do
      modify (set_configuration previous.configuration)
      catch (restore_preferences previous.configuration)
          (λ _. throw ErrorCode.apply_failed "preferences failed and rollback needs recovery")
      rethrow e)

-- ===== src/Backend/Boot.antt =====
-- The constructor, `bootstrap` and `start` of daemon/storage.cpp.
pub mod Reset
pub mod Started
use meta_monutchee.Base.{
  String, true, false, not, empty, List, [], ◌∷◌, Option, none, some, string_eq, if◌then◌else◌,
}
use meta_monutchee.System.{ErrorCode, Configuration, BootPreferences}
use meta_monutchee.Validation.Preferences.{validate}
use meta_monutchee.Logging.Priority.{info, warning}
use meta_monutchee.Backend.Profile.{Profile}
use meta_monutchee.Backend.State.{State, no_pending, is_accepted, set_job_state, set_hostname}
use meta_monutchee.Backend.Host.{Effect, History, Host}
use meta_monutchee.Backend.Monad.{
  Backend, M, pure, throw_if, gets, modify, ask, lift, when, branch, ◌>>=◌, ◌>>◌,
}
use meta_monutchee.Backend.Journal.{persist, event, audited}
use meta_monutchee.Backend.Settle.{apply_network, recover_network}
use meta_monutchee.Backend.Tick.{add64, clock, set_job_deadline}
use meta_monutchee.Backend.Apply.{set_configuration}

-- `State{}` with the product's defaults
abbrev pub first_state : Profile → State
first_state profile = record {
  configuration = profile.defaults;
  initialized = false;
  pending = no_pending;
  job = record { id = ""; action = ""; state = "" };
  reset_intent = false;
  job_actor = "system";
  job_request_id = "";
}

-- an old journal with no PTP port takes the product's
abbrev pub adopt_ptp_port : Profile → State → State
adopt_ptp_port profile s =
    if empty s.configuration.time.ptp_interface
    then record s {
      configuration = record (s.configuration) {
        time = record (s.configuration.time) {
          ptp_interface = profile.defaults.time.ptp_interface;
        };
      };
    }
    else s

abbrev loaded : Profile → Option State → State
loaded profile none = first_state profile
loaded profile (some s) = s

-- the constructor, on the journal that `state.json` holds, if there is one
unfoldable pub construct : Profile → Option State → History → Backend
construct profile stored history = record {
  state = adopt_ptp_port profile (loaded profile stored);
  carriers = [];
  next_network_observation = 0;
  storage_failed = false;
  job_deadline = 0;
  history = history;
}

abbrev pub clear_reset : State → State
clear_reset s = record (set_job_state "completed" s) { reset_intent = false }

abbrev pub factory_state : Configuration → State → State
factory_state defaults s = record s {
  configuration = defaults;
  initialized = true;
  pending = no_pending;
}

abbrev pub set_initialized : State → State
set_initialized s = record s { initialized = true }

module _ (host : Host) where
  -- `for (const auto &path : profile_.reset_paths) durableRemove(path);`
  unfoldable pub remove_all : List String → M (Unit {0})
  remove_all [] = pure tt
  remove_all (path ∷ rest) =
      ask (Effect.durable_remove path) (λ h. host.durable_remove h path) >> remove_all rest

  -- network, SSH and clock of the stored configuration, before their services start
  unfoldable pub apply_boot_policies : M (Unit {0})
  apply_boot_policies = do
    c ← gets (λ b. b.state.configuration)
    apply_network host c.system.network true
    ask (Effect.ssh_boot_policy c.system.ssh_enabled)
        (λ h. host.ssh_boot_policy h c.system.ssh_enabled)
    ask (Effect.clock_boot_policy c.time) (λ h. host.clock_boot_policy h c.time)

  -- the test of the storage that the boot has prepared
  unfoldable pub check_prepared : Profile → M (Unit {0})
  check_prepared profile = do
    unprepared ←
        branch (not (empty profile.storage_status_file))
          (ask Effect.storage_status host.storage_status >>= λ status.
            pure (not status.reset_prepared))
          (pure false)
    throw_if unprepared ErrorCode.unavailable "storage reset recovery did not complete"

  -- what follows the removals
  unfoldable pub install_defaults : Profile → M (Unit {0})
  unfolding apply_boot_policies
  install_defaults profile = do
    modify (factory_state profile.defaults)
    apply_boot_policies
    modify clear_reset
    persist host
    s ← gets (λ b. b.state)
    event info (
        audited "device_reset_completed" "administration" "Device reset completed" s.job_actor
          "device_reset" "completed" "device" s.job_request_id)

  -- the branch on `reset_intent`
  unfoldable pub complete_reset : Profile → M (Unit {0})
  complete_reset profile = do
    check_prepared profile
    remove_all profile.reset_paths
    install_defaults profile

  -- the branch on `profile_.boot_preferences`, or none
  unfoldable pub first_boot : Profile → Option BootPreferences → M (Unit {0})
  unfolding apply_boot_policies
  first_boot profile none =
      ask (Effect.clock_boot_policy profile.defaults.time)
        (λ h. host.clock_boot_policy h profile.defaults.time)
  first_boot profile (some boot) = do
    modify (set_configuration boot.initial)
    apply_boot_policies
    modify set_initialized
    persist host

  unfoldable pub resume_boot : M (Unit {0})
  unfolding apply_boot_policies
  resume_boot = do recover_network host true; apply_boot_policies

  -- the hostname of the production identity
  unfoldable pub fix_hostname : Option BootPreferences → M (Unit {0})
  fix_hostname none = pure tt
  fix_hostname (some boot) = do
    modify (set_hostname boot.managed_hostname)
    ask (Effect.boot_hostname boot.managed_hostname)
        (λ h. host.boot_hostname h boot.managed_hostname)
    persist host

  unfoldable pub bootstrap : Profile → M (Unit {0})
  bootstrap profile = do
    s ← gets (λ b. b.state)
    branch s.reset_intent (complete_reset profile)
        (branch s.initialized resume_boot (first_boot profile profile.boot_preferences))
    fix_hostname profile.boot_preferences

  -- a job that was accepted before the process ended
  unfoldable pub interrupt_job : M (Unit {0})
  interrupt_job = do
    accepted ← gets (λ b. is_accepted b.state)
    when accepted (do
      modify (set_job_state "interrupted")
      persist host
      s ← gets (λ b. b.state)
      event warning (
          audited "system_operation_interrupted" "administration" "System operation interrupted"
            s.job_actor s.job.action "interrupted" "device" s.job_request_id))

  unfoldable pub adopt_running_system : M (Unit {0})
  adopt_running_system = do
    config ← ask Effect.discover host.discover
    modify (set_configuration config)
    lift (validate config)
    modify set_initialized
    persist host

  unfoldable pub start : M (Unit {0})
  start = do
    s ← gets (λ b. b.state)
    branch s.reset_intent (clock host >>= λ now. set_job_deadline (add64 now 5000)) (do
      when (not s.initialized) adopt_running_system
      recover_network host false
      interrupt_job)

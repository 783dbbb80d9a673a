-- ===== src/Backend/Jobs.antt =====
-- `power`, `resetDevice` and `job` of daemon/storage.cpp. `PowerAction` has two values, so the test
-- for any other has no counterpart.
use meta_monutchee.Base.{String, Bool, true, false, not, empty, ◌==◌, string_eq, if◌then◌else◌}
use meta_monutchee.System.{ErrorCode, Job, PowerAction, reboot, shutdown}
use meta_monutchee.Logging.Priority.{info}
use meta_monutchee.Backend.Profile.{Profile}
use meta_monutchee.Backend.State.{State}
use meta_monutchee.Backend.Host.{Effect, Host, StorageBootStatus}
use meta_monutchee.Backend.Monad.{M, pure, throw_if, gets, modify, ask, branch, ◌>>=◌, ◌>>◌}
use meta_monutchee.Backend.Journal.{idle, persist, event, audited}
use meta_monutchee.Backend.Tick.{add64, clock, set_job_deadline}

abbrev pub action_name : PowerAction → String
action_name reboot = "reboot"
action_name shutdown = "shutdown"

-- `state_.job = {id, action, "accepted"}` with its author
abbrev pub accept_job : String → String → String → String → State → State
accept_job id action actor request_id s = record s {
  job = record { id = id; action = action; state = "accepted" };
  job_actor = actor;
  job_request_id = request_id;
}

abbrev pub intend_reset : State → State
intend_reset s = record s { reset_intent = true }

module _ (host : Host) where
  -- the tail that `power` and `resetDevice` share: journal, audit, then the deadline
  unfoldable pub schedule_job : M Job
  unfolding event
  schedule_job = do
    persist host
    s ← gets (λ b. b.state)
    event info (
        audited
          (if s.job.action == "device_reset" then "device_reset_requested" else "power_requested")
          "administration"
          (if s.job.action == "device_reset"
            then "Device reset requested"
            else "Power operation requested")
          s.job_actor s.job.action "accepted" "device" s.job_request_id)
    now ← clock host
    set_job_deadline (add64 now 5000)
    gets (λ b. b.state.job)

  unfoldable pub power : PowerAction → String → String → M Job
  power action actor request_id = do
    idle
    id ← ask Effect.random_id host.random_id
    modify (accept_job id (action_name action) actor request_id)
    schedule_job

  abbrev read_storage : M StorageBootStatus
  read_storage = ask Effect.storage_status host.storage_status

  unfoldable pub reset_device : Profile → Bool → String → String → M Job
  reset_device profile confirmed actor request_id = do
    throw_if (not confirmed) ErrorCode.invalid_argument
        "whole-device reset requires explicit confirmation"
    idle
    incapable ←
        branch (not (empty profile.storage_status_file))
          (read_storage >>= λ status. pure (not status.factory_reset)) (pure false)
    throw_if incapable ErrorCode.unavailable "factory reset requires persistent state and data"
    id ← ask Effect.random_id host.random_id
    modify (accept_job id "device_reset" actor request_id)
    modify intend_reset
    schedule_job

-- `Backend::job`
abbrev pub job : M Job
job = gets (λ b. b.state.job)

-- ===== src/Backend/Tick.antt =====
-- `tick` of daemon/storage.cpp: deadlines of transactions and jobs, and the network observer.
use meta_monutchee.Base.{
  ℕ, ◌+◌, ◌%◌, ◌^◌, String, false, not, leb, nat_beq, ◌==◌, string_eq, if◌then◌else◌,
}
use meta_monutchee.System.{ok, ErrorCode, PowerAction, reboot, shutdown}
use meta_monutchee.Logging.Priority.{info, error}
use meta_monutchee.Backend.Profile.{Profile}
use meta_monutchee.Backend.State.{is_pending, set_job_state}
use meta_monutchee.Backend.Host.{Effect, Host}
use meta_monutchee.Backend.Monad.{M, throw_if, rethrow, gets, modify, ask, when, catch, ◌>>=◌, ◌>>◌}
use meta_monutchee.Backend.Journal.{persist, event, audited}
use meta_monutchee.Backend.Observe.{observe_network}
use meta_monutchee.Backend.Settle.{recover_network}

-- `std::uint64_t` addition
abbrev pub add64 : ℕ → ℕ → ℕ
add64 a b = (a + b) % 2 ^ 64

abbrev pub set_observation : ℕ → M (Unit {0})
set_observation t b = (ok tt, record b { next_network_observation = t })

abbrev pub set_job_deadline : ℕ → M (Unit {0})
set_job_deadline t b = (ok tt, record b { job_deadline = t })

abbrev pub power_action : String → PowerAction
power_action action = if action == "shutdown" then shutdown else reboot

module _ (host : Host) where
  abbrev pub clock : M ℕ
  clock = ask Effect.clock host.clock

  abbrev call_power : PowerAction → M (Unit {0})
  call_power action = ask (Effect.power action) (λ h. host.power h action)

  -- an event about the job, with its action
  unfoldable pub job_event : String → String → String → String → M (Unit {0})
  unfolding event
  job_event code message outcome severity = do
    s ← gets (λ b. b.state)
    event (if severity == "error" then error else info) (
        audited code "administration" message s.job_actor s.job.action outcome "device"
          s.job_request_id)

  -- the job's deadline has passed: the journal knows of the handoff before the power call
  unfoldable pub dispatch_job : M (Unit {0})
  unfolding job_event persist
  dispatch_job = do
    set_job_deadline 0
    modify (set_job_state "dispatched")
    persist host
    action ← gets (λ b. power_action b.state.job.action)
    catch
        (do
          call_power action
          job_event "system_operation_dispatched" "System operation dispatched" "dispatched" "info")
        (λ e. do
          modify (set_job_state "failed")
          persist host
          job_event "system_operation_failed" "System operation failed" "failed" "error"
          rethrow e)

  unfoldable pub observe_when_due : Profile → M (Unit {0})
  observe_when_due profile = do
    due ← gets (λ b. b.next_network_observation)
    now ← clock
    when (leb due now)
        (do later ← clock; set_observation (add64 later 1000); observe_network host profile)

  -- the clock is read only for an open transaction
  unfoldable pub expire_transaction : M (Unit {0})
  expire_transaction = do
    s ← gets (λ b. b.state)
    when (is_pending s)
        (do now ← clock; when (leb s.pending.deadline now) (recover_network host false))

  -- the clock is read only for a job with a deadline
  unfoldable pub dispatch_when_due : M (Unit {0})
  dispatch_when_due = do
    deadline ← gets (λ b. b.job_deadline)
    when (not (nat_beq deadline 0)) (do now ← clock; when (leb deadline now) dispatch_job)

  unfoldable pub tick : Profile → M (Unit {0})
  tick profile = do
    throw_if (← gets (λ b. b.storage_failed)) ErrorCode.unavailable
        "system journal requires recovery"
    observe_when_due profile
    expire_transaction
    dispatch_when_due

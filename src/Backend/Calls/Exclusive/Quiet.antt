-- ===== src/Backend/Calls/Exclusive/Quiet.antt =====
-- The methods and parts of methods that open no transaction and accept no job.
use meta_monutchee.Base.{String, Bool, true, false, arith, refl}
use meta_monutchee.System.{Configuration, NetworkProposal}
use meta_monutchee.Backend.Profile.{Profile}
use meta_monutchee.Backend.State.{State, set_job_state}
use meta_monutchee.Backend.Host.{Host}
use meta_monutchee.Backend.Journal.{idle}
use meta_monutchee.Backend.Tick.{
  tick, dispatch_job, job_event, observe_when_due, expire_transaction, dispatch_when_due,
}
use meta_monutchee.Backend.Apply.{
  apply, check_configuration, push_preferences, store_preferences, restore_preferences, initialize,
  set_configuration,
}
use meta_monutchee.Backend.Network.{network_transaction, check_hashes, remaining, check_finish}
use meta_monutchee.Backend.Settle.{settled}
use meta_monutchee.Backend.Calls.Rules.{Keeps, keeps_rules}
use meta_monutchee.Backend.Calls.Exclusive.{
  IsExclusive, IsStable, persist-Keeps, recover_network-Keeps, observe_network-Keeps,
  set_observation-Keeps, set_job_deadline-Keeps,
}

pub dispatched-IsExclusive :
    (s : State) → IsExclusive s → IsExclusive (set_job_state "dispatched" s)
dispatched-IsExclusive s h = record { no_job = λ e. refl; no_reset = h.no_reset }

pub failed-IsExclusive : (s : State) → IsExclusive s → IsExclusive (set_job_state "failed" s)
failed-IsExclusive s h = record { no_job = λ e. refl; no_reset = h.no_reset }

pub initialize-IsExclusive :
    (c : Configuration) (s : State) → IsExclusive s → IsExclusive (initialize c s)
initialize-IsExclusive c s h = record { no_job = h.no_job; no_reset = h.no_reset }

pub set_configuration-IsExclusive :
    (c : Configuration) (s : State) → IsExclusive s → IsExclusive (set_configuration c s)
set_configuration-IsExclusive c s h = record { no_job = h.no_job; no_reset = h.no_reset }

settled-IsExclusive : (commit : Bool) (s : State) → IsExclusive s → IsExclusive (settled commit s)
settled-IsExclusive true s h = ground arith
settled-IsExclusive false s h = ground arith

pub IsExclusive-IsStable : IsStable IsExclusive
IsExclusive-IsStable = record {
  settles = settled-IsExclusive;
  dispatches = dispatched-IsExclusive;
  fails = failed-IsExclusive;
}

module _ (host : Host) (profile : Profile) where
  pub job_event-Keeps :
      {P : State → Type 0} (code message outcome severity : String)
      → Keeps P (job_event host code message outcome severity)
  unfolding job_event
  job_event-Keeps code message outcome severity = search keeps_rules depth 12

  pub dispatch_job-Keeps : {P : State → Type 0} (stable : IsStable P) → Keeps P (dispatch_job host)
  unfolding dispatch_job
  dispatch_job-Keeps {P} stable =
      search
        (
          keeps_rules, job_event-Keeps, persist-Keeps, set_job_deadline-Keeps, stable.dispatches,
          stable.fails,
        )
        depth 18

  pub observe_when_due-Keeps :
      {P : State → Type 0} (stable : IsStable P) → Keeps P (observe_when_due host profile)
  unfolding observe_when_due
  observe_when_due-Keeps {P} stable =
      search (keeps_rules, set_observation-Keeps, observe_network-Keeps) depth 14

  pub expire_transaction-Keeps :
      {P : State → Type 0} (stable : IsStable P) → Keeps P (expire_transaction host)
  unfolding expire_transaction
  expire_transaction-Keeps {P} stable = search (keeps_rules, recover_network-Keeps, stable) depth 14

  pub dispatch_when_due-Keeps :
      {P : State → Type 0} (stable : IsStable P) → Keeps P (dispatch_when_due host)
  unfolding dispatch_when_due
  dispatch_when_due-Keeps {P} stable = search (keeps_rules, dispatch_job-Keeps, stable) depth 14

  pub tick-Keeps : {P : State → Type 0} (stable : IsStable P) → Keeps P (tick host profile)
  unfolding tick
  tick-Keeps {P} stable =
      search
        (
          keeps_rules, observe_when_due-Keeps, stable, expire_transaction-Keeps, stable,
          dispatch_when_due-Keeps, stable,
        )
        depth 16

  pub check_configuration-Keeps :
      {P : State → Type 0} (c : Configuration) → Keeps P (check_configuration host profile c)
  unfolding check_configuration
  check_configuration-Keeps c = search keeps_rules depth 14

  pub push_preferences-Keeps :
      {P : State → Type 0} (c : Configuration) → Keeps P (push_preferences host profile c)
  unfolding push_preferences
  push_preferences-Keeps c = search keeps_rules depth 14

  pub store_preferences-Keeps :
      {P : State → Type 0} (c : Configuration)
      → ((s : State) → P s → P (initialize c s))
      → Keeps P (store_preferences host profile c)
  unfolding store_preferences
  store_preferences-Keeps c initializes =
      search (keeps_rules, push_preferences-Keeps, persist-Keeps, initializes) depth 14

  pub restore_preferences-Keeps :
      {P : State → Type 0} (c : Configuration) → Keeps P (restore_preferences host profile c)
  unfolding restore_preferences
  restore_preferences-Keeps c = search (keeps_rules, push_preferences-Keeps, persist-Keeps) depth 14

  pub idle-Keeps : {P : State → Type 0} → Keeps P idle
  unfolding idle
  idle-Keeps = search keeps_rules depth 12

  pub apply-Keeps : (c : Configuration) → Keeps IsExclusive (apply host profile c)
  unfolding apply
  apply-Keeps c =
      search
        (
          keeps_rules, idle-Keeps, check_configuration-Keeps, store_preferences-Keeps,
          restore_preferences-Keeps, set_configuration-IsExclusive, initialize-IsExclusive,
        )
        depth 18

  pub remaining-Keeps : {P : State → Type 0} → Keeps P (remaining host profile)
  unfolding remaining
  remaining-Keeps = search keeps_rules depth 14

  pub check_hashes-Keeps :
      {P : State → Type 0} (p : NetworkProposal) → Keeps P (check_hashes host profile p)
  unfolding check_hashes
  check_hashes-Keeps p = search keeps_rules depth 14

  pub network_transaction-Keeps :
      {P : State → Type 0} (stable : IsStable P) → Keeps P (network_transaction host profile)
  unfolding network_transaction
  network_transaction-Keeps {P} stable =
      search (keeps_rules, tick-Keeps, stable, remaining-Keeps) depth 16

  pub check_finish-Keeps :
      {P : State → Type 0} (commit : Bool) → Keeps P (check_finish host profile commit)
  unfolding check_finish
  check_finish-Keeps commit = search keeps_rules depth 16

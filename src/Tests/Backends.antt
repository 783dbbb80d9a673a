-- ===== src/Tests/Backends.antt =====
-- The backend on concrete inputs.
use meta_monutchee.Base.{
  ◌^◌, ◌-◌, arith, true, [], ◌∷◌, ◌≡◌, ◌≢◌, ◌≤◌, ◌+◌, refl, ◌⊎◌, inl, inr, List,
}
use meta_monutchee.System.{NetworkConfig, ok, reboot}
use meta_monutchee.Backend.Journal.{idle, persist, check_id, event}
use meta_monutchee.Backend.Settle.{settle_network, recover_network}
use meta_monutchee.Backend.Settle.Outcome.{Recovers, recover_network-Recovers, recover_network_idle}
use meta_monutchee.Backend.Network.{open_transaction, check_finish, finish_network}
use meta_monutchee.Backend.Network.Open.{Begun, open_transaction-Begun}
use meta_monutchee.Backend.Network.Finish.{Finishes, finish_network-Finishes}
use meta_monutchee.Backend.Network.Retry.{finish_network_unrecorded}
use meta_monutchee.Backend.Network
use meta_monutchee.Backend.Tick
use meta_monutchee.Backend.Calls.Stuck.{IsStuck, calls-IsStuck}
use meta_monutchee.Backend.Frame.{IsSafe, powers, armed}
use meta_monutchee.Backend.Calls.Machine.{Steps, view}
use meta_monutchee.Backend.Calls.Machine.Follows.{calls-Steps}
use meta_monutchee.Backend.Calls.{Call, calls, accepted_jobs}
use meta_monutchee.Backend.Calls.AtMostOnce.{calls_at_most_once}
use meta_monutchee.Backend.Calls.Exclusive.{IsExclusive}
use meta_monutchee.Backend.Calls.Exclusive.Holds.{calls-IsExclusive}
use meta_monutchee.Backend.Apply.{check_configuration}
use meta_monutchee.Backend.Network.{check_hashes, prepare_now, remaining}
use meta_monutchee.Backend.Network.Checked.{Checked, begin_network-Checked}
use meta_monutchee.Backend.Network.Prepare.{Prepares, prepare_now-Prepares}
use meta_monutchee.Backend.Network.Remaining.{remaining-wraps}
use meta_monutchee.Backend.Observe.{observe_network, observe_links}
use meta_monutchee.Backend.Tick.{observe_when_due, expire_transaction, dispatch_when_due}
use meta_monutchee.Backend.Settle.{is_durably_committed}
use meta_monutchee.Backend.Boot.{start, interrupt_job}
use meta_monutchee.Backend.Boot.Started.{Starts, start-Starts}
use meta_monutchee.Logging.UserLog.{user_write, valid_user_event}
use meta_monutchee.Logging.Fields.{identifier, safe_text}
use meta_monutchee.Validation.Preferences.{validate}
use meta_monutchee.Validation.Ipv4.{ipv4}
use meta_monutchee.Tests.Setting.{
  old_host, late_host, pending, interrupted, host, full_host, profile, proposal, ready, committing,
  failed,
}

recover_network-Recovers_example :
    Recovers host true committing (recover_network host true committing)
recover_network-Recovers_example = recover_network-Recovers host true committing refl

recover_network_idle_example : recover_network host true ready ≡ (ok tt, ready)
recover_network_idle_example = recover_network_idle host true ready refl

open_transaction-Begun_example :
    Begun host proposal "admin" "7" ready (open_transaction host profile proposal "admin" "7" ready)
open_transaction-Begun_example = open_transaction-Begun host profile proposal "admin" "7" ready

finish_network-Finishes_example :
    Finishes host profile "00ff" true "admin" "8" committing
      (finish_network host profile "00ff" true "admin" "8" committing)
finish_network-Finishes_example =
    finish_network-Finishes host profile "00ff" true "admin" "8" committing

finish_network_unrecorded_example :
    let (r, b') = finish_network full_host profile "00ff" true "admin" "8" committing in
    (r ≢ ok tt) × (finish_network full_host profile "00ff" true "other" "9" b' ≡ (ok tt, b'))
unfolding finish_network check_id check_finish settle_network persist event
finish_network_unrecorded_example =
    finish_network_unrecorded full_host profile "00ff" true "admin" "8" "other" "9" committing refl
      refl

calls-IsStuck_example : IsStuck host failed (
    calls host profile
      (Call.finish_network "00ff" true "admin" "7" ∷ Call.power reboot "admin" "8" ∷ Call.tick ∷ [])
      failed)
calls-IsStuck_example =
    calls-IsStuck host profile
      (Call.finish_network "00ff" true "admin" "7" ∷ Call.power reboot "admin" "8" ∷ Call.tick ∷ [])
      failed refl

calls_at_most_once_example :
    let cs = Call.power reboot "admin" "7" ∷ Call.tick ∷ [] in
    let b' = calls host profile cs ready in
    (powers b'.history
      ≤ powers ready.history + armed ready.job_deadline + accepted_jobs host profile cs ready)
    × (IsSafe host ready.history → IsSafe host b'.history)
calls_at_most_once_example =
    calls_at_most_once host profile (Call.power reboot "admin" "7" ∷ Call.tick ∷ []) ready

calls-IsExclusive_example :
    IsExclusive
      (calls host profile
        (Call.begin_network proposal "admin" "7" ∷ Call.power reboot "admin" "8" ∷ [])
        ready).state
calls-IsExclusive_example =
    calls-IsExclusive host profile
      (Call.begin_network proposal "admin" "7" ∷ Call.power reboot "admin" "8" ∷ []) ready
      (record { no_job = λ e. refl; no_reset = λ e. refl })

-- the settings of the two sides, and of no other call
abbrev IsProposed : List NetworkConfig → Type 0
IsProposed n = (n ≡ ready.state.configuration.system.network) ⊎ ((n ≡ proposal.network) ⊎ (n ≡ []))

calls-Steps_example : Steps IsProposed (view ready.state) (
    view
      (calls host profile (Call.begin_network proposal "admin" "7" ∷ Call.tick ∷ []) ready).state)
calls-Steps_example =
    calls-Steps host profile IsProposed (Call.begin_network proposal "admin" "7" ∷ Call.tick ∷ [])
      ready (inr (inl refl), (tt, tt))
      (record { in_force = inl refl; candidate = inr (inr refl); previous = inr (inr refl) })

begin_network-Checked_example : Checked old_host proposal ready
unfolding Network.begin_network idle check_configuration check_hashes open_transaction persist event
    Network.network_transaction Tick.tick observe_when_due observe_network observe_links
    expire_transaction recover_network dispatch_when_due remaining validate ipv4 user_write
    valid_user_event identifier safe_text
begin_network-Checked_example =
    begin_network-Checked old_host profile proposal "admin" "7" ready refl

prepare_now-Prepares_example :
    Prepares old_host "00ff" pending (prepare_now old_host profile "00ff" pending)
prepare_now-Prepares_example = prepare_now-Prepares old_host profile "00ff" pending

remaining-wraps_example : (remaining late_host profile pending).0 ≡ ok (2 ^ 64 - 1)
remaining-wraps_example =
    remaining-wraps late_host profile pending 129999 130001 refl refl refl (omega arith)
      (omega arith) (omega arith) (omega arith)

start-Starts_example : Starts (start host interrupted).1.state
unfolding start recover_network is_durably_committed settle_network persist event interrupt_job
    user_write valid_user_event identifier safe_text
start-Starts_example = start-Starts host interrupted refl refl

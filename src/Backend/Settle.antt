-- ===== src/Backend/Settle.antt =====
-- `settleNetwork` and `recoverNetwork` of daemon/storage.cpp.
pub mod Outcome
use meta_monutchee.Base.{String, Bool, false, List, ◌==◌, string_eq, if◌then◌else◌}
use meta_monutchee.System.{NetworkConfig}
use meta_monutchee.Logging.Priority.{info}
use meta_monutchee.Logging.UserLog.{UserEvent}
use meta_monutchee.Backend.State.{State, Pending, is_pending, set_network}
use meta_monutchee.Backend.Host.{Effect, Host}
use meta_monutchee.Backend.Monad.{M, pure, gets, modify, ask, when, branch, ◌>>=◌, ◌>>◌}
use meta_monutchee.Backend.Journal.{persist, event, audited}

-- the networks to settle on
abbrev pub settled_network : Bool → State → List NetworkConfig
settled_network commit s = if commit then s.pending.transaction.network else s.pending.previous

abbrev pub settled_name : Bool → String
settled_name commit = if commit then "committed" else "rolled_back"

-- the state that `settleNetwork` stores
abbrev pub settled : Bool → State → State
settled commit s = record (set_network (settled_network commit s) s) {
  pending = record (s.pending) {
    transaction = record (s.pending.transaction) { state = settled_name commit; remaining_ms = 0 };
  };
}

abbrev pub settled_event : Bool → String → Pending → UserEvent
settled_event commit reason p =
    audited
      (if commit
        then "network_configuration_committed"
        else if reason == "cancel"
        then "network_configuration_cancelled"
        else if reason == "timeout"
        then "network_configuration_timed_out"
        else "network_configuration_rolled_back")
      "network"
      (if commit
        then "Network settings confirmed"
        else if reason == "cancel"
        then "Network settings cancelled"
        else if reason == "timeout"
        then "Network settings confirmation timed out"
        else "Network settings restored")
      p.actor "configure_network" (if commit then "completed" else "rolled_back") "network"
      p.request_id

module _ (host : Host) where
  abbrev pub apply_network : List NetworkConfig → Bool → M (Unit {0})
  apply_network network bootstrap =
      ask (Effect.network network bootstrap) (λ h. host.network h network bootstrap)

  abbrev pub file_hash : M String
  file_hash = ask Effect.file_hash host.file_hash

  unfoldable pub settle_network : Bool → Bool → String → M (Unit {0})
  settle_network commit bootstrap reason = do
    next ← gets (λ b. settled_network commit b.state)
    apply_network next bootstrap
    modify (settled commit)
    persist host
    p ← gets (λ b. b.state.pending)
    event info (settled_event commit reason p)

  -- `state == "committing" && fileHash(active_settings) == candidate_hash`; the file is read only for
  -- a transaction that is committing
  unfoldable pub is_durably_committed : M Bool
  is_durably_committed = do
    s ← gets (λ b. b.state)
    branch (s.pending.transaction.state == "committing")
        (file_hash >>= λ hash. pure (hash == s.pending.candidate_hash)) (pure false)

  unfoldable pub recover_network : Bool → M (Unit {0})
  unfolding settle_network is_durably_committed
  recover_network bootstrap = do
    open_transaction ← gets (λ b. is_pending b.state)
    when open_transaction (do
      committed ← is_durably_committed
      settle_network committed bootstrap (if bootstrap then "recovery" else "timeout"))

-- ===== src/Backend/Journal.antt =====
-- `persist`, `pending`, `idle`, `checkId` and `event` of daemon/storage.cpp.
use meta_monutchee.Base.{String, Bool, true, ◌||◌, not, [], ◌∷◌, ◌==◌, string_eq, none, some}
use meta_monutchee.System.{ok, ErrorCode}
use meta_monutchee.Logging.Priority.{Priority}
use meta_monutchee.Logging.UserLog.{UserEvent, user_write}
use meta_monutchee.Backend.State.{State, is_pending, is_accepted}
use meta_monutchee.Backend.Host.{Effect, Host}
use meta_monutchee.Backend.Monad.{Backend, M, throw_if, rethrow, gets, ask, catch, ◌>>=◌, ◌>>◌}

-- `storage_failed_ = true`
abbrev fail_storage : M (Unit {0})
fail_storage b = (ok tt, record b { storage_failed = true })

module _ (host : Host) where
  abbrev write_state : M (Unit {0})
  write_state b = ask (Effect.write_state b.state) (λ h. host.write_state h b.state) b

  unfoldable pub persist : M (Unit {0})
  persist = do
    throw_if (← gets (λ b. b.storage_failed)) ErrorCode.unavailable
        "system journal requires recovery"
    catch write_state (λ e. fail_storage >> rethrow e)

abbrev pub is_busy : State → Bool
is_busy s = is_pending s || is_accepted s || s.reset_intent

unfoldable pub idle : M (Unit {0})
idle = do
  throw_if (← gets (λ b. b.storage_failed)) ErrorCode.unavailable "system journal requires recovery"
  throw_if (← gets (λ b. is_busy b.state)) ErrorCode.busy
      "another system transaction is in progress"

unfoldable pub check_id : String → M (Unit {0})
check_id id =
    gets (λ b. not (is_pending b.state) || not (id == b.state.pending.transaction.id)) >>= λ stale.
    throw_if stale ErrorCode.invalid_argument "network transaction is no longer pending"

-- `user_log_` is `UserLog("system-manager", "operations", sink)`. No failure leaves `event`.
abbrev pub logged : Priority → UserEvent → Backend → Backend
logged priority e b = elim (user_write "system-manager" "operations" priority e) [
  | none ↦ b
  | some fields ↦ record b { history = Effect.audit fields ∷ b.history }
]

unfoldable pub event : Priority → UserEvent → M (Unit {0})
event priority e b = (ok tt, logged priority e b)

-- the record that `event` builds from its arguments
abbrev pub audited :
    String → String → String → String → String → String → String → String → UserEvent
audited code category message actor action outcome subject request_id = record {
  code = code;
  category = category;
  message = message;
  actor = actor;
  action = action;
  outcome = outcome;
  subject = subject;
  changed_fields = [];
  request_id = request_id;
}

-- ===== src/Backend/Network.antt =====
-- The network transaction of daemon/storage.cpp: `beginNetwork`, `networkTransaction`,
-- `prepareNetworkCommit` and `finishNetwork`.
pub mod Checked
pub mod Prepare
pub mod Remaining
pub mod Retry
pub mod Open
pub mod Finish
use meta_monutchee.Base.{
  ℕ, ◌+◌, ◌-◌, ◌%◌, ◌^◌, String, Bool, true, false, ◌&&◌, ◌||◌, not, nat_beq, ltb, all, codes, size,
  is_digit, within, ◌==◌, string_eq,
}
use meta_monutchee.System.{ErrorCode, NetworkProposal, NetworkTransaction}
use meta_monutchee.Logging.Priority.{info}
use meta_monutchee.Backend.Profile.{Profile}
use meta_monutchee.Backend.State.{State, Pending, is_pending, set_network, set_transaction_state}
use meta_monutchee.Backend.Host.{Effect, Host}
use meta_monutchee.Backend.Monad.{
  M, pure, throw_if, rethrow, gets, modify, ask, when, branch, catch, ◌>>=◌, ◌>>◌,
}
use meta_monutchee.Backend.Journal.{idle, persist, check_id, event, audited}
use meta_monutchee.Backend.Settle.{apply_network, file_hash, settle_network, settled_name}
use meta_monutchee.Backend.Tick.{add64, clock, tick}
use meta_monutchee.Backend.Apply.{check_configuration}

-- `std::uint64_t` subtraction
abbrev pub sub64 : ℕ → ℕ → ℕ
sub64 a b = (a + 2 ^ 64 - b) % 2 ^ 64

-- the lambda `validHash`
unfoldable pub valid_hash : String → Bool
valid_hash s = nat_beq (size s) 64 && all (λ c. is_digit c || within b'a' b'f' c) (codes s)

abbrev pub set_pending : Pending → State → State
set_pending p s = record s { pending = p }

abbrev pub new_pending : NetworkProposal → State → String → ℕ → String → String → Pending
new_pending p s id now actor request_id = record {
  transaction = record {
    id = id;
    state = "pending";
    remaining_ms = 120000;
    network = p.network;
    message = "Confirm within 120 seconds to retain these addresses";
  };
  previous = s.configuration.system.network;
  previous_hash = p.previous_settings_hash;
  candidate_hash = p.candidate_settings_hash;
  deadline = add64 now 120000;
  actor = actor;
  request_id = request_id;
}

-- `state_.pending.deadline = clock_() + 30000`
abbrev pub extend_deadline : ℕ → State → State
extend_deadline now s = record s { pending = record (s.pending) { deadline = add64 now 30000 } }

abbrev pub set_author : String → String → State → State
set_author actor request_id s = record s {
  pending = record (s.pending) { actor = actor; request_id = request_id };
}

abbrev pub is_finished : String → Bool → State → Bool
is_finished id commit s =
    id == s.pending.transaction.id && s.pending.transaction.state == settled_name commit

module _ (host : Host) (profile : Profile) where
  -- the transaction with the time that is left; the clock is read twice
  unfoldable pub remaining : M ℕ
  remaining = do
    s ← gets (λ b. b.state)
    branch (is_pending s)
        (do
          now ← clock host
          branch (ltb now s.pending.deadline)
              (clock host >>= λ later. pure (sub64 s.pending.deadline later)) (pure 0))
        (pure 0)

  unfoldable pub network_transaction : M NetworkTransaction
  unfolding remaining
  network_transaction = do
    tick host profile
    t ← gets (λ b. b.state.pending.transaction)
    left ← remaining
    pure (record t { remaining_ms = left })

  -- the hashes of a proposal; the file is read only if both are well formed and differ
  unfoldable pub check_hashes : NetworkProposal → M (Unit {0})
  unfolding valid_hash
  check_hashes p = do
    stale ←
        branch
          (not (valid_hash p.previous_settings_hash)
            || not (valid_hash p.candidate_settings_hash)
            || p.previous_settings_hash == p.candidate_settings_hash)
          (pure true) (file_hash host >>= λ hash. pure (not (hash == p.previous_settings_hash)))
    throw_if stale ErrorCode.invalid_argument "settings changed before network proposal"

  -- the new transaction stands in the journal before it reaches the platform
  unfoldable pub open_transaction : NetworkProposal → String → String → M (Unit {0})
  open_transaction p actor request_id = do
    id ← ask Effect.random_id host.random_id
    s ← gets (λ b. b.state)
    now ← clock host
    modify (set_pending (new_pending p s id now actor request_id))
    persist host
    catch (apply_network host p.network false)
        (λ e. do settle_network host false false "recovery"; rethrow e)

  unfoldable pub begin_network : NetworkProposal → String → String → M NetworkTransaction
  begin_network p actor request_id = do
    idle
    config ← gets (λ b. (set_network p.network b.state).configuration)
    check_configuration host profile config
    check_hashes p
    open_transaction p actor request_id
    opened ← gets (λ b. b.state.pending)
    event info (
        audited "network_configuration_pending" "network" "Network settings await confirmation"
          opened.actor "configure_network" "pending" "network" opened.request_id)
    network_transaction

  -- `prepareNetworkCommit` behind its call of `tick`
  unfoldable pub prepare_now : String → M (Unit {0})
  unfolding check_id
  prepare_now id = do
    check_id id
    s ← gets (λ b. b.state)
    when (not (s.pending.transaction.state == "committing")) (do
      hash ← file_hash host
      throw_if (not (hash == s.pending.previous_hash)) ErrorCode.invalid_argument
          "settings changed during network proposal"
      modify (set_transaction_state "committing")
      now ← clock host
      modify (extend_deadline now)
      persist host)

  unfoldable pub prepare_network_commit : String → M (Unit {0})
  unfolding prepare_now
  prepare_network_commit id = do tick host profile; prepare_now id

  -- the two tests of `finishNetwork` that may read the hash of the active settings
  unfoldable pub check_finish : Bool → M (Unit {0})
  check_finish commit = do
    s ← gets (λ b. b.state)
    let committing = s.pending.transaction.state == "committing"
    unsaved ←
        branch (commit && committing)
          (file_hash host >>= λ hash. pure (not (hash == s.pending.candidate_hash))) (pure commit)
    throw_if unsaved ErrorCode.invalid_argument "candidate settings have not been persisted"
    saved ←
        branch (not commit && committing)
          (file_hash host >>= λ hash. pure (hash == s.pending.candidate_hash)) (pure false)
    throw_if saved ErrorCode.busy "network settings already committed"

  unfoldable pub finish_network : String → Bool → String → String → M (Unit {0})
  finish_network id commit actor request_id = do
    finished ← gets (λ b. is_finished id commit b.state)
    when (not finished) (do
      check_id id
      check_finish commit
      modify (set_author actor request_id)
      settle_network host commit false "cancel")

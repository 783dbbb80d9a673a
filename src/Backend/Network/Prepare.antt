-- ===== src/Backend/Network/Prepare.antt =====
-- `prepareNetworkCommit`: from "pending" to "committing".
use meta_monutchee.Base.{ℕ, ◌+◌, ◌%◌, ◌^◌, ◌∷◌, String, ◌≡◌, ◌⊎◌, arith, some, eq_iff, inl, inr}
use meta_monutchee.System.{ok, err, Result, Result-cases}
use meta_monutchee.Backend.Profile.{Profile}
use meta_monutchee.Backend.Host.{Effect, Host, journal}
use meta_monutchee.Backend.Monad.{Backend}
use meta_monutchee.Backend.Journal.{persist, check_id}
use meta_monutchee.Backend.Network.{prepare_now}

-- a time 30 seconds behind what the clock answered
abbrev pub EndsBehind : Result ℕ → ℕ → Type 0
EndsBehind (ok now) deadline = deadline ≡ (now + 30000) % 2 ^ 64
EndsBehind (err _) deadline = ⊥

-- The transaction awaits the end of its commit, and has 30 seconds from the time of a clock reading.
pub record Prepared (host : Host) (b b' : Backend) : Type 0 where
  was_open : b.state.pending.transaction.state ≡ "pending"
  from_hash : host.file_hash b.history ≡ ok b.state.pending.previous_hash
  is_committing : b'.state.pending.transaction.state ≡ "committing"
  has_time : EndsBehind (host.clock (Effect.file_hash ∷ b.history)) b'.state.pending.deadline
  same_network : b'.state.pending.transaction.network ≡ b.state.pending.transaction.network
  same_previous : b'.state.pending.previous ≡ b.state.pending.previous
  same_hash : b'.state.pending.candidate_hash ≡ b.state.pending.candidate_hash
  same_configuration : b'.state.configuration ≡ b.state.configuration
  journalled : journal host b'.history ≡ some b'.state

abbrev pub Prepares : Host → String → Backend → Result (Unit {0}) × Backend → Type 0
Prepares host id b (ok _, b') =
    (b.state.pending.transaction.id ≡ id)
    × (((b.state.pending.transaction.state ≡ "committing") × (b' ≡ b)) ⊎ Prepared host b b')
Prepares host id b (err _, b') =
    (b'.state.configuration ≡ b.state.configuration)
    × (journal host b'.history ≡ journal host b.history)

module _ (host : Host) (profile : Profile) where
  -- If the part of `prepareNetworkCommit` behind its tick returns, the transaction has the id, and it
  -- was committing before and nothing has changed, or it was pending, the active settings had the hash
  -- that the proposal started from, and the last acknowledged journal holds it as committing, with
  -- the same networks and candidate and a deadline 30 seconds, modulo 2^64, from a reading of the clock. If it throws, the configuration and that journal are the old ones.
  pub prepare_now-Prepares :
      (id : String) (b : Backend) → Prepares host id b (prepare_now host profile id b)
  unfolding prepare_now check_id persist journal
  prepare_now-Prepares id b = elim (Result-cases (host.file_hash b.history)) [
    | inl (hash, e) ↦ ground (
      arith,
      eq_iff id b.state.pending.transaction.id,
      eq_iff hash b.state.pending.previous_hash,
      eq_iff b.state.pending.transaction.state "committing",
      eq_iff b.state.pending.transaction.state "pending",
    )
    | inr (e, h) ↦ ground (
      arith,
      eq_iff id b.state.pending.transaction.id,
      eq_iff b.state.pending.transaction.state "committing",
      eq_iff b.state.pending.transaction.state "pending",
    )
  ]

-- ===== src/Backend/Network/Open.antt =====
-- How a network transaction begins.
use meta_monutchee.Base.{String, false, ◌≡◌, ◌∷◌, arith, some}
use meta_monutchee.System.{ok, err, Result, NetworkProposal}
use meta_monutchee.Backend.Profile.{Profile}
use meta_monutchee.Backend.Host.{Effect, Host, journal}
use meta_monutchee.Backend.Monad.{Backend}
use meta_monutchee.Backend.Journal.{persist, event}
use meta_monutchee.Backend.Settle.{settle_network}
use meta_monutchee.Backend.Network.{open_transaction}

-- What a call that opens a transaction has done to the state.
pub record Opened (host : Host) (p : NetworkProposal) (actor request : String) (b b' : Backend)
    : Type 0 where
  is_open : b'.state.pending.transaction.state ≡ "pending"
  proposed : b'.state.pending.transaction.network ≡ p.network
  restorable : b'.state.pending.previous ≡ b.state.configuration.system.network
  from_hash : b'.state.pending.previous_hash ≡ p.previous_settings_hash
  to_hash : b'.state.pending.candidate_hash ≡ p.candidate_settings_hash
  by_actor : b'.state.pending.actor ≡ actor
  for_request : b'.state.pending.request_id ≡ request
  nothing_else : record (b'.state) { pending = b.state.pending } ≡ b.state
  journalled_first :
      journal host (Effect.write_state b'.state ∷ Effect.clock ∷ Effect.random_id ∷ b.history)
      ≡ some b'.state
  then_called :
      b'.history
      ≡ Effect.network p.network false
        ∷ Effect.write_state b'.state
        ∷ Effect.clock
        ∷ Effect.random_id
        ∷ b.history

-- A transaction that could not be begun leaves the configuration alone.
abbrev pub Begun :
    Host → NetworkProposal → String → String → Backend → Result (Unit {0}) × Backend → Type 0
Begun host p actor request b (ok _, b') = Opened host p actor request b b'
Begun host p actor request b (err _, b') = b'.state.configuration ≡ b.state.configuration

module _ (host : Host) (profile : Profile) where
  -- If the part of `beginNetwork` behind its checks returns, the transaction of the proposal is open
  -- with the old network to go back to, nothing else of the state has changed, and the platform was
  -- called once, when the last acknowledged journal held the transaction. If it throws, the
  -- configuration is the old one.
  pub open_transaction-Begun :
      (p : NetworkProposal) (actor request : String) (b : Backend)
      → Begun host p actor request b (open_transaction host profile p actor request b)
  unfolding open_transaction settle_network persist journal event
  open_transaction-Begun p actor request b = ground arith

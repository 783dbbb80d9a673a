-- ===== src/Backend/Failed.antt =====
-- What the backend does after a failed write of its journal.
use meta_monutchee.Base.{String, true, ◌≡◌, arith}
use meta_monutchee.System.{
  err, Result, SystemError, ErrorCode, Configuration, NetworkProposal, PowerAction,
}
use meta_monutchee.Backend.Profile.{Profile}
use meta_monutchee.Backend.Host.{Host}
use meta_monutchee.Backend.Monad.{Backend}
use meta_monutchee.Backend.Journal.{idle}
use meta_monutchee.Backend.Apply.{apply}
use meta_monutchee.Backend.Tick.{tick}
use meta_monutchee.Backend.Network.{begin_network, network_transaction, prepare_network_commit}
use meta_monutchee.Backend.Jobs.{power, reset_device}

abbrev pub needs_recovery : SystemError
needs_recovery = record {
  code = ErrorCode.unavailable;
  message = "system journal requires recovery";
}

-- The call throws `needs_recovery`, reaches nothing outside and changes nothing.
abbrev pub Refused {ℓ} : {A : Type ℓ} → Backend → Result A × Backend → Type ℓ
Refused b outcome = outcome ≡ (err needs_recovery, b)

module _ (host : Host) (profile : Profile) (b : Backend) (failed : b.storage_failed ≡ true) where
  pub apply-Refused : (c : Configuration) → Refused b (apply host profile c b)
  unfolding apply idle
  apply-Refused c = ground arith

  pub begin-Refused :
      (p : NetworkProposal) (actor request : String)
      → Refused b (begin_network host profile p actor request b)
  unfolding begin_network idle
  begin-Refused p actor request = ground arith

  pub tick-Refused : Refused b (tick host profile b)
  unfolding tick
  tick-Refused = ground arith

  pub reading-Refused : Refused b (network_transaction host profile b)
  unfolding network_transaction tick
  reading-Refused = ground arith

  pub prepare-Refused : (id : String) → Refused b (prepare_network_commit host profile id b)
  unfolding prepare_network_commit tick
  prepare-Refused id = ground arith

  pub power-Refused :
      (a : PowerAction) (actor request : String) → Refused b (power host a actor request b)
  unfolding power idle
  power-Refused a actor request = ground arith

  pub reset-Refused :
      (actor request : String) → Refused b (reset_device host profile true actor request b)
  unfolding reset_device idle
  reset-Refused actor request = ground arith

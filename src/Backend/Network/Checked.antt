-- ===== src/Backend/Network/Checked.antt =====
-- What `beginNetwork` has checked when it returns.
use meta_monutchee.Base.{String, true, false, ◌≡◌, ◌≢◌, ◌∷◌, arith, eq_iff, inl, inr}
use meta_monutchee.System.{ok, Result-cases, NetworkProposal, Configuration, succeeds}
use meta_monutchee.Validation.Preferences.{validate}
use meta_monutchee.Backend.Profile.{Profile}
use meta_monutchee.Backend.State.{State, set_network}
use meta_monutchee.Backend.Host.{Effect, Host}
use meta_monutchee.Backend.Monad.{Backend}
use meta_monutchee.Backend.Journal.{idle, is_busy}
use meta_monutchee.Backend.Apply.{check_configuration}
use meta_monutchee.Backend.Network.{begin_network, check_hashes, valid_hash}

-- the configuration that the proposal asks for
abbrev pub proposed : NetworkProposal → State → Configuration
proposed p s = (set_network p.network s).configuration

pub record Checked (host : Host) (p : NetworkProposal) (b : Backend) : Type 0 where
  was_sound : b.storage_failed ≡ false
  was_idle : is_busy b.state ≡ false
  is_valid : validate (proposed p b.state) ≡ ok tt
  platform_agrees : host.validate_configuration b.history (proposed p b.state) ≡ ok tt
  differs : p.previous_settings_hash ≢ p.candidate_settings_hash
  well_formed : valid_hash p.previous_settings_hash ≡ true
  candidate_well_formed : valid_hash p.candidate_settings_hash ≡ true
  is_current :
      host.file_hash (Effect.validate_configuration (proposed p b.state) ∷ b.history)
      ≡ ok p.previous_settings_hash

module _ (host : Host) (profile : Profile) where
  -- If `beginNetwork` returns, the system was idle with a working journal, the configuration with the
  -- proposed network was valid for the validation and for the platform, the hashes are well formed and
  -- differ, and the active settings had the hash that the proposal starts from.
  pub begin_network-Checked :
      (p : NetworkProposal) (actor request : String) (b : Backend)
      → succeeds (begin_network host profile p actor request b).0 ≡ true
      → Checked host p b
  unfolding begin_network idle check_configuration check_hashes
  begin_network-Checked p actor request b h =
      elim (Result-cases
        (host.file_hash (Effect.validate_configuration (proposed p b.state) ∷ b.history))) [
          | inl (hash, e) ↦ ground (
            arith,
            eq_iff hash p.previous_settings_hash,
            eq_iff p.previous_settings_hash p.candidate_settings_hash,
          )
          | inr (e, k) ↦ ground arith
        ]

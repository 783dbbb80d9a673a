-- ===== src/Backend/Boot/Reset.antt =====
-- The device reset at boot: the intent stands in the journal until all the work is done.
use meta_monutchee.Base.{
  String, Bool, ◌==◌, string_eq, true, false, ◌≡◌, List, [], ◌∷◌, some, ◌&&◌, ◌||◌,
}
use meta_monutchee.System.{ok, err, Result, succeeds}
use meta_monutchee.Backend.Profile.{Profile}
use meta_monutchee.Backend.Host.{Effect, History, Host, journal}
use meta_monutchee.Backend.Monad.{Backend}
use meta_monutchee.Backend.Boot.{clear_reset, factory_state}

-- the path has been removed in this history, by a call that succeeded
abbrev pub removed : Host → String → History → Bool
removed host path [] = false
removed host path (Effect.durable_remove p ∷ h) =
    (p == path && succeeds (host.durable_remove h p)) || removed host path h
removed host path (_ ∷ h) = removed host path h

abbrev pub RemovedAll : Host → List String → History → Type 0
RemovedAll host [] history = Unit
RemovedAll host (path ∷ rest) history =
    (removed host path history ≡ true) × RemovedAll host rest history

-- Nothing was stored, and what was removed before still is.
record IsQuiet (host : Host) (b b' : Backend) : Type 0 where
  same_state : b'.state ≡ b.state
  same_failed : b'.storage_failed ≡ b.storage_failed
  same_journal : journal host b'.history ≡ journal host b.history
  still : (path : String) → removed host path b.history ≡ true → removed host path b'.history ≡ true

abbrev Removes : Host → List String → Backend → Result (Unit {0}) × Backend → Type 0
Removes host paths b (ok _, b') = IsQuiet host b b' × RemovedAll host paths b'.history
Removes host paths b (err _, b') = IsQuiet host b b'

module _ (host : Host) where
  -- What the installation of the defaults does.
  abbrev Installs : Profile → Backend → Result (Unit {0}) × Backend → Type 0
  Installs profile b (ok _, b') =
      (b'.state ≡ clear_reset (factory_state profile.defaults b.state))
      × (journal host b'.history ≡ some b'.state)
  Installs profile b (err _, b') = journal host b'.history ≡ journal host b.history

  -- What a reset at boot has done.
  abbrev pub Resets : Profile → Backend → Result (Unit {0}) × Backend → Type 0
  Resets profile b (ok _, b') =
      (b'.state ≡ clear_reset (factory_state profile.defaults b.state))
      × (journal host b'.history ≡ some b'.state)
      × RemovedAll host profile.reset_paths b'.history
  Resets profile b (err _, b') = journal host b'.history ≡ journal host b.history

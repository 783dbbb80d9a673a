-- ===== src/Backend/Apply/Atomic.antt =====
-- `apply` takes effect as a whole or not at all.
use meta_monutchee.Base.{
  Bool-cases, true, false, ◌≡◌, arith, some, none, Option, ◌⊎◌, ◌∷◌, string_eq, String, eq_iff, inl,
  inr, list_beq_iff,
}
use meta_monutchee.System.{ok, err, Result, Configuration, BootPreferences, network_config_eq}
use meta_monutchee.Validation.Preferences.{validate}
use meta_monutchee.Backend.Profile.{Profile}
use meta_monutchee.Backend.Host.{Effect, Host, journal}
use meta_monutchee.Backend.Monad.{Backend}
use meta_monutchee.Backend.Journal.{idle, is_busy, persist}
use meta_monutchee.Backend.Apply.{
  apply, initialize, is_foreign_hostname, check_configuration, store_preferences,
  restore_preferences, push_preferences,
}

-- the hostname is the one of the production identity, if there is one
abbrev pub HasOwnHostname : Option BootPreferences → String → Type 0
HasOwnHostname none hostname = Unit
HasOwnHostname (some boot) hostname = hostname ≡ boot.managed_hostname

is_foreign-Own :
    (identity : Option BootPreferences) (hostname : String)
    → is_foreign_hostname identity hostname ≡ false
    → HasOwnHostname identity hostname
is_foreign-Own none hostname h = tt
is_foreign-Own (some boot) hostname h =
    (eq_iff hostname boot.managed_hostname).0 (ground (arith, h))

-- What a call of `apply` has done to the state.
pub record Stored (host : Host) (c : Configuration) (b b' : Backend) : Type 0 where
  was_sound : b.storage_failed ≡ false
  pub was_idle : is_busy b.state ≡ false
  is_valid : validate c ≡ ok tt
  keeps_network :
      b.state.initialized ≡ true → c.system.network ≡ b.state.configuration.system.network
  pub stored : b'.state ≡ initialize c b.state
  journalled : journal host b'.history ≡ some (initialize c b.state)

-- What the call asked of the platform: to accept the configuration, to take the preferences and then the
-- boot policy; the state was written last.
pub record Pushed (host : Host) (profile : Profile) (c : Configuration) (b b' : Backend)
    : Type 0 where
  own_hostname : HasOwnHostname profile.boot_preferences c.system.hostname
  is_accepted : host.validate_configuration b.history c ≡ ok tt
  takes_preferences : host.preferences (Effect.validate_configuration c ∷ b.history) c ≡ ok tt
  takes_policy :
      host.ssh_boot_policy
        (Effect.preferences c ∷ (Effect.validate_configuration c ∷ b.history))
        c.system.ssh_enabled
      ≡ ok tt
  calls :
      b'.history
      ≡ Effect.write_state (initialize c b.state)
        ∷ (Effect.ssh_boot_policy c.system.ssh_enabled
            ∷ (Effect.preferences c ∷ (Effect.validate_configuration c ∷ b.history)))

-- a refused call may leave the mark of initialisation, and nothing else
abbrev pub Unchanged : Backend → Backend → Type 0
Unchanged b b' = (b'.state ≡ b.state) ⊎ (b'.state ≡ record (b.state) { initialized = true })

abbrev pub Applied : Host → Profile → Configuration → Backend → Result (Unit {0}) × Backend → Type 0
Applied host profile c b (ok _, b') = Stored host c b b' × Pushed host profile c b b'
Applied host profile c b (err _, b') = Unchanged b b'

module _ (host : Host) (profile : Profile) (c : Configuration) (b : Backend) where
  abbrev Stores : Result (Unit {0}) × Backend → Type 0
  Stores (ok _, b') = Stored host c b b'
  Stores (err _, b') = Unchanged b b'

  abbrev Pushes : Result (Unit {0}) × Backend → Type 0
  Pushes (ok _, b') = Pushed host profile c b b'
  Pushes (err _, b') = Unit

  both : (r : Result (Unit {0}) × Backend) → Stores r → Pushes r → Applied host profile c b r
  both (ok _, b') s p = (s, p)
  both (err _, b') s p = s

  apply-Stores : Stores (apply host profile c b)
  unfolding apply idle check_configuration store_preferences restore_preferences push_preferences
      persist journal
  apply-Stores = ground (arith, list_beq_iff c.system.network b.state.configuration.system.network)

  apply-Pushes : Pushes (apply host profile c b)
  unfolding apply idle check_configuration store_preferences restore_preferences push_preferences
      persist
  apply-Pushes =
      elim (Bool-cases (is_foreign_hostname profile.boot_preferences c.system.hostname)) [
        | inl foreign ↦ ground (arith, foreign)
        | inr own ↦
            let owned = is_foreign-Own profile.boot_preferences c.system.hostname own in
            ground (arith, own, owned)
      ]

  pub apply-Applied : Applied host profile c b (apply host profile c b)
  apply-Applied = both (apply host profile c b) apply-Stores apply-Pushes

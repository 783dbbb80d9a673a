-- ===== src/Backend/Settle/Outcome.antt =====
-- How a network transaction ends.
use meta_monutchee.Base.{
  String, Bool, true, false, ◌≡◌, ◌⊎◌, inl, inr, arith, some, List, ◌∷◌, eq_iff, if◌then◌else◌,
}
use meta_monutchee.System.{NetworkConfig, ok, err, Result, Result-cases}
use meta_monutchee.Backend.State.{State, is_pending}
use meta_monutchee.Backend.Host.{Effect, History, Host, journal}
use meta_monutchee.Backend.Monad.{Backend}
use meta_monutchee.Backend.Journal.{persist, event}
use meta_monutchee.Backend.Settle.{settle_network, settled, is_durably_committed, recover_network}

-- the state is stored, and the last acknowledged journal holds it
pub record Recorded (host : Host) (s : State) (b b' : Backend) : Type 0 where
  pub was_sound : b.storage_failed ≡ false
  pub is_sound : b'.storage_failed ≡ false
  pub stored : b'.state ≡ s
  pub journalled : journal host b'.history ≡ some s

-- The platform refused, and the transaction is open as before; or the journal does not work.
abbrev pub Unsettled : State → Backend → Backend → Type 0
Unsettled s b b' =
    ((b'.state ≡ b.state) × (b'.storage_failed ≡ b.storage_failed))
    ⊎ ((b'.state ≡ s) × (b'.storage_failed ≡ true))

-- the network of the side, the proposed one or the one of before
abbrev pub chosen : Bool → State → List NetworkConfig
chosen true s = s.pending.transaction.network
chosen false s = s.pending.previous

abbrev pub outcome_name : Bool → String
outcome_name true = "committed"
outcome_name false = "rolled_back"

-- the calls but for a last record of the audit log
abbrev pub without_record : History → History
without_record (Effect.audit fields ∷ h) = h
without_record h = h

-- The side is in force in the state `s'` and on the platform, which was asked behind the calls `h` and
-- before the state was written; nothing of the transaction but the name of its outcome has changed.
pub record Chosen (host : Host) (commit boot : Bool) (s : State) (h : History) (b' : Backend)
    : Type 0 where
  pub network : b'.state.configuration.system.network ≡ chosen commit s
  pub named : b'.state.pending.transaction.state ≡ outcome_name commit
  pub same_id : b'.state.pending.transaction.id ≡ s.pending.transaction.id
  pub same_candidate : b'.state.pending.transaction.network ≡ s.pending.transaction.network
  pub same_previous : b'.state.pending.previous ≡ s.pending.previous
  pub same_job : b'.state.job ≡ s.job
  pub taken : host.network h (chosen commit s) boot ≡ ok tt
  pub calls :
      without_record b'.history
      ≡ Effect.write_state b'.state ∷ (Effect.network (chosen commit s) boot ∷ h)

abbrev pub Settles : Host → Bool → Bool → Backend → Result (Unit {0}) × Backend → Type 0
Settles host commit boot b (ok _, b') =
    Recorded host (settled commit b.state) b b' × Chosen host commit boot b.state b.history b'
Settles host commit boot b (err _, b') = Unsettled (settled commit b.state) b b'

-- Whether the transaction has been committed to the active settings, as the file is now.
abbrev pub IsSaved : Host → Backend → Type 0
IsSaved host b =
    (b.state.pending.transaction.state ≡ "committing")
    × (host.file_hash b.history ≡ ok b.state.pending.candidate_hash)

-- the side is in force; the hash of the active settings may have been read before
abbrev pub IsInForce : Host → Bool → Bool → Backend → Backend → Type 0
IsInForce host commit boot b b' =
    Chosen host commit boot b.state b.history b'
    ⊎ Chosen host commit boot b.state (Effect.file_hash ∷ b.history) b'

-- What a recovery of an open transaction has done.
abbrev pub Recovers : Host → Bool → Backend → Result (Unit {0}) × Backend → Type 0
Recovers host boot b (ok _, b') =
    (Recorded host (settled true b.state) b b' × (IsSaved host b × IsInForce host true boot b b'))
    ⊎ (Recorded host (settled false b.state) b b'
        × (¬ (IsSaved host b) × IsInForce host false boot b b'))
Recovers host boot b (err _, b') =
    Unsettled (settled true b.state) b b' ⊎ Unsettled (settled false b.state) b b'

abbrev Same : Backend → Backend → Type 0
Same b b' =
    (b'.state ≡ b.state)
    × ((b'.storage_failed ≡ b.storage_failed)
        × ((b'.history ≡ b.history) ⊎ (b'.history ≡ Effect.file_hash ∷ b.history)))

abbrev Decides : Host → Backend → Result Bool × Backend → Type 0
Decides host b (ok true, b') = Same b b' × IsSaved host b
Decides host b (ok false, b') = Same b b' × ¬ (IsSaved host b)
Decides host b (err _, b') = Same b b'

-- the rest of a recovery, behind the decision
recover_with : Host → Bool → String → Result Bool × Backend → Result (Unit {0}) × Backend
recover_with host boot reason (r, b) = elim r [
  | ok committed ↦ settle_network host committed boot reason b
  | err e ↦ (err e, b)
]

module _ (host : Host) where
  pub settle_network-Settles :
      (commit boot : Bool) (reason : String) (b : Backend)
      → Settles host commit boot b (settle_network host commit boot reason b)
  unfolding settle_network persist journal event
  settle_network-Settles true boot reason b = ground arith
  settle_network-Settles false boot reason b = ground arith

  is_durably_committed-Decides : (b : Backend) → Decides host b (is_durably_committed host b)
  unfolding is_durably_committed
  is_durably_committed-Decides b = elim (Result-cases (host.file_hash b.history)) [
    | inl (hash, e) ↦ ground (
      arith,
      eq_iff hash b.state.pending.candidate_hash,
      eq_iff b.state.pending.transaction.state "committing",
    )
    | inr (e, h) ↦ ground (arith, eq_iff b.state.pending.transaction.state "committing")
  ]

  recover-Recovers :
      (boot : Bool) (reason : String) (b : Backend) (r : Result Bool × Backend)
      → Decides host b r
      → Recovers host boot b (recover_with host boot reason r)
  unfolding recover_with
  recover-Recovers boot reason b (ok true, b') d =
      ground (arith, settle_network-Settles true boot reason b')
  recover-Recovers boot reason b (ok false, b') d =
      ground (arith, settle_network-Settles false boot reason b')
  recover-Recovers boot reason b (err e, b') d = ground arith

  -- A recovery of an open transaction keeps the proposed network if the transaction is committing and
  -- the active settings have the candidate's hash, and else goes back to the previous network: the
  -- platform has taken that network, and the state and the last acknowledged journal hold it. If it
  -- throws, the transaction is open as before, or the journal has failed.
  pub recover_network-Recovers :
      (boot : Bool) (b : Backend)
      → is_pending b.state ≡ true
      → Recovers host boot b (recover_network host boot b)
  unfolding recover_network recover_with
  recover_network-Recovers boot b h = rw h (
      recover-Recovers boot (if boot then "recovery" else "timeout") b (is_durably_committed host b)
        (is_durably_committed-Decides b))

  -- With no open transaction a recovery does nothing.
  pub recover_network_idle :
      (boot : Bool) (b : Backend)
      → is_pending b.state ≡ false
      → recover_network host boot b ≡ (ok tt, b)
  unfolding recover_network
  recover_network_idle boot b h = ground arith

-- ===== src/Backend/Network/Finish.antt =====
-- `finishNetwork`: what a confirmation or a cancellation does.
use meta_monutchee.Base.{String, Bool, true, false, ◌≡◌, ◌⊎◌, inl, inr, arith, eq_iff}
use meta_monutchee.System.{ok, err, Result, Result-cases}
use meta_monutchee.Backend.Profile.{Profile}
use meta_monutchee.Backend.State.{is_pending}
use meta_monutchee.Backend.Host.{Host}
use meta_monutchee.Backend.Monad.{Backend}
use meta_monutchee.Backend.Journal.{check_id}
use meta_monutchee.Backend.Settle.{settled}
use meta_monutchee.Backend.Settle.Outcome.{Recorded, Chosen, IsSaved, settle_network-Settles}
use meta_monutchee.Backend.Network.{check_finish, finish_network, is_finished, set_author}

abbrev Same : Backend → Backend → Type 0
Same b b' = (b'.state ≡ b.state) × (b'.storage_failed ≡ b.storage_failed)

-- whether the outcome agrees with the active settings, where the file could be read
abbrev pub Agrees : Host → Bool → Backend → Type 0
Agrees host true b = IsSaved host b
Agrees host false b = ¬ (IsSaved host b)

abbrev Allows : Host → Bool → Backend → Result (Unit {0}) × Backend → Type 0
Allows host commit b (ok _, b') = Same b b' × Agrees host commit b
Allows host commit b (err _, b') = Same b b'

-- What a call of `finishNetwork` has done to the state.
pub record Finished (host : Host) (profile : Profile) (id : String) (commit : Bool)
    (actor request : String) (b b' : Backend) : Type 0 where
  pub was_open : is_pending b.state ≡ true
  pub same_id : b.state.pending.transaction.id ≡ id
  pub agrees : Agrees host commit b
  -- the side is in force on the platform and in the state, behind the calls of the checks
  pub chosen : Chosen host commit false b.state (check_finish host profile commit b).1.history b'
  pub recorded : Recorded host (settled commit (set_author actor request b.state)) b b'

abbrev pub Finishes :
    Host
    → Profile
    → String
    → Bool
    → String
    → String
    → Backend
    → Result (Unit {0}) × Backend
    → Type 0
Finishes host profile id commit actor request b (ok _, b') =
    ((is_finished id commit b.state ≡ true) × (b' ≡ b))
    ⊎ Finished host profile id commit actor request b b'
Finishes host profile id commit actor request b (err _, b') =
    ((b'.state ≡ b.state) × (b'.storage_failed ≡ b.storage_failed))
    ⊎ (((b'.state ≡ set_author actor request b.state) × (b'.storage_failed ≡ b.storage_failed))
        ⊎ ((b'.state ≡ settled commit (set_author actor request b.state))
            × (b'.storage_failed ≡ true)
            × (b.state.pending.transaction.id ≡ id)))

module _ (host : Host) (profile : Profile) where
  check_finish-Allows :
      (commit : Bool) (b : Backend) → Allows host commit b (check_finish host profile commit b)
  unfolding check_finish
  check_finish-Allows true b = elim (Result-cases (host.file_hash b.history)) [
    | inl (hash, e) ↦ ground (
      arith,
      eq_iff hash b.state.pending.candidate_hash,
      eq_iff b.state.pending.transaction.state "committing",
    )
    | inr (e, h) ↦ ground (arith, eq_iff b.state.pending.transaction.state "committing")
  ]
  check_finish-Allows false b = elim (Result-cases (host.file_hash b.history)) [
    | inl (hash, e) ↦ ground (
      arith,
      eq_iff hash b.state.pending.candidate_hash,
      eq_iff b.state.pending.transaction.state "committing",
    )
    | inr (e, h) ↦ ground (arith, eq_iff b.state.pending.transaction.state "committing")
  ]

  -- If `finishNetwork` returns, the transaction had ended that way before and nothing happens, or it
  -- was open under this id, the platform has taken the proposed network for a commit and the one of
  -- before for a cancellation, the state with it is recorded in the journal, and a commit found the
  -- candidate in the active settings while a cancellation did not. If it throws, the configuration is
  -- the old one, or the journal has failed.
  pub finish_network-Finishes :
      (id : String) (commit : Bool) (actor request : String) (b : Backend)
      → Finishes host profile id commit actor request b
          (finish_network host profile id commit actor request b)
  unfolding finish_network check_id
  finish_network-Finishes id commit actor request b = ground (
    arith,
    eq_iff id b.state.pending.transaction.id,
    check_finish-Allows commit b,
    settle_network-Settles host commit false "cancel"
        (record ((check_finish host profile commit b).1) {
          state = set_author actor request (check_finish host profile commit b).1.state;
        }),
  )

-- ===== src/Backend/Network/Remaining.antt =====
-- The time left that `networkTransaction` reports.
use meta_monutchee.Base.{ℕ, ◌-◌, ◌<◌, ◌≤◌, ◌^◌, true, ◌≡◌, ◌∷◌, arith}
use meta_monutchee.System.{ok}
use meta_monutchee.Backend.Profile.{Profile}
use meta_monutchee.Backend.State.{is_pending}
use meta_monutchee.Backend.Host.{Effect, Host}
use meta_monutchee.Backend.Monad.{Backend}
use meta_monutchee.Backend.Network.{remaining}

module _ (host : Host) (profile : Profile) (b : Backend) (now later : ℕ)
    (first : host.clock b.history ≡ ok now)
    (second : host.clock (Effect.clock ∷ b.history) ≡ ok later)
    (pending : is_pending b.state ≡ true) (bounded : b.state.pending.deadline < 2 ^ 64) where
  -- While the clock has not reached the deadline of an open transaction at either reading, what is
  -- reported is the time from the second reading to the deadline.
  pub remaining-exact :
      now < b.state.pending.deadline
      → later ≤ b.state.pending.deadline
      → (remaining host profile b).0 ≡ ok (b.state.pending.deadline - later)
  unfolding remaining
  remaining-exact h k = ground (arith, first, second)

  -- If the clock passes the deadline of an open transaction between the two readings, what is
  -- reported is 2 ^ 64 less the time since the deadline, and not 0.
  pub remaining-wraps :
      now < b.state.pending.deadline
      → b.state.pending.deadline < later
      → later < 2 ^ 64
      → (remaining host profile b).0 ≡ ok (2 ^ 64 - (later - b.state.pending.deadline))
  unfolding remaining
  remaining-wraps h k l = ground (arith, first, second)

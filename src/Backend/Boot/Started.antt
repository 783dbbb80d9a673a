-- ===== src/Backend/Boot/Started.antt =====
-- What `start` leaves behind after an interruption.
use meta_monutchee.Base.{refl, ap, Bool, not, ◌∙◌, true, false, ◌≡◌, inl, inr, arith, Bool-cases}
use meta_monutchee.System.{ok, err, Result, succeeds}
use meta_monutchee.Backend.State.{State, is_pending, is_accepted, set_job_state}
use meta_monutchee.Backend.Host.{Host}
use meta_monutchee.Backend.Monad.{Backend, M, ◌>>=◌, when, branch, modify}
use meta_monutchee.Backend.Journal.{persist, is_busy}
use meta_monutchee.Backend.Settle.{recover_network, settled}
use meta_monutchee.Backend.Settle.Outcome.{
  Recovers, Recorded, recover_network-Recovers, recover_network_idle,
}
use meta_monutchee.Backend.Calls.Rules.{Keeps, keeps_rules}
use meta_monutchee.Backend.Calls.Exclusive.{persist-Keeps}
use meta_monutchee.Backend.Boot.{start, interrupt_job, adopt_running_system}

-- no transaction is open, and nothing else has changed that could make the system busy
record IsRecovered (b b' : Backend) : Type 0 where
  no_transaction : is_pending b'.state ≡ false
  same_reset : b'.state.reset_intent ≡ b.state.reset_intent
  same_initialized : b'.state.initialized ≡ b.state.initialized

abbrev WhenOk : {A : Type 0} → (Backend → Type 0) → Result A × Backend → Type 0
WhenOk P (ok _, b') = P b'
WhenOk P (err _, b') = Unit

-- what `start` leaves behind
abbrev pub Starts : State → Type 0
Starts s = (s.initialized ≡ true) × (is_busy s ≡ false)

abbrev IsStarted : Backend → Type 0
IsStarted b = Starts b.state

settled_closed : (commit : Bool) (s : State) → is_pending (settled commit s) ≡ false
settled_closed true s = refl
settled_closed false s = refl

module _ (host : Host) where
  Recorded-IsRecovered :
      (commit : Bool) (b b' : Backend)
      → Recorded host (settled commit b.state) b b'
      → IsRecovered b b'
  Recorded-IsRecovered commit b b' k = record {
    no_transaction = ap is_pending k.stored ∙ settled_closed commit b.state;
    same_reset = ap (λ (s : State). s.reset_intent) k.stored;
    same_initialized = ap (λ (s : State). s.initialized) k.stored;
  }

  Recovers-IsRecovered :
      (boot : Bool) (b : Backend) (r : Result (Unit {0}) × Backend)
      → Recovers host boot b r
      → WhenOk (IsRecovered b) r
  Recovers-IsRecovered boot b (ok _, b') (inl (k, saved)) = Recorded-IsRecovered true b b' k
  Recovers-IsRecovered boot b (ok _, b') (inr (k, unsaved)) = Recorded-IsRecovered false b b' k
  Recovers-IsRecovered boot b (err e, b') q = tt

  recover_network-IsRecovered :
      (boot : Bool) (b : Backend) → WhenOk (IsRecovered b) (recover_network host boot b)
  recover_network-IsRecovered boot b = elim (Bool-cases (is_pending b.state)) [
    | inl pending ↦ Recovers-IsRecovered boot b _ (recover_network-Recovers host boot b pending)
    | inr closed ↦ rw (recover_network_idle host boot b closed) (ground arith)
  ]

  WhenOk-bind :
      {A B : Type 0} (P Q : Backend → Type 0) (m : M A) (f : A → M B) (b : Backend)
      → WhenOk P (m b)
      → ((a : A) (b' : Backend) → P b' → WhenOk Q (f a b'))
      → WhenOk Q ((m >>= f) b)
  WhenOk-bind {A} {B} P Q m f b h k = go (m b) h
    where
      go :
          (r : Result A × Backend)
          → WhenOk P r
          → WhenOk Q
              (elim (r.0) as (λ _. Result B × Backend) [ ok a ↦ f a r.1 | err e ↦ (err e, r.1) ])
      go (ok a, b') p = k a b' p
      go (err e, b') p = tt

  WhenOk-any : {A : Type 0} (P : Backend → Type 0) (r : Result A × Backend) → P r.1 → WhenOk P r
  WhenOk-any P (ok a, b) h = h
  WhenOk-any P (err e, b) h = tt

  WhenOk-branch :
      {A : Type 0} (P : Backend → Type 0) (t : Bool) (m n : M A) (b : Backend)
      → t ≡ false
      → WhenOk P (n b)
      → WhenOk P (branch t m n b)
  WhenOk-branch P true m n b h k = absurd (cc)
  WhenOk-branch P false m n b h k = k

  abbrev IsAdopted : Backend → Type 0
  IsAdopted b = (b.state.initialized ≡ true) × (b.state.reset_intent ≡ false)

  adopt-IsAdopted :
      (b : Backend)
      → b.state.reset_intent ≡ false
      → WhenOk IsAdopted (when (not b.state.initialized) (adopt_running_system host) b)
  unfolding adopt_running_system persist
  adopt-IsAdopted b h = ground arith

  -- the job is no longer accepted, and the rest changes nothing of that
  mark_interrupted :
      (f : Unit {0} → M (Unit {0})) (b : Backend)
      → Keeps Starts (f tt)
      → IsAdopted b
      → is_pending b.state ≡ false
      → Starts ((modify (set_job_state "interrupted") >>= f) b).1.state
  mark_interrupted f b k h e =
      k.at (record b { state = set_job_state "interrupted" b.state }) (h.0, ground arith)

  when-Starts :
      (t : Bool) (m : M (Unit {0})) (b : Backend)
      → (t ≡ true → Starts (m b).1.state)
      → (t ≡ false → Starts b.state)
      → Starts (when t m b).1.state
  when-Starts true m b h k = h refl
  when-Starts false m b h k = k refl

  interrupt_job-Starts :
      (b : Backend)
      → IsAdopted b
      → is_pending b.state ≡ false
      → Starts (interrupt_job host b).1.state
  unfolding interrupt_job
  interrupt_job-Starts b h k =
      when-Starts (is_accepted b.state) _ b
        (λ _. search (mark_interrupted, keeps_rules, persist-Keeps) depth 14)
        (λ e. (h.0, ground arith))

  recover-interrupt :
      (b : Backend)
      → IsAdopted b
      → WhenOk IsStarted ((recover_network host false >>= λ _. interrupt_job host) b)
  recover-interrupt b h =
      WhenOk-bind (IsRecovered b) IsStarted (recover_network host false) (λ _. interrupt_job host) b
        (recover_network-IsRecovered false b)
        (λ a b' k.
          WhenOk-any IsStarted (interrupt_job host b') (
            interrupt_job-Starts b' (k.same_initialized ∙ h.0, k.same_reset ∙ h.1)
              k.no_transaction))

  start-WhenOk : (b : Backend) → b.state.reset_intent ≡ false → WhenOk IsStarted (start host b)
  unfolding start
  start-WhenOk b h = WhenOk-branch IsStarted b.state.reset_intent _ _ b h (
      WhenOk-bind IsAdopted IsStarted (when (not b.state.initialized) (adopt_running_system host))
        (λ _. recover_network host false >>= λ _. interrupt_job host) b (adopt-IsAdopted b h)
        (λ a b' k. recover-interrupt b' k))

  of-WhenOk :
      {A : Type 0} (P : Backend → Type 0) (r : Result A × Backend)
      → succeeds r.0 ≡ true
      → WhenOk P r
      → P r.1
  of-WhenOk P (ok a, b) h k = k
  of-WhenOk P (err e, b) h k = absurd (ground arith)

  -- If no reset is intended and `start` returns, the system is initialised, and no transaction is
  -- open and no job accepted: whatever the last process left has been settled or interrupted.
  pub start-Starts :
      (b : Backend)
      → b.state.reset_intent ≡ false
      → succeeds (start host b).0 ≡ true
      → Starts (start host b).1.state
  start-Starts b h k = of-WhenOk IsStarted (start host b) k (start-WhenOk b h)

-- ===== src/Backend/Monad.antt =====
-- A method of `Backend` as a state transformer that may throw: what was written stays written.
use meta_monutchee.Base.{ℕ, String, Bool, true, false, List, ◌∷◌}
use meta_monutchee.System.{Result, ok, err, SystemError, ErrorCode}
use meta_monutchee.Backend.State.{State}
use meta_monutchee.Backend.Host.{Effect, History}

-- The members of `Backend` that change, with the calls made so far. `profile_` and the platform do
-- not change and are parameters of the methods.
pub record Backend : Type 0 where
  pub state : State
  pub carriers : List (String × Bool)
  pub next_network_observation : ℕ
  pub storage_failed : Bool
  pub job_deadline : ℕ
  pub history : History

abbrev pub M : Type 0 → Type 0
M A = Backend → Result A × Backend

module _ {A : Type 0} where
  abbrev pub pure : A → M A
  pure a b = (ok a, b)

  abbrev pub throw : ErrorCode → String → M A
  throw code message b = (err (record { code = code; message = message }), b)

  abbrev pub rethrow : SystemError → M A
  rethrow e b = (err e, b)

  abbrev pub gets : (Backend → A) → M A
  gets f b = (ok (f b), b)

  -- a call outside, with its answer
  abbrev pub ask : Effect → (History → Result A) → M A
  ask effect answer b = (answer b.history, record b { history = effect ∷ b.history })

  -- a function of the source that throws and touches nothing of the backend
  abbrev pub lift : Result A → M A
  lift r b = (r, b)

  -- `try { m } catch (...) { handler }`
  abbrev pub catch : M A → (SystemError → M A) → M A
  catch m handler b = let (r, b') = m b in elim r [ ok a ↦ (ok a, b') | err e ↦ handler e b' ]

abbrev pub modify : (State → State) → M (Unit {0})
modify f b = (ok tt, record b { state = f b.state })

infixl 5 ◌>>=◌ ◌>>◌
abbrev pub ◌>>=◌ : {A B : Type 0} → M A → (A → M B) → M B
◌>>=◌ m f b = let (r, b') = m b in elim r [ ok a ↦ f a b' | err e ↦ (err e, b') ]

abbrev pub ◌>>◌ : {A B : Type 0} → M A → M B → M B
m >> k = m >>= λ _. k

-- `if (b) m;`
abbrev pub when : Bool → M (Unit {0}) → M (Unit {0})
when true m = m
when false m = pure tt

-- `if (b) throw Error(...)`
abbrev pub throw_if : Bool → ErrorCode → String → M (Unit {0})
throw_if true code message = throw code message
throw_if false code message = pure tt

-- the two ways of an `if` statement
abbrev pub branch : {A : Type 0} → Bool → M A → M A → M A
branch true m n = m
branch false m n = n

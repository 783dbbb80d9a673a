-- ===== src/Backend/Calls/Rules.antt =====
-- Invariants of the state, kept by a method whether it returns or throws: a rule for each way to
-- build a method.
use meta_monutchee.Base.{String, Bool, true, false, List, ◌∷◌, Option, none, some}
use meta_monutchee.System.{Result, ok, err, SystemError, ErrorCode}
use meta_monutchee.Logging.Fields.{Field}
use meta_monutchee.Logging.Priority.{Priority}
use meta_monutchee.Logging.UserLog.{UserEvent, user_write}
use meta_monutchee.Backend.State.{State}
use meta_monutchee.Backend.Host.{Effect, History}
use meta_monutchee.Backend.Monad.{
  Backend, M, pure, throw, throw_if, rethrow, gets, modify, ask, lift, catch, when, branch, ◌>>=◌,
}
use meta_monutchee.Backend.Journal.{event}

-- from a state of `P` the method ends in one of `Q`
pub record Leads {A : Type 0} (P Q : State → Type 0) (m : M A) : Type 0 where
  pub at : (b : Backend) → P b.state → Q (m b).1.state

pub record Keeps {A : Type 0} (P : State → Type 0) (m : M A) : Type 0 where
  pub at : (b : Backend) → P b.state → P (m b).1.state

module _ {A : Type 0} {P : State → Type 0} where
  pub Keeps-pure : (a : A) → Keeps P (pure a)
  Keeps-pure a = record { at = λ b h. h }

  pub Keeps-gets : (f : Backend → A) → Keeps P (gets f)
  Keeps-gets f = record { at = λ b h. h }

  pub Keeps-ask : (effect : Effect) (answer : History → Result A) → Keeps P (ask effect answer)
  Keeps-ask effect answer = record { at = λ b h. h }

  pub Keeps-lift : (r : Result A) → Keeps P (lift r)
  Keeps-lift r = record { at = λ b h. h }

  pub Keeps-throw : (code : ErrorCode) (message : String) → Keeps P (throw {A = A} code message)
  Keeps-throw code message = record { at = λ b h. h }

  pub Keeps-rethrow : (e : SystemError) → Keeps P (rethrow {A = A} e)
  Keeps-rethrow e = record { at = λ b h. h }

  pub Keeps-branch : (t : Bool) (m n : M A) → Keeps P m → Keeps P n → Keeps P (branch t m n)
  Keeps-branch true m n km kn = km
  Keeps-branch false m n km kn = kn

  pub Keeps-catch :
      (m : M A) (handler : SystemError → M A)
      → Keeps P m
      → ((e : SystemError) → Keeps P (handler e))
      → Keeps P (catch m handler)
  Keeps-catch m handler km kh = record { at = λ b h. go (m b) (km.at b h) }
    where
      go :
          (r : Result A × Backend)
          → P r.1.state
          → P
              (elim (r.0) as (λ _. Result A × Backend) [
                | ok a ↦ (ok a, r.1)
                | err e ↦ handler e r.1
              ]).1.state
      go (ok a, b') q = q
      go (err e, b') q = (kh e).at b' q

module _ {A B : Type 0} {P Q : State → Type 0} where
  -- the first part keeps `P`, and the rest leads to `Q`
  pub Leads-bind :
      (m : M A) (f : A → M B)
      → Keeps P m
      → ((s : State) → P s → Q s)
      → ((a : A) → Leads P Q (f a))
      → Leads P Q (m >>= f)
  Leads-bind m f km weaken kf = record { at = λ b h. go (m b) (km.at b h) }
    where
      go :
          (r : Result A × Backend)
          → P r.1.state
          → Q
              (elim (r.0) as (λ _. Result B × Backend) [
                | ok a ↦ f a r.1
                | err e ↦ (err e, r.1)
              ]).1.state
      go (ok a, b') q = (kf a).at b' q
      go (err e, b') q = weaken b'.state q

module _ {A B : Type 0} {P : State → Type 0} where
  pub Keeps-bind :
      (m : M A) (f : A → M B) → Keeps P m → ((a : A) → Keeps P (f a)) → Keeps P (m >>= f)
  Keeps-bind m f km kf = record {
    at = (Leads-bind m f km (λ s h. h) (λ a. record { at = (kf a).at })).at;
  }

module _ {P : State → Type 0} where
  pub Keeps-modify : (f : State → State) → ((s : State) → P s → P (f s)) → Keeps P (modify f)
  Keeps-modify f k = record { at = λ b h. k b.state h }

  pub Keeps-when : (t : Bool) (m : M (Unit {0})) → Keeps P m → Keeps P (when t m)
  Keeps-when true m km = km
  Keeps-when false m km = record { at = λ b h. h }

  pub Keeps-throw_if :
      (t : Bool) (code : ErrorCode) (message : String) → Keeps P (throw_if t code message)
  Keeps-throw_if true code message = record { at = λ b h. h }
  Keeps-throw_if false code message = record { at = λ b h. h }

  pub Keeps-event : (p : Priority) (e : UserEvent) → Keeps P (event p e)
  unfolding event
  Keeps-event p e = record { at = λ b h. go b (user_write "system-manager" "operations" p e) h }
    where
      go :
          (b : Backend) (fields : Option (List Field))
          → P b.state
          → P
              (elim fields as (λ _. Backend) [
                | none ↦ b
                | some fs ↦ record b { history = Effect.audit fs ∷ b.history }
              ]).state
      go b none h = h
      go b (some fs) h = h

pub ruleset keeps_rules = (
  Keeps-pure, Keeps-gets, Keeps-ask, Keeps-lift, Keeps-throw, Keeps-rethrow, Keeps-branch,
  Keeps-catch, Keeps-bind, Keeps-modify, Keeps-when, Keeps-throw_if, Keeps-event,
)

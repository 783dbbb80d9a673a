-- ===== src/Backend/Frame.antt =====
-- Methods that ask for no more power calls than there are jobs to hand over: a rule for each way to
-- build a method.
pub mod Methods
pub mod Ticks
use meta_monutchee.Base.{
  ℕ, suc, String, Bool, true, false, List, [], ◌∷◌, ◌≡◌, refl, Option, ◌+◌, ◌≤◌, zero, arith, none,
  some,
}
use meta_monutchee.System.{Result, ok, err, SystemError, ErrorCode, PowerAction}
use meta_monutchee.Logging.Fields.{Field}
use meta_monutchee.Logging.Priority.{Priority}
use meta_monutchee.Logging.UserLog.{UserEvent, user_write}
use meta_monutchee.Backend.State.{State}
use meta_monutchee.Backend.Host.{Effect, History, Host, journal}
use meta_monutchee.Backend.Monad.{
  Backend, M, pure, throw, throw_if, rethrow, gets, modify, ask, lift, catch, when, branch, ◌>>=◌,
}
use meta_monutchee.Backend.Journal.{event, logged}

-- the power calls in a history
abbrev pub powers : History → ℕ
powers [] = 0
powers (Effect.power a ∷ before) = suc (powers before)
powers (_ ∷ before) = powers before

-- the last acknowledged journal says that the job has been handed over
abbrev pub SaysDispatched : Option State → Type 0
SaysDispatched none = ⊥
SaysDispatched (some s) = s.job.state ≡ "dispatched"

-- every power call came behind a journal that says so
abbrev pub IsSafe : Host → History → Type 0
IsSafe host [] = Unit
IsSafe host (Effect.power a ∷ before) = SaysDispatched (journal host before) × IsSafe host before
IsSafe host (_ ∷ before) = IsSafe host before

-- the power call that a job with a deadline still has
abbrev pub armed : ℕ → ℕ
armed zero = 0
armed (suc n) = 1

-- From `b` to `b'` no job was armed, and there were no more power calls than jobs to hand over.
pub record Bounded (host : Host) (b b' : Backend) : Type 0 where
  pub budget : powers b'.history + armed b'.job_deadline ≤ powers b.history + armed b.job_deadline
  pub safety : IsSafe host b.history → IsSafe host b'.history

-- so does `m`, whether it returns or throws
pub record Frames (host : Host) {A : Type 0} (m : M A) : Type 0 where
  pub at : (b : Backend) → Bounded host b (m b).1

abbrev is_power : Effect → Bool
is_power (Effect.power a) = true
is_power _ = false

module _ (host : Host) where
  pub Bounded-refl : (b : Backend) → Bounded host b b
  Bounded-refl b = record { budget = omega arith; safety = λ s. s }

  pub Bounded-trans : (a b c : Backend) → Bounded host a b → Bounded host b c → Bounded host a c
  Bounded-trans a b c p q = record {
    budget = omega (arith, p.budget, q.budget);
    safety = λ s. q.safety (p.safety s);
  }

  Bounded-effect :
      (e : Effect) (b : Backend)
      → is_power e ≡ false
      → Bounded host b (record b { history = e ∷ b.history })
  Bounded-effect (Effect.power a) b h = absurd (cc)
  Bounded-effect (Effect.network n t) b h = record { budget = omega arith; safety = λ s. s }
  Bounded-effect _ b h = record { budget = omega arith; safety = λ s. s }

  pub Frames-ask :
      {A : Type 0} (e : Effect) (answer : History → Result A)
      → is_power e ≡ false
      → Frames host (ask e answer)
  Frames-ask e answer h = record { at = λ b. Bounded-effect e b h }

  pub Frames-modify : (f : State → State) → Frames host (modify f)
  Frames-modify f = record { at = λ b. record { budget = omega arith; safety = λ s. s } }

  Bounded-logged : (p : Priority) (e : UserEvent) (b : Backend) → Bounded host b (logged p e b)
  Bounded-logged p e b = go (user_write "system-manager" "operations" p e)
    where
      go :
          (fields : Option (List Field))
          → Bounded host b (elim fields [
            | none ↦ b
            | some fs ↦ record b { history = Effect.audit fs ∷ b.history }
          ])
      go none = Bounded-refl b
      go (some fs) = record { budget = omega arith; safety = λ s. s }

  pub Frames-event : (p : Priority) (e : UserEvent) → Frames host (event p e)
  unfolding event
  Frames-event p e = record { at = Bounded-logged p e }

module _ (host : Host) {A : Type 0} where
  pub Frames-pure : (a : A) → Frames host (pure a)
  Frames-pure a = record { at = Bounded-refl host }

  pub Frames-throw :
      (code : ErrorCode) (message : String) → Frames host (throw {A = A} code message)
  Frames-throw code message = record { at = Bounded-refl host }

  pub Frames-rethrow : (e : SystemError) → Frames host (rethrow {A = A} e)
  Frames-rethrow e = record { at = Bounded-refl host }

  pub Frames-gets : (f : Backend → A) → Frames host (gets f)
  Frames-gets f = record { at = Bounded-refl host }

  pub Frames-lift : (r : Result A) → Frames host (lift r)
  Frames-lift r = record { at = Bounded-refl host }

  pub Frames-branch :
      (t : Bool) (m n : M A) → Frames host m → Frames host n → Frames host (branch t m n)
  Frames-branch true m n km kn = km
  Frames-branch false m n km kn = kn

  pub Frames-catch :
      (m : M A) (handler : SystemError → M A)
      → Frames host m
      → ((e : SystemError) → Frames host (handler e))
      → Frames host (catch m handler)
  Frames-catch m handler km kh = record { at = λ b. go b (m b) (km.at b) }
    where
      go :
          (b : Backend) (r : Result A × Backend)
          → Bounded host b r.1
          → Bounded host b
              (elim (r.0) as (λ _. Result A × Backend) [
                | ok a ↦ (ok a, r.1)
                | err e ↦ handler e r.1
              ]).1
      go b (ok a, b') q = q
      go b (err e, b') q = Bounded-trans host b b' (handler e b').1 q ((kh e).at b')

pub Frames-when :
    (host : Host) (t : Bool) (m : M (Unit {0})) → Frames host m → Frames host (when t m)
Frames-when host true m km = km
Frames-when host false m km = Frames-pure host tt

pub Frames-throw_if :
    (host : Host) (t : Bool) (code : ErrorCode) (message : String)
    → Frames host (throw_if t code message)
Frames-throw_if host true code message = Frames-throw host code message
Frames-throw_if host false code message = Frames-pure host tt

module _ (host : Host) {A B : Type 0} where
  pub Frames-bind :
      (m : M A) (f : A → M B)
      → Frames host m
      → ((a : A) → Frames host (f a))
      → Frames host (m >>= f)
  Frames-bind m f km kf = record { at = λ b. go b (m b) (km.at b) }
    where
      go :
          (b : Backend) (r : Result A × Backend)
          → Bounded host b r.1
          → Bounded host b
              (elim (r.0) as (λ _. Result B × Backend) [ ok a ↦ f a r.1 | err e ↦ (err e, r.1) ]).1
      go b (ok a, b') q = Bounded-trans host b b' (f a b').1 q ((kf a).at b')
      go b (err e, b') q = q

pub ruleset frame_rules = (
  Frames-pure, Frames-throw, Frames-rethrow, Frames-gets, Frames-lift, Frames-branch, Frames-catch,
  Frames-when, Frames-throw_if, Frames-bind, Frames-modify, Frames-event, Frames-ask,
)

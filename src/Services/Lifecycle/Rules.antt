-- ===== src/Services/Lifecycle/Rules.antt =====
-- Predicates on the acts of the process that a part of `execute` keeps, whether it returns or throws.
use meta_monutchee.Base.{Bool, true, false, ◌⊎◌, ◌∷◌, if◌then◌else◌}
use meta_monutchee.Services.Registry.{Fault, Outcome, returned, threw, exhausted}
use meta_monutchee.Services.Lifecycle.{
  Act, Acts, Process, Program, S, pure, lift, ask, perform, request_stop, request_reload,
  stop_requested, take_reload, ◌>>=◌,
}

pub record Keeps {A : Type 0} (P : Acts → Type 0) (u : S A) : Type 0 where
  pub at : (p : Process) → P p.acts → P (u p).1.acts

module _ {A : Type 0} {P : Acts → Type 0} where
  pub Keeps-pure : (a : A) → Keeps P (pure a)
  Keeps-pure a = record { at = λ p h. h }

  pub Keeps-lift : (r : Outcome A) → Keeps P (lift r)
  Keeps-lift r = record { at = λ p h. h }

  pub Keeps-if : (t : Bool) (u v : S A) → Keeps P u → Keeps P v → Keeps P (if t then u else v)
  Keeps-if true u v ku kv = ku
  Keeps-if false u v ku kv = kv

  pub Keeps-ask :
      (act : Act) (answer : Acts → Fault ⊎ A)
      → ((acts : Acts) → P acts → P (act ∷ acts))
      → Keeps P (ask act answer)
  Keeps-ask act answer k = record { at = λ p h. k p.acts h }

module _ {A B : Type 0} {P : Acts → Type 0} where
  pub Keeps-bind :
      (u : S A) (f : A → S B) → Keeps P u → ((a : A) → Keeps P (f a)) → Keeps P (u >>= f)
  Keeps-bind u f ku kf = record { at = λ p h. go (u p) (ku.at p h) }
    where
      go :
          (r : Outcome A × Process)
          → P r.1.acts
          → P
              (elim (r.0) as (λ _. Outcome B × Process) [
                | returned a ↦ f a r.1
                | threw e ↦ (threw e, r.1)
                | exhausted ↦ (exhausted, r.1)
              ]).1.acts
      go (returned a, p) h = (kf a).at p h
      go (threw e, p) h = h
      go (exhausted, p) h = h

module _ {P : Acts → Type 0} where
  pub Keeps-perform :
      (act : Act) → ((acts : Acts) → P acts → P (act ∷ acts)) → Keeps P (perform act)
  Keeps-perform act k = record { at = λ p h. k p.acts h }

  pub Keeps-request_stop : Keeps P request_stop
  Keeps-request_stop = record { at = λ p h. h }

  pub Keeps-request_reload : Keeps P request_reload
  Keeps-request_reload = record { at = λ p h. h }

  pub Keeps-stop_requested : (program : Program) → Keeps P (stop_requested program)
  Keeps-stop_requested program = record { at = λ p h. h }

  pub Keeps-take_reload : (program : Program) → Keeps P (take_reload program)
  Keeps-take_reload program = record { at = λ p h. h }

pub ruleset keeps_rules = (
  Keeps-pure, Keeps-lift, Keeps-if, Keeps-ask, Keeps-bind, Keeps-perform, Keeps-request_stop,
  Keeps-request_reload, Keeps-stop_requested, Keeps-take_reload,
)

-- ===== src/Platform/Rules.antt =====
-- Predicates on the history that a method keeps: a rule for each way to build a method.
use meta_monutchee.Base.{String, Bool, true, false, ◌∷◌}
use meta_monutchee.System.{Result, ErrorCode}
use meta_monutchee.Platform.System.{
  Act, Acts, N, Ended, returned, threw, cut_off, pure, throw, lift, running, ask, observe, when,
  ◌>>=◌,
}

-- a predicate on the history that a method keeps, however it ends
pub record Keeps {A : Type 0} (P : Acts → Type 0) (m : N A) : Type 0 where
  pub at : (acts : Acts) → P acts → P (m acts).1

module _ {A : Type 0} {P : Acts → Type 0} where
  pub Keeps-pure : (a : A) → Keeps P (pure a)
  Keeps-pure a = record { at = λ acts h. h }

  pub Keeps-throw : (code : ErrorCode) (message : String) → Keeps P (throw {A = A} code message)
  Keeps-throw code message = record { at = λ acts h. h }

  pub Keeps-lift : (r : Result A) → Keeps P (lift r)
  Keeps-lift r = record { at = λ acts h. h }

  pub Keeps-running : Keeps P (running {A = A})
  Keeps-running = record { at = λ acts h. h }

  pub Keeps-ask :
      (act : Act) (answer : Acts → Result A)
      → ((acts : Acts) → P acts → P (act ∷ acts))
      → Keeps P (ask act answer)
  Keeps-ask act answer k = record { at = λ acts h. k acts h }

  pub Keeps-observe :
      (act : Act) (answer : Acts → A)
      → ((acts : Acts) → P acts → P (act ∷ acts))
      → Keeps P (observe act answer)
  Keeps-observe act answer k = record { at = λ acts h. k acts h }

module _ {A B : Type 0} {P : Acts → Type 0} where
  pub Keeps-bind :
      (m : N A) (f : A → N B) → Keeps P m → ((a : A) → Keeps P (f a)) → Keeps P (m >>= f)
  Keeps-bind m f km kf = record { at = λ acts h. go (m acts) (km.at acts h) }
    where
      go :
          (r : Ended A × Acts)
          → P r.1
          → P
              (elim (r.0) as (λ _. Ended B × Acts) [
                | returned a ↦ f a r.1
                | threw e ↦ (threw e, r.1)
                | cut_off ↦ (cut_off, r.1)
              ]).1
      go (returned a, acts) h = (kf a).at acts h
      go (threw e, acts) h = h
      go (cut_off, acts) h = h

pub Keeps-when : {P : Acts → Type 0} (t : Bool) (m : N (Unit {0})) → Keeps P m → Keeps P (when t m)
Keeps-when true m km = km
Keeps-when false m km = record { at = λ acts h. h }

pub ruleset keeps_rules = (
  Keeps-pure, Keeps-throw, Keeps-lift, Keeps-running, Keeps-ask, Keeps-observe, Keeps-bind,
  Keeps-when,
)

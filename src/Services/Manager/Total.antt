-- ===== src/Services/Manager/Total.antt =====
-- What a method of the manager does in every case but an exception: it ends, with a result of `Q`.
use meta_monutchee.Base.{Bool, true, false, ◌≡◌, refl, subst, if◌then◌else◌}
use meta_monutchee.Services.Registry.{Outcome, returned, threw, exhausted}
use meta_monutchee.Services.Manager.{U, UnitCalls, ◌>>=◌, pure, lift}

abbrev pub Ends : {A : Type 0} → (A → Type 0) → Outcome A → Type 0
Ends Q (returned a) = Q a
Ends Q (threw e) = Unit
Ends Q exhausted = ⊥

pub record Total {A : Type 0} (Q : A → Type 0) (u : U A) : Type 0 where
  pub at : (calls : UnitCalls) → Ends Q (u calls).0

module _ {A : Type 0} where
  pub Total-pure : (Q : A → Type 0) (a : A) → Q a → Total Q (pure a)
  Total-pure Q a q = record { at = λ calls. q }

  pub Total-if :
      (Q : A → Type 0) (t : Bool) (u v : U A)
      → (t ≡ true → Total Q u)
      → (t ≡ false → Total Q v)
      → Total Q (if t then u else v)
  Total-if Q true u v ku kv = ku refl
  Total-if Q false u v ku kv = kv refl

  pub Ends-weaken : (P Q : A → Type 0) (r : Outcome A) → ((a : A) → P a → Q a) → Ends P r → Ends Q r
  Ends-weaken P Q (returned a) f h = f a h
  Ends-weaken P Q (threw e) f h = tt
  Ends-weaken P Q exhausted f h = h

  pub Total-weaken : (P Q : A → Type 0) (u : U A) → ((a : A) → P a → Q a) → Total P u → Total Q u
  Total-weaken P Q u f ku = record { at = λ calls. Ends-weaken P Q (u calls).0 f (ku.at calls) }

  -- the result of an outcome, with the outcome that it is the result of
  pub Ends-self : (Q : A → Type 0) (r : Outcome A) → Ends Q r → Ends (λ a. (r ≡ returned a) × Q a) r
  Ends-self Q (returned a) h = (refl, h)
  Ends-self Q (threw e) h = tt
  Ends-self Q exhausted h = h

  pub Ends-result : (Q : A → Type 0) (r : Outcome A) (a : A) → r ≡ returned a → Ends Q r → Q a
  Ends-result Q r a e h = subst (Ends Q) e h

  pub Total-lift : (Q : A → Type 0) (r : Outcome A) → Ends Q r → Total Q (lift r)
  Total-lift Q r h = record { at = λ calls. h }

module _ {A B : Type 0} where
  pub Total-bind :
      (P : A → Type 0) (Q : B → Type 0) (u : U A) (f : A → U B)
      → Total P u
      → ((a : A) → P a → Total Q (f a))
      → Total Q (u >>= f)
  Total-bind P Q u f ku kf = record { at = λ calls. go (u calls) (ku.at calls) }
    where
      go :
          (r : Outcome A × UnitCalls)
          → Ends P r.0
          → Ends Q
              (elim (r.0) as (λ _. Outcome B × UnitCalls) [
                | returned a ↦ f a r.1
                | threw e ↦ (threw e, r.1)
                | exhausted ↦ (exhausted, r.1)
              ]).0
      go (returned a, calls) p = (kf a p).at calls
      go (threw e, calls) p = tt
      go (exhausted, calls) p = p

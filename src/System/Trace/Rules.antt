-- ===== src/System/Trace/Rules.antt =====
-- Rules for what a method over a history returns or throws, and for what it keeps of the history.
use meta_monutchee.Base.{Bool, true, false, ◌≡◌, refl, List, ◌∷◌, if◌then◌else◌}
use meta_monutchee.System.Trace.{
  Ended, returned, threw, cut_off, Trace, pure, throw, observe, catch, ◌>>=◌,
}

module _ {O E A : Type 0} where
  abbrev pub GivesAt : (A → Type 0) → (E → Type 0) → Ended E A × List O → Type 0
  GivesAt P Q (returned a, h) = P a
  GivesAt P Q (threw e, h) = Q e
  GivesAt P Q (cut_off, h) = ⊥

  -- the method ends: what it returns satisfies `P`, and what it throws `Q`
  pub record Gives (P : A → Type 0) (Q : E → Type 0) (m : Trace O E A) : Type 0 where
    pub at : (h : List O) → GivesAt P Q (m h)

  pub Gives-pure : (P : A → Type 0) (Q : E → Type 0) (a : A) → P a → Gives P Q (pure a)
  Gives-pure P Q a p = record { at = λ h. p }

  pub Gives-throw : (P : A → Type 0) (Q : E → Type 0) (e : E) → Q e → Gives P Q (throw e)
  Gives-throw P Q e q = record { at = λ h. q }

  pub Gives-observe :
      (P : A → Type 0) (Q : E → Type 0) (op : O) (answer : List O → A)
      → ((a : A) → P a)
      → Gives P Q (observe op answer)
  Gives-observe P Q op answer p = record { at = λ h. p (answer h) }

  pub Gives-if :
      (P : A → Type 0) (Q : E → Type 0) (t : Bool) (m n : Trace O E A)
      → (t ≡ true → Gives P Q m)
      → (t ≡ false → Gives P Q n)
      → Gives P Q (if t then m else n)
  Gives-if P Q true m n u v = u refl
  Gives-if P Q false m n u v = v refl

  pub Gives-catch :
      (P : A → Type 0) (Q Q' : E → Type 0) (m : Trace O E A) (handler : E → Trace O E A)
      → Gives P Q m
      → ((e : E) → Q e → Gives P Q' (handler e))
      → Gives P Q' (catch m handler)
  Gives-catch P Q Q' m handler u v = record { at = λ h. go (m h) (u.at h) }
    where
      go :
          (r : Ended E A × List O)
          → GivesAt P Q r
          → GivesAt P Q' (elim (r.0) as (λ _. Ended E A × List O) [
            | returned a ↦ (returned a, r.1)
            | threw e ↦ handler e r.1
            | cut_off ↦ (cut_off, r.1)
          ])
      go (returned a, h') p = p
      go (threw e, h') q = (v e q).at h'
      go (cut_off, h') s = absurd s

  -- a predicate on the history that a method keeps, however it ends
  pub record Keeps (P : List O → Type 0) (m : Trace O E A) : Type 0 where
    pub at : (h : List O) → P h → P (m h).1

module _ {O E A B : Type 0} where
  pub Gives-bind :
      (P : A → Type 0) (P' : B → Type 0) (Q : E → Type 0) (m : Trace O E A) (f : A → Trace O E B)
      → Gives P Q m
      → ((a : A) → P a → Gives P' Q (f a))
      → Gives P' Q (m >>= f)
  Gives-bind P P' Q m f u v = record { at = λ h. go (m h) (u.at h) }
    where
      go :
          (r : Ended E A × List O)
          → GivesAt P Q r
          → GivesAt P' Q (elim (r.0) as (λ _. Ended E B × List O) [
            | returned a ↦ f a r.1
            | threw e ↦ (threw e, r.1)
            | cut_off ↦ (cut_off, r.1)
          ])
      go (returned a, h') p = (v a p).at h'
      go (threw e, h') q = q
      go (cut_off, h') s = absurd s

  pub Keeps-bind :
      {P : List O → Type 0} (m : Trace O E A) (f : A → Trace O E B)
      → Keeps P m
      → ((a : A) → Keeps P (f a))
      → Keeps P (m >>= f)
  Keeps-bind {P} m f u v = record { at = λ h p. go (m h) (u.at h p) }
    where
      go :
          (r : Ended E A × List O)
          → P r.1
          → P
              (elim (r.0) as (λ _. Ended E B × List O) [
                | returned a ↦ f a r.1
                | threw e ↦ (threw e, r.1)
                | cut_off ↦ (cut_off, r.1)
              ]).1
      go (returned a, h') p = (v a).at h' p
      go (threw e, h') p = p
      go (cut_off, h') p = p

module _ {O E A : Type 0} {P : List O → Type 0} where
  pub Keeps-pure : (a : A) → Keeps {E = E} P (pure a)
  Keeps-pure a = record { at = λ h p. p }

  pub Keeps-throw : (e : E) → Keeps {A = A} P (throw e)
  Keeps-throw e = record { at = λ h p. p }

  pub Keeps-observe :
      (op : O) (answer : List O → A)
      → ((h : List O) → P h → P (op ∷ h))
      → Keeps {E = E} P (observe op answer)
  Keeps-observe op answer k = record { at = λ h p. k h p }

  pub Keeps-if :
      (t : Bool) (m n : Trace O E A) → Keeps P m → Keeps P n → Keeps P (if t then m else n)
  Keeps-if true m n u v = u
  Keeps-if false m n u v = v

  pub Keeps-catch :
      (m : Trace O E A) (handler : E → Trace O E A)
      → Keeps P m
      → ((e : E) → Keeps P (handler e))
      → Keeps P (catch m handler)
  Keeps-catch m handler u v = record { at = λ h p. go (m h) (u.at h p) }
    where
      go :
          (r : Ended E A × List O)
          → P r.1
          → P
              (elim (r.0) as (λ _. Ended E A × List O) [
                | returned a ↦ (returned a, r.1)
                | threw e ↦ handler e r.1
                | cut_off ↦ (cut_off, r.1)
              ]).1
      go (returned a, h') p = p
      go (threw e, h') p = (v e).at h' p
      go (cut_off, h') p = p

pub ruleset keeps_rules =
    (Keeps-pure, Keeps-throw, Keeps-observe, Keeps-bind, Keeps-if, Keeps-catch)

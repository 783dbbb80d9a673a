-- ===== src/System/Trace.antt =====
-- A method of the source over what it asks the world outside for: each call is noted, newest first, and
-- an answer may depend on all the calls before. `cut_off` is a loop that the fuel cuts off.
pub mod Rules
use meta_monutchee.Base.{◌≡◌, ap, ◌⊎◌, inl, inr, List, ◌∷◌}

pub data Ended (E A : Type 0) : Type 0 where
  returned : A → Ended E A
  threw : E → Ended E A
  cut_off : Ended E A

-- what a method returns, if it does, satisfies the predicate
abbrev pub Returns : {O E A : Type 0} → (A → Type 0) → Ended E A × List O → Type 0
Returns P (returned a, h) = P a
Returns P (threw e, h) = Unit
Returns P (cut_off, h) = Unit

-- the method ends, by a return or an exception
abbrev pub IsOver : {O E A : Type 0} → Ended E A × List O → Type 0
IsOver (cut_off, h) = ⊥
IsOver (returned a, h) = Unit
IsOver (threw e, h) = Unit

abbrev pub Trace : Type 0 → Type 0 → Type 0 → Type 0
Trace O E A = List O → Ended E A × List O

abbrev pub outcome_of : {E A : Type 0} → E ⊎ A → Ended E A
outcome_of (inl e) = threw e
outcome_of (inr a) = returned a

module _ {O E A : Type 0} where
  abbrev pub pure : A → Trace O E A
  pure a h = (returned a, h)

  abbrev pub throw : E → Trace O E A
  throw e h = (threw e, h)

  abbrev pub running : Trace O E A
  running h = (cut_off, h)

  -- a call that cannot fail, with its answer
  abbrev pub observe : O → (List O → A) → Trace O E A
  observe op answer h = (returned (answer h), op ∷ h)

  -- a call that may throw
  abbrev pub ask : O → (List O → E ⊎ A) → Trace O E A
  ask op answer h = (outcome_of (answer h), op ∷ h)

  -- `try { m } catch (...) { handler }`
  abbrev pub catch : Trace O E A → (E → Trace O E A) → Trace O E A
  catch m handler h =
      let r = m h in
      elim (r.0) as (λ _. Ended E A × List O) [
        | returned a ↦ (returned a, r.1)
        | threw e ↦ handler e r.1
        | cut_off ↦ (cut_off, r.1)
      ]

module _ {O E A B : Type 0} where
  infixl 5 ◌>>=◌
  abbrev pub ◌>>=◌ : Trace O E A → (A → Trace O E B) → Trace O E B
  (m >>= f) h =
      let r = m h in
      elim (r.0) as (λ _. Ended E B × List O) [
        | returned a ↦ f a r.1
        | threw e ↦ (threw e, r.1)
        | cut_off ↦ (cut_off, r.1)
      ]

  infixl 5 ◌>>◌
  abbrev pub ◌>>◌ : Trace O E A → Trace O E B → Trace O E B
  m >> n = m >>= λ _. n

  -- a sequence whose first part is known
  pub >>=-returned :
      (m : Trace O E A) (f : A → Trace O E B) (h h' : List O) (a : A)
      → m h ≡ (returned a, h')
      → (m >>= f) h ≡ f a h'
  >>=-returned m f h h' a q =
      ap
        (λ (r : Ended E A × List O). elim (r.0) as (λ _. Ended E B × List O) [
          | returned a' ↦ f a' r.1
          | threw e ↦ (threw e, r.1)
          | cut_off ↦ (cut_off, r.1)
        ])
        q

  pub >>=-threw :
      (m : Trace O E A) (f : A → Trace O E B) (h h' : List O) (e : E)
      → m h ≡ (threw e, h')
      → (m >>= f) h ≡ (threw e, h')
  >>=-threw m f h h' e q =
      ap
        (λ (r : Ended E A × List O). elim (r.0) as (λ _. Ended E B × List O) [
          | returned a' ↦ f a' r.1
          | threw e' ↦ (threw e', r.1)
          | cut_off ↦ (cut_off, r.1)
        ])
        q

  -- What holds of a sequence, from what is known of its first part.
  pub >>=-elim :
      (S : Ended E A × List O → Type 0) (Q : Ended E B × List O → Type 0) (m : Trace O E A)
      (f : A → Trace O E B) (h : List O)
      → S (m h)
      → ((a : A) (h' : List O) → S (returned a, h') → Q (f a h'))
      → ((e : E) (h' : List O) → S (threw e, h') → Q (threw e, h'))
      → ((h' : List O) → S (cut_off, h') → Q (cut_off, h'))
      → Q ((m >>= f) h)
  >>=-elim S Q m f h s on_return on_throw on_cut = go (m h) s
    where
      go :
          (r : Ended E A × List O)
          → S r
          → Q (elim (r.0) as (λ _. Ended E B × List O) [
            | returned a ↦ f a r.1
            | threw e ↦ (threw e, r.1)
            | cut_off ↦ (cut_off, r.1)
          ])
      go (returned a, h') s = on_return a h' s
      go (threw e, h') s = on_throw e h' s
      go (cut_off, h') s = on_cut h' s

module _ {O E A : Type 0} where
  -- The same for a handler of exceptions.
  pub catch-elim :
      (S Q : Ended E A × List O → Type 0) (m : Trace O E A) (handler : E → Trace O E A) (h : List O)
      → S (m h)
      → ((a : A) (h' : List O) → S (returned a, h') → Q (returned a, h'))
      → ((e : E) (h' : List O) → S (threw e, h') → Q (handler e h'))
      → ((h' : List O) → S (cut_off, h') → Q (cut_off, h'))
      → Q (catch m handler h)
  catch-elim S Q m handler h s on_return on_throw on_cut = go (m h) s
    where
      go :
          (r : Ended E A × List O)
          → S r
          → Q (elim (r.0) as (λ _. Ended E A × List O) [
            | returned a ↦ (returned a, r.1)
            | threw e ↦ handler e r.1
            | cut_off ↦ (cut_off, r.1)
          ])
      go (returned a, h') s = on_return a h' s
      go (threw e, h') s = on_throw e h' s
      go (cut_off, h') s = on_cut h' s

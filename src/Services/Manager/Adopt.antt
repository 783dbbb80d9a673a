-- ===== src/Services/Manager/Adopt.antt =====
-- The start of the services adopts the units that are active.
use meta_monutchee.Base.{
  ℕ, zero, suc, String, Bool, true, false, ◌≡◌, refl, sym, subst, List, [], ◌∷◌, ◌==◌, ◌⊎◌, inl,
  inr, string_eq, if◌then◌else◌, arith, Bool-cases,
}
use meta_monutchee.Services.Registry.{
  Registry, ManagedService, ManagedServiceStatus, ServiceAction, Fault, Outcome, returned, threw,
  exhausted,
}
use meta_monutchee.Services.Manager.{
  UnitController, UnitCall, UnitCalls, U, pure, lift, ◌>>=◌, activate, start_dependencies,
  start_one, start_auto, start_registered,
}

module _ (controller : UnitController) where
  -- every control call starts the service that was inspected just before and found not to be active
  abbrev pub Adopts : UnitCalls → Type 0
  Adopts [] = Unit
  Adopts (UnitCall.inspected s ∷ calls) = Adopts calls
  Adopts (UnitCall.controlled s action ∷ []) = ⊥
  Adopts (UnitCall.controlled s action ∷ (UnitCall.controlled t a ∷ calls)) = ⊥
  Adopts (UnitCall.controlled s action ∷ (UnitCall.inspected t ∷ calls)) =
      (t ≡ s)
      × (action ≡ ServiceAction.start)
      × ((status : ManagedServiceStatus) × (controller.inspect calls s ≡ inr status)
          × ((status.active_state == "active") ≡ false))
      × Adopts calls

  record Adopting {A : Type 0} (u : U A) : Type 0 where
    at : (calls : UnitCalls) → Adopts calls → Adopts (u calls).1

  module _ {A : Type 0} where
    Adopting-pure : (a : A) → Adopting (pure a)
    Adopting-pure a = record { at = λ calls h. h }

    Adopting-lift : (r : Outcome A) → Adopting (lift r)
    Adopting-lift r = record { at = λ calls h. h }

    Adopting-if : (t : Bool) (u v : U A) → Adopting u → Adopting v → Adopting (if t then u else v)
    Adopting-if true u v ku kv = ku
    Adopting-if false u v ku kv = kv

  Adopting-bind :
      {A B : Type 0} (u : U A) (f : A → U B)
      → Adopting u
      → ((a : A) → Adopting (f a))
      → Adopting (u >>= f)
  Adopting-bind {A} {B} u f ku kf = record { at = λ calls h. go (u calls) (ku.at calls h) }
    where
      go :
          (r : Outcome A × UnitCalls)
          → Adopts r.1
          → Adopts
              (elim (r.0) as (λ _. Outcome B × UnitCalls) [
                | returned a ↦ f a r.1
                | threw e ↦ (threw e, r.1)
                | exhausted ↦ (exhausted, r.1)
              ]).1
      go (returned a, calls) h = (kf a).at calls h
      go (threw e, calls) h = h
      go (exhausted, calls) h = h

  -- an inspection, and what follows an answer of the controller
  activate-answered :
      (s : ManagedService) (calls : UnitCalls) (r : Fault ⊎ ManagedServiceStatus)
      → controller.inspect calls s ≡ r
      → Adopts calls
      → Adopts (activate controller s calls).1
  unfolding activate
  activate-answered s calls (inl e) q h = ground (arith, q)
  activate-answered s calls (inr status) q h = elim (Bool-cases (status.active_state == "active")) [
    | inl active ↦ ground (arith, q, active)
    | inr inactive ↦
        let started : (activate controller s calls).1
            ≡ UnitCall.controlled s ServiceAction.start ∷ (UnitCall.inspected s ∷ calls) =
          ground (arith, q, inactive) in
        subst Adopts (sym started) ((refl, refl, (status, q, inactive), h))
  ]

  activate-Adopting : (s : ManagedService) → Adopting (activate controller s)
  activate-Adopting s = record {
    at = λ calls h. activate-answered s calls (controller.inspect calls s) refl h;
  }

  module _ (services : Registry) where
    start_dependencies-Adopting :
        (start : ManagedService → List String → U (List String))
        → ((s : ManagedService) (xs : List String) → Adopting (start s xs))
        → (ds xs : List String) → Adopting (start_dependencies controller services start ds xs)
    unfolding start_dependencies
    start_dependencies-Adopting start k [] xs = Adopting-pure xs
    start_dependencies-Adopting start k (d ∷ ds) xs =
        search (Adopting-bind, Adopting-lift, k, start_dependencies-Adopting start k ds) depth 8

    start_one-Adopting :
        (fuel : ℕ) (s : ManagedService) (xs : List String)
        → Adopting (start_one controller services fuel s xs)
    unfolding start_one
    start_one-Adopting zero s xs = Adopting-lift exhausted
    start_one-Adopting (suc fuel) s xs =
        search
          (
            Adopting-if,
            Adopting-bind,
            Adopting-pure,
            activate-Adopting,
            start_dependencies-Adopting _ (start_one-Adopting fuel),
          )
          depth 10

    start_auto-Adopting :
        (start : ManagedService → List String → U (List String))
        → ((s : ManagedService) (xs : List String) → Adopting (start s xs))
        → (ss : List ManagedService) (xs : List String)
        → Adopting (start_auto controller services start ss xs)
    start_auto-Adopting start k [] xs = Adopting-pure xs
    start_auto-Adopting start k (s ∷ ss) xs =
        search (Adopting-bind, Adopting-if, Adopting-pure, k, start_auto-Adopting start k ss) depth
          8

    -- Whatever the controller answers, however the start ends: a control call is made only to start
    -- a service that was inspected just before and was not active.
    pub start_registered-Adopts :
        (fuel : ℕ) → Adopts (start_registered controller services fuel []).1
    unfolding start_registered
    start_registered-Adopts fuel =
        (start_auto-Adopting _ (start_one-Adopting fuel) services []).at [] tt

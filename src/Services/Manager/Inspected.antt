-- ===== src/Services/Manager/Inspected.antt =====
-- The units are inspected in the order in which the services start.
use meta_monutchee.Base.{
  ℕ, zero, suc, String, Bool, Bool-cases, true, false, ◌≡◌, refl, ◌∙◌, ap, List, [], ◌∷◌, ◌==◌, ◌⊎◌,
  inl, inr, All, contains, if◌then◌else◌, string_eq, ◌<◌,
}
use meta_monutchee.Services.Registry.{
  Registry, ManagedService, ManagedServiceStatus, ServiceAction, Fault, Outcome, answered, returned,
  threw, exhausted, find,
}
use meta_monutchee.Services.Registry.Distinct.{IsDistinct}
use meta_monutchee.Services.Manager.{
  UnitController, UnitCall, UnitCalls, U, pure, lift, ◌>>=◌, inspect, control, activate,
  start_dependencies, start_one, start_auto, start_registered,
}
use meta_monutchee.Services.Manager.Total.{Ends}
use meta_monutchee.Services.Manager.Order.{IsRanked, AllStarted, start_registered-Total}

-- the services whose units were inspected, newest first
abbrev pub inspections : UnitCalls → List String
inspections [] = []
inspections (UnitCall.inspected s ∷ calls) = s.name ∷ inspections calls
inspections (UnitCall.controlled s action ∷ calls) = inspections calls

abbrev WhenReturned : {A : Type 0} → (A → UnitCalls → Type 0) → Outcome A × UnitCalls → Type 0
WhenReturned P (returned a, calls) = P a calls
WhenReturned P (threw e, calls) = Unit
WhenReturned P (exhausted, calls) = Unit

-- if it returns, the services that were inspected are those of the result, in this order
record Tracks (xs : List String) (u : U (List String)) : Type 0 where
  at :
      (calls : UnitCalls)
      → inspections calls ≡ xs
      → WhenReturned (λ ys calls'. inspections calls' ≡ ys) (u calls)

bind-Returned :
    {A B : Type 0} (P : A → UnitCalls → Type 0) (Q : B → UnitCalls → Type 0) (u : U A) (f : A → U B)
    (calls : UnitCalls)
    → WhenReturned P (u calls)
    → ((a : A) (calls' : UnitCalls) → P a calls' → WhenReturned Q (f a calls'))
    → WhenReturned Q ((u >>= f) calls)
bind-Returned {A} {B} P Q u f calls h k = go (u calls) h
  where
    go :
        (r : Outcome A × UnitCalls)
        → WhenReturned P r
        → WhenReturned Q (elim (r.0) as (λ _. Outcome B × UnitCalls) [
          | returned a ↦ f a r.1
          | threw e ↦ (threw e, r.1)
          | exhausted ↦ (exhausted, r.1)
        ])
    go (returned a, calls') p = k a calls' p
    go (threw e, calls') p = tt
    go (exhausted, calls') p = tt

Tracks-pure : (xs : List String) → Tracks xs (pure xs)
Tracks-pure xs = record { at = λ calls h. h }

Tracks-bind :
    (xs : List String) (u : U (List String)) (f : List String → U (List String))
    → Tracks xs u
    → ((ys : List String) → Tracks ys (f ys))
    → Tracks xs (u >>= f)
Tracks-bind xs u f ku kf = record {
  at = λ calls h. bind-Returned _ _ u f calls (ku.at calls h) (λ ys calls' q. (kf ys).at calls' q);
}

module _ (controller : UnitController) where
  activate-Inspects :
      (s : ManagedService) (calls : UnitCalls)
      → WhenReturned
          (λ _ calls'. inspections calls' ≡ s.name ∷ inspections calls)
          (activate controller s calls)
  unfolding activate
  activate-Inspects s calls =
      bind-Returned (λ _ calls'. inspections calls' ≡ s.name ∷ inspections calls)
        (λ _ calls'. inspections calls' ≡ s.name ∷ inspections calls) (inspect controller s)
        (λ state.
          if state.active_state == "active"
          then pure tt
          else control controller s ServiceAction.start)
        calls (inspected (controller.inspect calls s))
        (λ state calls' q. elim (Bool-cases (state.active_state == "active")) [
          | inl active ↦ rw active q
          | inr idle ↦ rw idle (started calls' (controller.control calls' s ServiceAction.start) q)
        ])
    where
      inspected :
          (r : Fault ⊎ ManagedServiceStatus)
          → WhenReturned
              (λ _ calls'. inspections calls' ≡ s.name ∷ inspections calls)
              (answered r, UnitCall.inspected s ∷ calls)
      inspected (inl e) = tt
      inspected (inr status) = refl

      started :
          (calls' : UnitCalls) (r : Fault ⊎ Unit {0})
          → inspections calls' ≡ s.name ∷ inspections calls
          → WhenReturned
              (λ _ calls'. inspections calls' ≡ s.name ∷ inspections calls)
              (answered r, UnitCall.controlled s ServiceAction.start ∷ calls')
      started calls' (inl e) q = tt
      started calls' (inr done) q = q

  module _ (services : Registry) where
    start_dependencies-Tracks :
        (start : ManagedService → List String → U (List String))
        → ((s : ManagedService) (xs : List String) → Tracks xs (start s xs))
        → (ds xs : List String) → Tracks xs (start_dependencies controller services start ds xs)
    unfolding start_dependencies
    start_dependencies-Tracks start k [] xs = Tracks-pure xs
    start_dependencies-Tracks start k (d ∷ ds) xs = record {
      at = λ calls h. go (start_dependencies-Tracks start k ds) calls h (find services d);
    }
      where
        go :
            ((ys : List String) → Tracks ys (start_dependencies controller services start ds ys))
            → (calls : UnitCalls) → inspections calls ≡ xs
            → (r : Outcome ManagedService)
            → WhenReturned
                (λ ys calls'. inspections calls' ≡ ys)
                ((lift r >>= λ s. start s xs >>= start_dependencies controller services start ds)
                  calls)
        go later calls h (returned s) = (Tracks-bind xs (start s xs) _ (k s xs) later).at calls h
        go later calls h (threw e) = tt
        go later calls h exhausted = tt

    start_one-Tracks :
        (fuel : ℕ) (s : ManagedService) (xs : List String)
        → Tracks xs (start_one controller services fuel s xs)
    unfolding start_one
    start_one-Tracks zero s xs = record { at = λ calls h. tt }
    start_one-Tracks (suc fuel) s xs = elim (Bool-cases (contains s.name xs)) [
      | inl already ↦ rw already (Tracks-pure xs)
      | inr new ↦ rw new (
          Tracks-bind xs _ _ (start_dependencies-Tracks _ (start_one-Tracks fuel) s.after xs) (λ ys.
            record {
              at = λ calls h.
                  bind-Returned _ _ (activate controller s) (λ _. pure (s.name ∷ ys)) calls
                    (activate-Inspects s calls)
                    (λ _ calls' q. q ∙ ap (λ (zs : List String). s.name ∷ zs) h);
            }))
    ]

    start_auto-Tracks :
        (start : ManagedService → List String → U (List String))
        → ((s : ManagedService) (xs : List String) → Tracks xs (start s xs))
        → (ss : List ManagedService) (xs : List String)
        → Tracks xs (start_auto controller services start ss xs)
    start_auto-Tracks start k [] xs = Tracks-pure xs
    start_auto-Tracks start k (s ∷ ss) xs =
        Tracks-bind xs (if s.auto_start then start s xs else pure xs) _ (one s.auto_start)
          (start_auto-Tracks start k ss)
      where
        one : (auto : Bool) → Tracks xs (if auto then start s xs else pure xs)
        one true = k s xs
        one false = Tracks-pure xs

    -- what a start that ends has done
    abbrev pub StartsInOrder : Outcome (List String) × UnitCalls → Type 0
    StartsInOrder (returned ys, calls) =
        AllStarted services services [] ys × (inspections calls ≡ ys)
    StartsInOrder (threw e, calls) = Unit
    StartsInOrder (exhausted, calls) = ⊥

    both :
        (r : Outcome (List String) × UnitCalls)
        → Ends (AllStarted services services []) r.0
        → WhenReturned (λ ys calls'. inspections calls' ≡ ys) r
        → StartsInOrder r
    both (returned ys, calls) s q = (s, q)
    both (threw e, calls) s q = tt
    both (exhausted, calls) s q = s

    start_registered-Tracks :
        (fuel : ℕ)
        → WhenReturned
            (λ ys calls'. inspections calls' ≡ ys)
            (start_registered controller services fuel [])
    unfolding start_registered
    start_registered-Tracks fuel =
        (start_auto-Tracks _ (start_one-Tracks fuel) services []).at [] refl

    -- With a ranking of the names that falls along every dependency, and fuel above every rank, the
    -- start of the services of a registry without duplicates ends. If no call throws, then in the order
    -- in which the units were inspected each service stands once and behind all its dependencies, and
    -- every service that is to start by itself is among them.
    pub start_registered-Starts :
        (rank : String → ℕ)
        → IsRanked services rank
        → (fuel : ℕ) → IsDistinct services
        → All (λ s. rank s.name < fuel) services
        → StartsInOrder (start_registered controller services fuel [])
    start_registered-Starts rank ranked fuel distinct low =
        both (start_registered controller services fuel [])
          ((start_registered-Total services rank ranked controller fuel distinct low).at [])
          (start_registered-Tracks fuel)

-- ===== src/Services/Manager/Order.antt =====
-- The start of the registered services, over a ranking of their dependencies: it ends, in order.
use meta_monutchee.Base.{
  ℕ, zero, suc, ◌≤◌, ◌<◌, String, subst, true, false, List, [], ◌∷◌, ◌≡◌, sym, ◌∙◌, ap, ◌⊎◌, inl,
  inr, All, ◌==◌, contains, if◌then◌else◌, string_eq, Bool-cases, arith, eq_iff,
}
use meta_monutchee.Services.Registry.{
  Registry, ServiceAction, Fault, answered, ManagedService, returned, find,
}
use meta_monutchee.Services.Manager.{
  UnitController, U, pure, lift, activate, inspect, control, start_dependencies, start_one,
  start_auto, start_registered,
}
use meta_monutchee.Services.Registry.Distinct.{IsDistinct, find-own}
use meta_monutchee.Services.Manager.Total.{
  Total, Total-pure, Total-bind, Total-lift, Total-weaken, Ends, Ends-self, Ends-result, Total-if,
}

module _ (services : Registry) where
  -- the services started, newest first: each once, and each after all that it names in `after`
  abbrev pub IsOrdered : List String → Type 0
  IsOrdered [] = Unit
  IsOrdered (x ∷ xs) =
      (contains x xs ≡ false)
      × ((service : ManagedService) × (find services x ≡ returned service)
          × All (λ d. contains d xs ≡ true) service.after)
      × IsOrdered xs

  -- a rank of names that falls along every dependency: there is one if no dependencies go in a circle
  abbrev pub IsRanked : (String → ℕ) → Type 0
  IsRanked rank = All (λ s. All (λ d. rank d < rank s.name) s.after) services

  -- started in order, and with all that are to start by themselves
  pub record AllStarted (ss : List ManagedService) (xs ys : List String) : Type 0 where
    pub ordered : IsOrdered ys
    pub autos : All (λ s. s.auto_start ≡ true → contains s.name ys ≡ true) ss
    pub grows : (x : String) → contains x xs ≡ true → contains x ys ≡ true

-- `ys` has all that `xs` has, and otherwise only names of rank below `bound`
pub record Grows (rank : String → ℕ) (bound : ℕ) (xs ys : List String) : Type 0 where
  pub keeps : (x : String) → contains x xs ≡ true → contains x ys ≡ true
  pub adds : (x : String) → contains x ys ≡ true → (contains x xs ≡ true) ⊎ (rank x < bound)

Grows-refl : (rank : String → ℕ) (bound : ℕ) (xs : List String) → Grows rank bound xs xs
Grows-refl rank bound xs = record { keeps = λ x h. h; adds = λ x h. inl h }

Grows-trans :
    (rank : String → ℕ) (bound : ℕ) (xs ys zs : List String)
    → Grows rank bound xs ys
    → Grows rank bound ys zs
    → Grows rank bound xs zs
Grows-trans rank bound xs ys zs g k = record {
  keeps = λ x h. k.keeps x (g.keeps x h);
  adds = λ x h. elim (k.adds x h) [ inl q ↦ g.adds x q | inr lt ↦ inr lt ];
}

-- the new name joins names of lower rank
Grows-cons :
    (rank : String → ℕ) (bound : ℕ) (name : String) (xs ys : List String)
    → rank name < bound
    → Grows rank (rank name) xs ys
    → Grows rank bound xs (name ∷ ys)
Grows-cons rank bound name xs ys lt g = record { keeps = keeps; adds = adds }
  where
    keeps : (x : String) → contains x xs ≡ true → contains x (name ∷ ys) ≡ true
    keeps x h = grind (arith, g.keeps x h)

    adds : (x : String) → contains x (name ∷ ys) ≡ true → (contains x xs ≡ true) ⊎ (rank x < bound)
    adds x h = elim (Bool-cases (name == x)) [
      | inl same ↦ inr (subst (λ n. rank n < bound) ((eq_iff name x).0 same) lt)
      | inr other ↦ elim (g.adds x (grind arith)) [
        | inl h' ↦ inl h'
        | inr lower ↦ inr (omega (arith, lower, lt))
      ]
    ]

All-contains :
    (rank : String → ℕ) (bound : ℕ) (names xs ys : List String)
    → Grows rank bound xs ys
    → All (λ d. contains d xs ≡ true) names
    → All (λ d. contains d ys ≡ true) names
All-contains rank bound [] xs ys g h = tt
All-contains rank bound (d ∷ ds) xs ys g h = (g.keeps d h.0, All-contains rank bound ds xs ys g h.1)

-- what is found by a name has that name, and what all services have
found-All :
    (P : ManagedService → Type 0) (services : Registry) (name : String)
    → All P services
    → Ends (λ s. (s.name ≡ name) × P s) (find services name)
unfolding find
found-All P [] name h = tt
found-All P (s ∷ rest) name h = elim (Bool-cases (s.name == name)) [
  | inl same ↦ rw same (((eq_iff s.name name).0 same, h.0))
  | inr other ↦ rw other (found-All P rest name h.1)
]

Grows-fresh :
    (rank : String → ℕ) (name : String) (xs ys : List String)
    → contains name xs ≡ false
    → Grows rank (rank name) xs ys
    → contains name ys ≡ false
Grows-fresh rank name xs ys new g = elim (Bool-cases (contains name ys)) [
  | inl there ↦ elim (g.adds name there) [
    | inl old ↦ absurd (cc)
    | inr lt ↦ absurd (omega (arith, lt))
  ]
  | inr fresh ↦ fresh
]

answered-Ends : {A : Type 0} (r : Fault ⊎ A) → Ends (λ _. Unit {0}) (answered r)
answered-Ends (inl e) = tt
answered-Ends (inr a) = tt

-- the controller answers every call
activate-Total :
    (controller : UnitController) (s : ManagedService)
    → Total (λ _. Unit {0}) (activate controller s)
unfolding activate
activate-Total controller s =
    Total-bind (λ _. Unit) _ (inspect controller s)
      (λ state.
        if state.active_state == "active"
        then pure tt
        else control controller s ServiceAction.start)
      (record { at = λ calls. answered-Ends (controller.inspect calls s) })
      (λ state _.
        Total-if _ (state.active_state == "active") (pure tt)
          (control controller s ServiceAction.start) (λ _. Total-pure _ tt tt)
          (λ _. record {
            at = λ calls. answered-Ends (controller.control calls s ServiceAction.start);
          }))

module _ (services : Registry) (rank : String → ℕ) (ranked : IsRanked services rank) where
  -- the dependencies of a service have a lower rank
  abbrev IsAbove : ManagedService → Type 0
  IsAbove s = All (λ d. rank d < rank s.name) s.after

  find-named :
      (name : String)
      → Ends
          (λ s. (find services name ≡ returned s) × ((s.name ≡ name) × IsAbove s))
          (find services name)
  find-named name =
      Ends-self (λ s. (s.name ≡ name) × IsAbove s) (find services name)
        (found-All IsAbove services name ranked)

  -- a service or several are started, and with them only services of lower rank
  record Started (names : List String) (bound : ℕ) (xs ys : List String) : Type 0 where
    ordered : IsOrdered services ys
    started : All (λ d. contains d ys ≡ true) names
    grows : Grows rank bound xs ys

  -- what `start_one` does for all services of a rank below the bound
  record Starts (fuel : ℕ) (start : ManagedService → List String → U (List String)) : Type 0 where
    at :
        (s : ManagedService) (bound : ℕ) (xs : List String)
        → find services s.name ≡ returned s
        → rank s.name < bound
        → rank s.name < fuel
        → IsOrdered services xs
        → Total (Started (s.name ∷ []) bound xs) (start s xs)

  module _ (controller : UnitController) where
    start_dependencies-Total :
        (fuel bound : ℕ) (start : ManagedService → List String → U (List String))
        → Starts fuel start
        → bound ≤ fuel
        → (ds xs : List String) → All (λ d. rank d < bound) ds
        → IsOrdered services xs
        → Total (Started ds bound xs) (start_dependencies controller services start ds xs)
    unfolding start_dependencies
    start_dependencies-Total fuel bound start starts le [] xs lower ord =
        Total-pure _ xs (record { ordered = ord; started = tt; grows = Grows-refl rank bound xs })
    start_dependencies-Total fuel bound start starts le (d ∷ ds) xs lower ord =
        Total-bind _ _ (lift (find services d)) _ (Total-lift _ (find services d) (find-named d))
          (λ s found.
            let name = found.1.0 in
            let low = subst (λ n. rank n < bound) (sym name) lower.0 in
            Total-bind _ _ (start s xs) _
              (starts.at s bound xs (ap (find services) name ∙ found.0) low (omega (arith, low, le))
                ord)
              (λ ys p.
                Total-weaken _ _ _
                  (λ zs q. record {
                    ordered = q.ordered;
                    started = (
                      q.grows.keeps d (subst (λ n. contains n ys ≡ true) name p.started.0),
                      q.started,
                    );
                    grows = Grows-trans rank bound xs ys zs p.grows q.grows;
                  })
                  (start_dependencies-Total fuel bound start starts le ds ys lower.1 p.ordered)))

    start_one-Starts : (fuel : ℕ) → Starts fuel (start_one controller services fuel)
    unfolding start_one
    start_one-Starts zero = record {
      at = λ s bound xs found low deep ord. absurd (omega (arith, deep));
    }
    start_one-Starts (suc fuel) = record {
      at = λ s bound xs found low deep ord. elim (Bool-cases (contains s.name xs)) [
        | inl already ↦ rw already (
            Total-pure _ xs
              (record { ordered = ord; started = (already, tt); grows = Grows-refl rank bound xs }))
        | inr new ↦ rw new (
            let above = (Ends-result _ (find services s.name) s found (find-named s.name)).1.1 in
            Total-bind _ _ (start_dependencies controller services _ s.after xs) _
              (start_dependencies-Total fuel (rank s.name) _ (start_one-Starts fuel)
                (omega (arith, deep)) s.after xs above ord)
              (λ ys p.
                Total-bind _ _ (activate controller s) _ (activate-Total controller s) (λ _ _.
                  Total-pure _ (s.name ∷ ys) (record {
                    ordered = (
                      Grows-fresh rank s.name xs ys new p.grows,
                      (s, found, p.started),
                      p.ordered,
                    );
                    started = ((grind (arith, eq_iff)), tt);
                    grows = Grows-cons rank bound s.name xs ys low p.grows;
                  }))))
      ];
    }

    start_auto-Total :
        (fuel : ℕ) (start : ManagedService → List String → U (List String))
        → Starts fuel start
        → (ss : List ManagedService) → All (λ s. find services s.name ≡ returned s) ss
        → All (λ s. rank s.name < fuel) ss
        → (xs : List String) → IsOrdered services xs
        → Total (AllStarted services ss xs) (start_auto controller services start ss xs)
    start_auto-Total fuel start starts [] own low xs ord =
        Total-pure _ xs (record { ordered = ord; autos = tt; grows = λ x h. h })
    start_auto-Total fuel start starts (s ∷ ss) own low xs ord =
        Total-bind (AllStarted services (s ∷ []) xs) _
          (if s.auto_start then start s xs else pure xs) _
          (Total-if _ s.auto_start (start s xs) (pure xs)
            (λ auto.
              Total-weaken _ _ _
                (λ ys p. record {
                  ordered = p.ordered;
                  autos = ((λ _. p.started.0), tt);
                  grows = p.grows.keeps;
                })
                (starts.at s (suc (rank s.name)) xs own.0 (omega arith) low.0 ord))
            (λ idle.
              Total-pure _ xs
                (record { ordered = ord; autos = ((λ auto. absurd (cc)), tt); grows = λ x h. h })))
          (λ ys p.
            Total-weaken _ _ _
              (λ zs q. record {
                ordered = q.ordered;
                autos = ((λ auto. q.grows s.name (p.autos.0 auto)), q.autos);
                grows = λ x h. q.grows x (p.grows x h);
              })
              (start_auto-Total fuel start starts ss own.1 low.1 ys p.ordered))

    -- With a ranking of the names that falls along every dependency, and fuel above every rank, the
    -- start of the services of a registry without duplicates ends. If no call throws, each service
    -- that it started was started once and after all its dependencies, and every service that is to
    -- start by itself is among them.
    pub start_registered-Total :
        (fuel : ℕ)
        → IsDistinct services
        → All (λ s. rank s.name < fuel) services
        → Total (AllStarted services services []) (start_registered controller services fuel)
    unfolding start_registered
    start_registered-Total fuel distinct low =
        start_auto-Total fuel _ (start_one-Starts fuel) services (find-own services distinct) low []
          tt

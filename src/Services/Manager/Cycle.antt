-- ===== src/Services/Manager/Cycle.antt =====
-- Services whose dependencies go in a circle: the registry takes them, and their start does not end.
use meta_monutchee.Base.{
  ℕ, zero, suc, String, false, ◌≡◌, refl, List, ◌∷◌, contains, string_eq, arith,
}
use meta_monutchee.Services.Registry.{Registry, ManagedService, returned, exhausted, find}
use meta_monutchee.Services.Manager.{UnitController, UnitCalls, start_dependencies, start_one}

-- the first dependency of the service is a service of `Circle` again
pub record LeadsBack (services : Registry) (Circle : ManagedService → Type 0) (s : ManagedService)
    : Type 0 where
  pub dependency : String
  pub others : List String
  pub next : ManagedService
  pub after_eq : s.after ≡ dependency ∷ others
  pub find_eq : find services dependency ≡ returned next
  pub next_is : Circle next

module _ (controller : UnitController) (services : Registry) (Circle : ManagedService → Type 0)
    (back : (s : ManagedService) → Circle s → LeadsBack services Circle s) where
  -- If the first dependency of every service of a set is a service of the set again, and none of them
  -- has been started, then the start of one of them exhausts any fuel without a call of the
  -- controller: the recursion of the source does not end.
  pub start_one-exhausts :
      (started : List String)
      → ((s : ManagedService) → Circle s → contains s.name started ≡ false)
      → (fuel : ℕ) (s : ManagedService) (calls : UnitCalls) → Circle s
      → start_one controller services fuel s started calls ≡ (exhausted, calls)
  unfolding start_one start_dependencies
  start_one-exhausts started fresh zero s calls c = refl
  start_one-exhausts started fresh (suc fuel) s calls c =
      let b = back s c in
      ground (
        arith,
        fresh s c,
        b.after_eq,
        b.find_eq,
        start_one-exhausts started fresh fuel b.next calls b.next_is,
      )

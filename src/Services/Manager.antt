-- ===== src/Services/Manager.antt =====
-- `ServiceManager` of common/mnc/service/service_manager.cpp, over the history of its calls of the
-- unit controller. The lock makes each method one step.
pub mod Total
pub mod Order
pub mod Inspected
pub mod Cycle
pub mod Adopt
use meta_monutchee.Base.{
  ℕ, zero, suc, String, Bool, true, false, not, List, [], ◌∷◌, ◌==◌, ◌⊎◌, contains, if◌then◌else◌,
  string_eq,
}
use meta_monutchee.Services.Registry.{
  Registry, ManagedService, ManagedServiceStatus, ServiceAction, Fault, Outcome, answered, returned,
  threw, exhausted, find, service_priority_nice,
}

pub data UnitCall : Type 0 where
  inspected : ManagedService → UnitCall
  controlled : ManagedService → ServiceAction → UnitCall

-- the calls so far, newest first
abbrev pub UnitCalls : Type 0
UnitCalls = List UnitCall

-- `UnitController`, which is systemd on the target: any answers that depend on the calls before
pub record UnitController : Type 0 where
  pub inspect : UnitCalls → ManagedService → Fault ⊎ ManagedServiceStatus
  pub control : UnitCalls → ManagedService → ServiceAction → Fault ⊎ Unit {0}

abbrev pub U : Type 0 → Type 0
U A = UnitCalls → Outcome A × UnitCalls

module _ {A : Type 0} where
  abbrev pub pure : A → U A
  pure a calls = (returned a, calls)

  abbrev pub lift : Outcome A → U A
  lift r calls = (r, calls)

module _ {A B : Type 0} where
  infixl 5 ◌>>=◌
  abbrev pub ◌>>=◌ : U A → (A → U B) → U B
  (u >>= f) calls =
      let r = u calls in
      elim (r.0) as (λ _. Outcome B × UnitCalls) [
        | returned a ↦ f a r.1
        | threw e ↦ (threw e, r.1)
        | exhausted ↦ (exhausted, r.1)
      ]

  infixl 5 ◌>>◌
  abbrev pub ◌>>◌ : U A → U B → U B
  u >> v = u >>= λ _. v

module _ (controller : UnitController) where
  abbrev pub inspect : ManagedService → U ManagedServiceStatus
  inspect service calls =
      (answered (controller.inspect calls service), UnitCall.inspected service ∷ calls)

  abbrev pub control : ManagedService → ServiceAction → U (Unit {0})
  control service action calls = (
    answered (controller.control calls service action),
    UnitCall.controlled service action ∷ calls,
  )

  -- inspection, and the start of a unit that is not active
  unfoldable pub activate : ManagedService → U (Unit {0})
  activate service = do
    state ← inspect service
    if state.active_state == "active" then pure tt else control service ServiceAction.start

  module _ (services : Registry) where
    -- `for (const auto &dependency : service.after) start_one(find(dependency), started);`
    unfoldable pub start_dependencies :
        (ManagedService → List String → U (List String))
        → List String
        → List String
        → U (List String)
    start_dependencies start [] started = pure started
    start_dependencies start (dependency ∷ rest) started = do
      service ← lift (find services dependency)
      started' ← start service started
      start_dependencies start rest started'

    -- the recursion on the dependencies, as deep as the fuel
    unfoldable pub start_one : ℕ → ManagedService → List String → U (List String)
    unfolding activate start_dependencies
    start_one zero service started = lift exhausted
    start_one (suc fuel) service started =
        if contains service.name started then pure started else do
          started' ← start_dependencies (start_one fuel) service.after started
          activate service
          pure (service.name ∷ started')

    abbrev pub start_auto :
        (ManagedService → List String → U (List String))
        → List ManagedService
        → List String
        → U (List String)
    start_auto start [] started = pure started
    start_auto start (service ∷ rest) started = do
      started' ← if service.auto_start then start service started else pure started
      start_auto start rest started'

    -- the names in `started`, newest first, are the result, which the source drops
    unfoldable pub start_registered : ℕ → U (List String)
    unfolding start_one
    start_registered fuel = start_auto (start_one fuel) services []

  -- what the manager knows better than the controller
  abbrev pub with_policy : ManagedService → ManagedServiceStatus → ManagedServiceStatus
  with_policy service status = record status {
    required_active = service.auto_start;
    priority_tier = service.priority_tier;
    expected_nice = service_priority_nice service.priority_tier;
  }

  unfoldable pub statuses : Registry → U (List ManagedServiceStatus)
  statuses [] = pure []
  statuses (service ∷ rest) = do
    status ← inspect service
    others ← statuses rest
    pure (with_policy service status ∷ others)

  unfoldable pub service_status : Registry → String → U ManagedServiceStatus
  service_status services name = do
    service ← lift (find services name)
    status ← inspect service
    pure (with_policy service status)

  unfoldable pub control_service : Registry → String → ServiceAction → U ManagedServiceStatus
  control_service services name action = do
    service ← lift (find services name)
    control service action
    status ← inspect service
    pure (with_policy service status)

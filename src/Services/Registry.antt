-- ===== src/Services/Registry.antt =====
-- `ManagedService`, its tiers and the registry of common/mnc/service/service_manager.hpp and .cpp.
pub mod Distinct
use meta_monutchee.Base.{
  ℤ, ℕ, String, Bool, ◌||◌, ◌⊎◌, inl, inr, List, [], ◌∷◌, ◌++◌, Option, none, some, ◌==◌, any,
  find_if, string_eq, if◌then◌else◌,
}
use Prim.Native.String.{◌++◌ as append}

pub data ServiceAction : Type 0 where
  start stop restart reload : ServiceAction

pub data ServicePriorityTier : Type 0 where
  critical high normal background : ServicePriorityTier

abbrev pub service_priority_nice : ServicePriorityTier → ℤ
service_priority_nice ServicePriorityTier.critical = ℤ.negsuc 9
service_priority_nice ServicePriorityTier.high = ℤ.negsuc 4
service_priority_nice ServicePriorityTier.normal = ℤ.pos 0
service_priority_nice ServicePriorityTier.background = ℤ.pos 5

abbrev pub service_priority_name : ServicePriorityTier → String
service_priority_name ServicePriorityTier.critical = "critical"
service_priority_name ServicePriorityTier.high = "high"
service_priority_name ServicePriorityTier.normal = "normal"
service_priority_name ServicePriorityTier.background = "background"

pub record ManagedService : Type 0 where
  pub name : String
  pub unit : String
  pub after : List String
  pub auto_start : Bool
  pub priority_tier : ServicePriorityTier

pub record ManagedServiceStatus : Type 0 where
  pub name : String
  pub unit : String
  pub active_state : String
  pub sub_state : String
  pub restart_count : ℕ
  pub permanently_failed : Bool
  pub required_active : Bool
  pub priority_tier : ServicePriorityTier
  pub expected_nice : ℤ
  pub effective_nice : ℤ
  pub priority_matches : Bool

-- the exceptions of the C++ library that the code throws
pub data Fault : Type 0 where
  invalid_argument runtime_error : String → Fault
  -- anything that is no `std::exception`
  unknown : Fault

-- how a call ends: `exhausted` is a recursion cut off for lack of fuel, which the source does not do
pub data Outcome {ℓ} (A : Type ℓ) : Type ℓ where
  returned : A → Outcome A
  threw : Fault → Outcome A
  exhausted : Outcome A

-- a call that returns or throws
abbrev pub answered {ℓ} : {A : Type ℓ} → Fault ⊎ A → Outcome A
answered (inl e) = threw e
answered (inr a) = returned a

-- the registry, `services_`, in the order of registration
abbrev pub Registry : Type 0
Registry = List ManagedService

abbrev pub clashes : ManagedService → ManagedService → Bool
clashes service candidate = candidate.name == service.name || candidate.unit == service.unit

unfoldable pub register_service : ManagedService → Registry → Outcome Registry
register_service service services =
    if any (clashes service) services
    then threw (Fault.invalid_argument "duplicate managed service")
    else returned (services ++ (service ∷ []))

abbrev pub found : String → Option ManagedService → Outcome ManagedService
found name none = threw (Fault.invalid_argument (append "unknown service: " name))
found name (some service) = returned service

unfoldable pub find : Registry → String → Outcome ManagedService
find services name = found name (find_if (λ service. service.name == name) services)

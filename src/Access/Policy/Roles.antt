-- ===== src/Access/Policy/Roles.antt =====
-- `allowed` against roles: what root, the settings account, the control account and others may call.
use meta_monutchee.Base.{
  Bool, false, ◌||◌, refl, if◌then◌else◌, ℕ, String, true, ◌≡◌, ◌↔◌, ◌⊎◌, Option, some, arith,
  eq_iff, ◌==◌, string_eq, nat_eq,
}
use meta_monutchee.Access.Policy.{allowed, settings_operation, control_operation, read_operation}

-- The operations of the interface with the role that each of them asks for.
pub data Operation : Type 0 where
  get_status get_time list_timezones get_timezone_catalog get_temperatures : Operation
  get_network_transaction get_job apply_preferences begin_network : Operation
  prepare_network_commit finish_network power reset_device : Operation

abbrev pub operation_name : Operation → String
operation_name get_status = "GetStatus"
operation_name get_time = "GetTime"
operation_name list_timezones = "ListTimezones"
operation_name get_timezone_catalog = "GetTimezoneCatalog"
operation_name get_temperatures = "GetTemperatures"
operation_name get_network_transaction = "GetNetworkTransaction"
operation_name get_job = "GetJob"
operation_name apply_preferences = "ApplyPreferences"
operation_name begin_network = "BeginNetwork"
operation_name prepare_network_commit = "PrepareNetworkCommit"
operation_name finish_network = "FinishNetwork"
operation_name power = "Power"
operation_name reset_device = "ResetDevice"

pub data Role : Type 0 where
  anyone settings control : Role

abbrev pub role : Operation → Role
role apply_preferences = settings
role begin_network = settings
role prepare_network_commit = settings
role finish_network = settings
role power = control
role reset_device = control
role _ = anyone

-- the peer has the role: root has each of them
abbrev pub Holds : Role → ℕ → Option ℕ → Option ℕ → Type 0
Holds anyone uid settings_uid control_uid = Unit {0}
Holds settings uid settings_uid control_uid = (uid ≡ 0) ⊎ (settings_uid ≡ some uid)
Holds control uid settings_uid control_uid = (uid ≡ 0) ⊎ (control_uid ≡ some uid)

-- An operation of the interface is allowed exactly to the peers that hold its role: the operations
-- that change settings to root and the settings account, those that stop or reset the device to root
-- and the control account, and those that only read to everybody.
pub allowed_iff :
    (op : Operation) (uid : ℕ) (settings_uid control_uid : Option ℕ)
    → (allowed (operation_name op) uid settings_uid control_uid ≡ true)
      ↔ Holds (role op) uid settings_uid control_uid
unfolding allowed
allowed_iff get_status uid s c = ground arith
allowed_iff _ uid s c = ground arith

abbrev pub IsNamed : String → Type 0
IsNamed name = (op : Operation) × (name ≡ operation_name op)

named : (name : String) (op : Operation) → (name == operation_name op) ≡ true → IsNamed name
named name op h = (op, (eq_iff name (operation_name op)).0 h)

or-IsNamed :
    (name : String) (a b : Bool)
    → (a ≡ true → IsNamed name)
    → (b ≡ true → IsNamed name)
    → (a || b) ≡ true
    → IsNamed name
or-IsNamed name true b h k e = h refl
or-IsNamed name false b h k e = k e

settings_operation-IsNamed : (name : String) → settings_operation name ≡ true → IsNamed name
unfolding settings_operation
settings_operation-IsNamed name =
    or-IsNamed name _ _
      (or-IsNamed name _ _
        (or-IsNamed name _ _ (named name apply_preferences) (named name begin_network))
        (named name prepare_network_commit))
      (named name finish_network)

control_operation-IsNamed : (name : String) → control_operation name ≡ true → IsNamed name
unfolding control_operation
control_operation-IsNamed name = or-IsNamed name _ _ (named name power) (named name reset_device)

read_operation-IsNamed : (name : String) → read_operation name ≡ true → IsNamed name
read_operation-IsNamed name =
    or-IsNamed name _ _
      (or-IsNamed name _ _
        (or-IsNamed name _ _
          (or-IsNamed name _ _
            (or-IsNamed name _ _ (or-IsNamed name _ _ (named name get_status) (named name get_time))
              (named name list_timezones))
            (named name get_timezone_catalog))
          (named name get_temperatures))
        (named name get_network_transaction))
      (named name get_job)

-- the test of the peer, on either side, follows the test of the name
if-IsNamed :
    (name : String) (t a b : Bool)
    → (t ≡ true → IsNamed name)
    → (b ≡ true → IsNamed name)
    → (if t then a else b) ≡ true
    → IsNamed name
if-IsNamed name true a b h k e = h refl
if-IsNamed name false a b h k e = k e

-- Whatever is allowed to anybody at all, root included, is an operation of the interface.
pub allowed-IsNamed :
    (name : String) (uid : ℕ) (settings_uid control_uid : Option ℕ)
    → allowed name uid settings_uid control_uid ≡ true
    → IsNamed name
unfolding allowed
allowed-IsNamed name uid s c =
    if-IsNamed name (settings_operation name) _ _ (settings_operation-IsNamed name) (
      if-IsNamed name (control_operation name) _ _ (control_operation-IsNamed name)
        (read_operation-IsNamed name))

-- ===== src/Tests/Managers.antt =====
-- Services on concrete inputs.
use meta_monutchee.Base.{
  ℕ, ltb, leb, String, Bool, true, false, List, [], ◌∷◌, ◌≡◌, ◌≢◌, ◌⊎◌, ap, refl, ◌==◌, inl, inr,
  string_eq, eq_iff, if◌then◌else◌, arith,
}
use meta_monutchee.Services.Registry.{
  ManagedService, ServicePriorityTier, ServiceAction, Registry, returned, exhausted, find,
  register_service, service_priority_nice,
}
use meta_monutchee.Services.Registry.Distinct.{IsDistinct, Registers, register_service-Registers}
use meta_monutchee.Services.Manager.{UnitController, UnitCall, start_one, start_registered}
use meta_monutchee.Services.Manager.Inspected.{StartsInOrder, start_registered-Starts}
use meta_monutchee.Services.Manager.Cycle.{LeadsBack, start_one-exhausts}
use meta_monutchee.Services.Manager.Adopt.{Adopts, start_registered-Adopts}
use meta_monutchee.Services.Lifecycle.{Program, Process, Wait, execute}
use meta_monutchee.Services.Lifecycle.Stops.{Leaves, execute-Leaves}
use meta_monutchee.Services.Lifecycle.Ends.{IsOver, waits, execute-IsOver}

abbrev service : String → List String → Bool → ManagedService
service name after auto = record {
  name = name;
  unit = name;
  after = after;
  auto_start = auto;
  priority_tier = ServicePriorityTier.high;
}

abbrev clock : ManagedService
clock = service "clock" ("log" ∷ []) true

abbrev log : ManagedService
log = service "log" [] false

abbrev web : ManagedService
web = service "web" ("clock" ∷ "log" ∷ []) true

abbrev three : Registry
three = web ∷ clock ∷ log ∷ []

-- only the log is active
abbrev bus : UnitController
bus = record {
  inspect = λ calls s. inr (record {
    name = s.name;
    unit = s.unit;
    active_state = if s.name == "log" then "active" else "inactive";
    sub_state = "";
    restart_count = 0;
    permanently_failed = false;
    required_active = true;
    priority_tier = s.priority_tier;
    expected_nice = service_priority_nice s.priority_tier;
    effective_nice = service_priority_nice s.priority_tier;
    priority_matches = true;
  });
  control = λ calls s action. inr tt;
}

three-started : start_registered bus three 4 [] ≡ (
  returned ("web" ∷ "clock" ∷ "log" ∷ []),
  UnitCall.controlled web ServiceAction.start
      ∷ UnitCall.inspected web
      ∷ UnitCall.controlled clock ServiceAction.start
      ∷ UnitCall.inspected clock
      ∷ UnitCall.inspected log
      ∷ [],
)
unfolding start_registered find
three-started = refl

abbrev rank : String → ℕ
rank name = if name == "web" then 2 else if name == "clock" then 1 else 0

apart : (s t : String) → (s == t) ≡ false → s ≢ t
apart s t h e = ground (arith, eq_iff s t, h, e)

two-IsDistinct : IsDistinct (web ∷ clock ∷ [])
two-IsDistinct = (((apart "web" "clock" refl, apart "web" "clock" refl), tt), (tt, tt))

three-IsDistinct : IsDistinct three
three-IsDistinct = (
  (
    (apart "web" "clock" refl, apart "web" "clock" refl),
    ((apart "web" "log" refl, apart "web" "log" refl), tt),
  ),
  (((apart "clock" "log" refl, apart "clock" "log" refl), tt), (tt, tt)),
)

start_registered-Starts_example : StartsInOrder bus three (start_registered bus three 3 [])
start_registered-Starts_example =
    start_registered-Starts bus three rank (ground arith) 3 three-IsDistinct (ground arith)

start_registered-Adopts_example : Adopts bus (start_registered bus three 4 []).1
start_registered-Adopts_example = start_registered-Adopts bus three 4

-- Registrations, one of a unit that is there already.
register_service-Registers_example :
    Registers log (web ∷ clock ∷ []) (register_service log (web ∷ clock ∷ []))
register_service-Registers_example =
    register_service-Registers log (web ∷ clock ∷ []) two-IsDistinct

-- two services, each to be started after the other
abbrev ptp : ManagedService
ptp = service "ptp" ("ntp" ∷ []) true

abbrev ntp : ManagedService
ntp = service "ntp" ("ptp" ∷ []) true

abbrev IsCircular : ManagedService → Type 0
IsCircular s = (s ≡ ptp) ⊎ (s ≡ ntp)

IsCircular-LeadsBack : (s : ManagedService) → IsCircular s → LeadsBack (ptp ∷ ntp ∷ []) IsCircular s
unfolding find
IsCircular-LeadsBack s (inl e) = record {
  dependency = "ntp";
  others = [];
  next = ntp;
  after_eq = ap (λ (s : ManagedService). s.after) e;
  find_eq = refl;
  next_is = inr refl;
}
IsCircular-LeadsBack s (inr e) = record {
  dependency = "ptp";
  others = [];
  next = ptp;
  after_eq = ap (λ (s : ManagedService). s.after) e;
  find_eq = refl;
  next_is = inl refl;
}

start_one-exhausts_example : start_one bus (ptp ∷ ntp ∷ []) 100 ptp [] [] ≡ (exhausted, [])
start_one-exhausts_example =
    start_one-exhausts bus (ptp ∷ ntp ∷ []) IsCircular IsCircular-LeadsBack [] (λ s c. refl) 100 ptp
      [] (inl refl)

-- a service that is told to terminate in its third wait
abbrev daemon : Program
daemon = record {
  name = "daemon";
  blocks_signals = true;
  start = λ acts. inr tt;
  reload = λ acts. inr tt;
  health = λ acts. inr (record { healthy = true; summary = "ok" });
  wait = λ acts. if ltb (waits acts) 2 then Wait.hangup else Wait.terminate;
  asks_stop = λ acts. leb 4 (waits acts);
  asks_reload = λ acts. false;
}

abbrev fresh : Process
fresh = record { stop_requested = false; reload_requested = false; acts = [] }

daemon_run :
    ((execute daemon 10 fresh).0 ≡ returned 0) × (waits (execute daemon 10 fresh).1.acts ≡ 3)
unfolding execute
daemon_run = (refl, refl)

execute-Leaves_example : Leaves 0 1 (execute daemon 10 fresh)
execute-Leaves_example = execute-Leaves daemon 10 fresh

execute-IsOver_example : IsOver (execute daemon 5 fresh)
execute-IsOver_example = execute-IsOver daemon 4 (λ acts h. ground arith) fresh

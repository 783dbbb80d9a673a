-- ===== src/Platform/Apply/Order.antt =====
-- The order of the jobs when the clock source changes.
use Prim.Native.String.{◌++◌ as append}
use meta_monutchee.Base.{
  ℕ, zero, suc, ◌+◌, to_string, ltb, String, Bool, true, false, not, ◌&&◌, ◌==◌, string_eq, ◌≡◌,
  refl, List, [], ◌∷◌, if◌then◌else◌,
}
use meta_monutchee.System.{ErrorCode, Configuration, NetworkConfig}
use meta_monutchee.Backend.Profile.{Profile}
use meta_monutchee.Clock.Units.{ClockUnits}
use meta_monutchee.Platform.System.{Act, Acts, Answers, N, ◌>>=◌, Ended, returned, threw, cut_off}
use meta_monutchee.Platform.Rules.{
  Keeps, Keeps-pure, Keeps-throw, Keeps-running, Keeps-bind, Keeps-ask, Keeps-observe, Keeps-when,
}
use meta_monutchee.Platform.Unit.{
  is_reached, judge, poll, submit, switch_unit, sleep, read_clock, unit_state,
}
use meta_monutchee.Platform.Clock.{ClockPolicyChanges}
use meta_monutchee.Platform.Apply.{
  switch_units, reconfigure_links, reload_network, apply_clock, call_method,
}

abbrev is_start : Act → Bool
is_start (Act.submit_job name start) = start
is_start _ = false

abbrev is_stop : Act → Bool
is_stop (Act.submit_job name start) = not start
is_stop _ = false

-- no job that starts a unit
abbrev pub NoStart : Acts → Type 0
NoStart [] = Unit
NoStart (act ∷ acts) = (is_start act ≡ false) × NoStart acts

-- no job that stops a unit follows one that starts a unit
abbrev pub IsOrdered : Acts → Type 0
IsOrdered [] = Unit
IsOrdered (act ∷ acts) = (is_stop act ≡ true → NoStart acts) × IsOrdered acts

NoStart-IsOrdered : (acts : Acts) → NoStart acts → IsOrdered acts
NoStart-IsOrdered [] h = tt
NoStart-IsOrdered (act ∷ acts) h = ((λ _. h.1), NoStart-IsOrdered acts h.1)

Keeps-if :
    {A : Type 0} {P : Acts → Type 0} (t : Bool) (m n : N A)
    → Keeps P m
    → Keeps P n
    → Keeps P (if t then m else n)
Keeps-if true m n km kn = km
Keeps-if false m n km kn = kn

record Leads {A : Type 0} (P Q : Acts → Type 0) (m : N A) : Type 0 where
  at : (acts : Acts) → P acts → Q (m acts).1

Leads-bind :
    {A B : Type 0} {P Q : Acts → Type 0} (m : N A) (f : A → N B)
    → Keeps P m
    → ((acts : Acts) → P acts → Q acts)
    → ((a : A) → Leads P Q (f a))
    → Leads P Q (m >>= f)
Leads-bind {A} {B} {P} {Q} m f km weaken kf = record { at = λ acts h. go (m acts) (km.at acts h) }
  where
    go :
        (r : Ended A × Acts)
        → P r.1
        → Q
            (elim (r.0) as (λ _. Ended B × Acts) [
              | returned a ↦ f a r.1
              | threw e ↦ (threw e, r.1)
              | cut_off ↦ (cut_off, r.1)
            ]).1
    go (returned a, acts) h = (kf a).at acts h
    go (threw e, acts) h = weaken acts h
    go (cut_off, acts) h = weaken acts h

Keeps-Leads :
    {A : Type 0} {P Q : Acts → Type 0} (m : N A)
    → Keeps Q m
    → ((acts : Acts) → P acts → Q acts)
    → Leads P Q m
Keeps-Leads m km weaken = record { at = λ acts h. km.at acts (weaken acts h) }

-- an act that is no job keeps the predicate
abbrev IsQuiet : (Acts → Type 0) → Type 0
IsQuiet P =
    (act : Act)
    → is_start act ≡ false
    → is_stop act ≡ false
    → (acts : Acts) → P acts
    → P (act ∷ acts)

module _ (answers : Answers) (P : Acts → Type 0) (quiet : IsQuiet P) where
  judge-Keeps :
      (name : String) (start : Bool) (deadline : ℕ) (again : N (Unit {0})) (state : String)
      → Keeps P again
      → Keeps P (judge answers name start deadline again state)
  unfolding judge
  judge-Keeps name start deadline again state k =
      Keeps-if (is_reached start state) _ _ (Keeps-pure tt) (
        Keeps-if (start && state == "failed") _ _ (Keeps-throw _ _) (
          Keeps-bind (sleep answers >>= λ _. read_clock answers) _
            (Keeps-bind (sleep answers) _ (Keeps-observe Act.slept _ (quiet Act.slept refl refl))
              (λ _. Keeps-observe Act.read_clock answers.now (quiet Act.read_clock refl refl)))
            (λ now.
              Keeps-if (ltb now deadline) again _ k
                (Keeps-throw ErrorCode.timeout (append "unit transition timed out: " name)))))

  poll-Keeps :
      (fuel : ℕ) (name : String) (start : Bool) (deadline : ℕ)
      → Keeps P (poll answers fuel name start deadline)
  unfolding poll
  poll-Keeps zero name start deadline = Keeps-running
  poll-Keeps (suc fuel) name start deadline =
      Keeps-bind (unit_state answers name) _
        (Keeps-ask (Act.read_state name) _ (quiet (Act.read_state name) refl refl))
        (λ state. judge-Keeps name start deadline _ state (poll-Keeps fuel name start deadline))

  reconfigure_links-Keeps :
      (profile : Profile) (cs : List NetworkConfig) → Keeps P (reconfigure_links answers profile cs)
  unfolding reconfigure_links
  reconfigure_links-Keeps profile [] = Keeps-pure tt
  reconfigure_links-Keeps profile (c ∷ cs) =
      Keeps-bind _ _
        (Keeps-observe (Act.look c.interface) _ (quiet (Act.look c.interface) refl refl))
        (λ index.
          Keeps-bind (call_method answers profile "ReconfigureLink" (to_string index ∷ [])) _
            (Keeps-ask _ _
              (quiet (Act.call_method "ReconfigureLink" (to_string index ∷ [])) refl refl))
            (λ _. reconfigure_links-Keeps profile cs))

  reload_network-Keeps :
      (profile : Profile) (cs : List NetworkConfig) → Keeps P (reload_network answers profile cs)
  unfolding reload_network
  reload_network-Keeps profile cs =
      Keeps-bind (call_method answers profile "Reload" []) _
        (Keeps-ask _ _ (quiet (Act.call_method "Reload" []) refl refl))
        (λ _. reconfigure_links-Keeps profile cs)

  module _ (start : Bool)
      (job : (name : String) (acts : Acts) → P acts → P (Act.submit_job name start ∷ acts)) where
    switch_unit-Keeps : (fuel : ℕ) (name : String) → Keeps P (switch_unit answers fuel name start)
    unfolding switch_unit submit
    switch_unit-Keeps fuel name =
        Keeps-bind (unit_state answers name) _
          (Keeps-ask _ _ (quiet (Act.read_state name) refl refl))
          (λ state. Keeps-if (is_reached start state) _ _ (Keeps-pure tt) (
            Keeps-bind _ _ (Keeps-ask (Act.submit_job name start) _ (job name)) (λ _.
              Keeps-bind (read_clock answers) _ (Keeps-observe _ _ (quiet Act.read_clock refl refl))
                (λ now. poll-Keeps fuel name start (now + 10000)))))

    switch_units-Keeps :
        (profile : Profile) (fuel : ℕ) (names : List String)
        → Keeps P (switch_units answers profile fuel start names)
    unfolding switch_units
    switch_units-Keeps profile fuel [] = Keeps-pure tt
    switch_units-Keeps profile fuel (name ∷ names) =
        Keeps-bind _ _ (switch_unit-Keeps fuel name) (λ _. switch_units-Keeps profile fuel names)

still_quiet : IsQuiet NoStart
still_quiet act q r acts h = (q, h)

order_quiet : IsQuiet IsOrdered
order_quiet act q r acts h = ((λ stop. absurd (cc)), h)

stop_job : (name : String) (acts : Acts) → NoStart acts → NoStart (Act.submit_job name false ∷ acts)
stop_job name acts h = (refl, h)

start_job :
    (name : String) (acts : Acts) → IsOrdered acts → IsOrdered (Act.submit_job name true ∷ acts)
start_job name acts h = ((λ stop. absurd (cc)), h)

module _ (answers : Answers) (profile : Profile) where
  -- When the units of a clock source are applied, from a history without a start, however the call
  -- ends: no unit is told to stop after another was told to start.
  pub apply_clock-IsOrdered :
      (fuel : ℕ) (c : Configuration) (changed : ClockPolicyChanges) (clocks : ClockUnits)
      (acts : Acts)
      → NoStart acts
      → IsOrdered (apply_clock answers profile fuel c changed clocks acts).1
  unfolding apply_clock
  apply_clock-IsOrdered fuel c changed clocks acts h = Leads.at steps acts h
    where
      stops : (names : List String) → Keeps NoStart (switch_units answers profile fuel false names)
      stops = switch_units-Keeps answers NoStart still_quiet false stop_job profile fuel

      reloads : Keeps NoStart (reload_network answers profile c.system.network)
      reloads = reload_network-Keeps answers NoStart still_quiet profile c.system.network

      starts : Keeps IsOrdered (switch_units answers profile fuel true clocks.start)
      starts =
          switch_units-Keeps answers IsOrdered order_quiet true start_job profile fuel clocks.start

      steps : Leads NoStart IsOrdered (apply_clock answers profile fuel c changed clocks)
      steps = Leads-bind _ _ (stops clocks.stop) NoStart-IsOrdered (λ _.
          Leads-bind _ _ (Keeps-when _ _ (stops profile.ntp_units)) NoStart-IsOrdered (λ _.
            Leads-bind _ _ (Keeps-when changed.network _ reloads) NoStart-IsOrdered
              (λ _. Keeps-Leads _ starts NoStart-IsOrdered)))

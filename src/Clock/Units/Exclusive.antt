-- ===== src/Clock/Units/Exclusive.antt =====
-- One clock source at a time: what is started for a source, and that the servos of the others stop.
use mathlib.Core.List.{reverse, append-nil}
use meta_monutchee.Base.{
  String, Bool-cases, true, false, not, ◌&&◌, ◌||◌, ◌≡◌, ◌≢◌, refl, sym, ◌∙◌, subst, ◌⊎◌, inl, inr,
  List, [], ◌∷◌, ◌++◌, ◌==◌, string_eq, eq_iff, contains, keep_if, is_empty, arith,
}
use meta_monutchee.System.{ok, ok-injective, Result-cases, TimePreferences}
use meta_monutchee.Backend.Profile.{Profile}
use meta_monutchee.Clock.Units.{
  ClockUnits, instance_unit, selected_instances, ptp_selection, selected_units, all_units,
  irig_selection, arrange, clock_units,
}
use meta_monutchee.Clock.Units.Instances.{
  IsServo, all_units-contains, contains-append, contains-reverse, contains-keep_if,
}

-- one unit for each template, in order, made for the interface
abbrev pub AreInstances : List String → String → List String → Type 0
AreInstances [] name [] = Unit
AreInstances [] name (unit ∷ units) = ⊥
AreInstances (template ∷ templates) name [] = ⊥
AreInstances (template ∷ templates) name (unit ∷ units) =
    (instance_unit template name ≡ ok unit) × AreInstances templates name units

selected-AreInstances :
    (templates : List String) (name : String) (units : List String)
    → selected_instances templates name ≡ ok units
    → AreInstances templates name units
unfolding selected_instances
selected-AreInstances [] name units h = subst (AreInstances [] name) (ok-injective h) tt
selected-AreInstances (template ∷ templates) name units h =
    elim (Result-cases (instance_unit template name)) [
      | inr (e, failed) ↦ absurd (ground (arith, h, failed))
      | inl (unit, made) ↦ elim (Result-cases (selected_instances templates name)) [
        | inr (e, failed) ↦ absurd (ground (arith, h, failed, made))
        | inl (rest, more) ↦
            let whole : unit ∷ rest ≡ units = ok-injective (ground (arith, h, made, more)) in
            subst (AreInstances (template ∷ templates) name) whole
              (made, selected-AreInstances templates name rest more)
      ]
    ]

module _ (profile : Profile) (time : TimePreferences) where
  -- The lists for NTP: all servos stop and the NTP units start.
  pub record RunsNtp (units : ClockUnits) : Type 0 where
    pub starts : units.start ≡ profile.ntp_units
    pub stops : (x : String) → IsServo profile x → contains x units.stop ≡ true

  -- what starts: for IRIG its units, for PTP the instances for the selected interface
  pub record StartsOwn (started : List String) : Type 0 where
    pub irig : time.synchronization ≡ "irig" → started ≡ profile.irig_units
    pub ptp :
        time.synchronization ≡ "ptp"
        → AreInstances profile.ptp_unit_templates time.ptp_interface started
    pub other : time.synchronization ≢ "irig" → time.synchronization ≢ "ptp" → started ≡ []

  -- The lists for PTP and IRIG: their own units start, the NTP units stop, and each servo stops or starts.
  pub record RunsServo (units : ClockUnits) : Type 0 where
    pub starts : StartsOwn units.start
    pub stops : (x : String) → contains x profile.ntp_units ≡ true → contains x units.stop ≡ true
    pub covers :
        (x : String)
        → IsServo profile x
        → (contains x units.start ≡ true) ⊎ (contains x units.stop ≡ true)
    pub disjoint :
        (x : String)
        → contains x units.start ≡ true
        → contains x profile.ntp_units ≡ false
        → contains x units.stop ≡ false

  ntp_selection : time.synchronization ≡ "ntp" → selected_units profile time ≡ ok []
  unfolding selected_units irig_selection
  ntp_selection ntp = rw ntp refl

  selected-Own :
      (selected : List String) → selected_units profile time ≡ ok selected → StartsOwn selected
  unfolding selected_units irig_selection ptp_selection
  selected-Own selected h = record {
    irig = λ q.
        let is_irig = (eq_iff time.synchronization "irig").1 q in
        let no_ptp = subst (λ s. (s == "ptp") ≡ false) (sym q) refl in
        elim (Bool-cases (is_empty profile.irig_units)) [
          | inl missing ↦ absurd (ground (arith, h, is_irig, no_ptp, missing))
          | inr there ↦
              let same : ok (profile.irig_units ++ []) ≡ ok selected =
                ground (arith, h, is_irig, no_ptp, there) in
              sym (ok-injective same) ∙ append-nil profile.irig_units
        ];
    ptp = λ q.
        let no_irig = subst (λ s. (s == "irig") ≡ false) (sym q) refl in
        let is_ptp = (eq_iff time.synchronization "ptp").1 q in
        selected-AreInstances profile.ptp_unit_templates time.ptp_interface selected
          (ground (arith, h, no_irig, is_ptp));
    other = λ p q. sym (
        ok-injective (
          ground (
            arith,
            h,
            eq_iff time.synchronization "irig",
            eq_iff time.synchronization "ptp",
            p,
            q,
          )));
  }

  -- the servos that are not selected
  abbrev idle : List String → List String → List String
  idle selected all = keep_if (λ unit. not (contains unit selected)) (reverse all)

  contains-idle :
      (x : String) (selected all : List String)
      → contains x (idle selected all) ≡ (contains x all && not (contains x selected))
  contains-idle x selected all = ground (
    arith,
    contains-keep_if (λ unit. not (contains unit selected)) x (reverse all),
    contains-reverse x all,
  )

  module _ (all : List String)
      (servos : (x : String) → IsServo profile x → contains x all ≡ true) where
    RunsServo-lists :
        (selected : List String)
        → StartsOwn selected
        → RunsServo
            (record { stop = idle selected all ++ reverse profile.ntp_units; start = selected })
    RunsServo-lists selected own = record {
      starts = own;
      stops = λ x h. ground (arith, at x selected, h);
      covers = λ x servo. elim (Bool-cases (contains x selected)) [
        | inl starts ↦ inl starts
        | inr stays ↦
            inr (ground (arith, at x selected, contains-idle x selected all, servos x servo, stays))
      ];
      disjoint = λ x starts no_ntp.
          ground (arith, at x selected, contains-idle x selected all, starts, no_ntp);
    }
      where
        at :
            (x : String) (selected : List String)
            → contains x (idle selected all ++ reverse profile.ntp_units)
              ≡ (contains x (idle selected all) || contains x profile.ntp_units)
        at x selected = ground (
          arith,
          contains-append x (idle selected all) (reverse profile.ntp_units),
          contains-reverse x profile.ntp_units,
        )

    RunsNtp-lists : RunsNtp (record { stop = idle [] all; start = profile.ntp_units })
    RunsNtp-lists = record {
      starts = refl;
      stops = λ x servo. ground (arith, contains-idle x [] all, servos x servo);
    }

  arrange-other :
      (selected all : List String)
      → (time.synchronization == "ntp") ≡ false
      → arrange profile time selected all
        ≡ record { stop = idle selected all ++ reverse profile.ntp_units; start = selected }
  unfolding arrange
  arrange-other selected all q = rw q refl

  arrange-ntp :
      (selected all : List String)
      → (time.synchronization == "ntp") ≡ true
      → arrange profile time selected all
        ≡ record { stop = idle selected all; start = profile.ntp_units }
  unfolding arrange
  arrange-ntp selected all q = rw q refl

  -- The units of a clock source that are returned: with NTP, exactly the NTP units are started and all
  -- PTP and IRIG servos of the profile are stopped; with IRIG exactly its units are started, with PTP exactly
  -- the instances of the templates for the selected interface, and with no other source anything; there
  -- the NTP units are stopped, each servo is stopped or started, and what is started is not stopped, if
  -- it is no NTP unit.
  pub clock_units-Runs :
      (units : ClockUnits)
      → clock_units profile time ≡ ok units
      → (time.synchronization ≡ "ntp" → RunsNtp units)
        × (time.synchronization ≢ "ntp" → RunsServo units)
  unfolding clock_units
  clock_units-Runs units h = elim (Result-cases (selected_units profile time)) [
    | inr (e, failed) ↦ absurd (ground (arith, h, failed))
    | inl (selected, selects) ↦ elim (Result-cases (all_units profile time)) [
      | inr (e, failed) ↦ absurd (ground (arith, h, failed, selects))
      | inl (all, collected) ↦
          let servos : (x : String) → IsServo profile x → contains x all ≡ true =
            λ x servo. all_units-contains profile time all x collected servo in
          let made : arrange profile time selected all ≡ units =
            ok-injective (ground (arith, h, selects, collected)) in
          (
            (λ ntp.
                let none_selected : selected ≡ [] =
                  ok-injective (sym selects ∙ ntp_selection ntp) in
                let is_ntp = (eq_iff time.synchronization "ntp").1 ntp in
                subst RunsNtp (sym (arrange-ntp selected all is_ntp) ∙ made) (
                  subst (λ xs. RunsNtp (record { stop = idle xs all; start = profile.ntp_units }))
                    (sym none_selected) (RunsNtp-lists all servos))),
            λ other.
                subst RunsServo
                  (sym (
                      arrange-other selected all
                        (ground (arith, eq_iff time.synchronization "ntp", other)))
                    ∙ made)
                  (RunsServo-lists all servos selected (selected-Own selected selects)),
          )
    ]
  ]

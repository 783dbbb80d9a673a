-- ===== src/Sysmon/Snapshot/Sound.antt =====
-- What a snapshot says is true of its readings.
use meta_monutchee.Base.{
  ℕ, Bool, Bool-cases, true, false, ◌≡◌, ◌≢◌, refl, arith, ◌⊎◌, inl, inr, Option, none, some, List,
  [], ◌∷◌, ◌++◌, All, All-append, codes, is_empty, all, leb, bytes_of, length, ◌==◌, list_eq,
  nat_eq, list_beq_iff, sort_by, sort_by-All, sort_by-IsSorted, IsSorted, if◌then◌else◌,
}
use meta_monutchee.System.Trace.{pure, observe, catch, ◌>>=◌}
use meta_monutchee.System.Trace.Rules.{Gives, Gives-if, Gives-catch, Gives-bind}
use meta_monutchee.Sysmon.World.{
  Text, Op, Ops, Content, Sysfs, Reals, S, read_content, known, given,
}
use meta_monutchee.Sysmon.Sample.{Reading}
use meta_monutchee.Sysmon.Sample.Honest.{IsHonest, sample_device-IsHonest, given-Gives}
use meta_monutchee.Sysmon.Snapshot.{
  Selector, ams, Snapshot, Readings, lists_value, identity, is_monitor, is_selected, attempt_name,
  sample_ams, visit, visit_all, pick_devices, list_devices, read_devices, has_value, conclude,
  read_snapshot,
}

module _ (reals : Reals) (sysfs : Sysfs) (selector : Selector) where
  abbrev AllHonest : List (Reading reals) → Type 0
  AllHonest rs = All (IsHonest reals sysfs) rs

  abbrev Some : {A : Type 0} → A → Type 0
  Some a = Unit

  -- The status of a snapshot with these readings.
  abbrev pub IsTrue : Snapshot reals → Type 0
  IsTrue s =
      ((s.status ≡ codes "ok")
        × (is_empty s.readings ≡ false)
        × (all (has_value reals) s.readings ≡ true)
        × IsSorted (λ (r : Reading reals). r.id) s.readings
        × (s.error ≡ []))
      ⊎ ((s.status ≡ codes "partial")
          × (is_empty s.readings ≡ false)
          × ((all (has_value reals) s.readings ≡ false) ⊎ (is_empty s.error ≡ false)))
      ⊎ ((s.status ≡ codes "unavailable") × (s.readings ≡ []) × (is_empty s.error ≡ false))
      ⊎ ((s.status ≡ codes "unsupported") × (s.readings ≡ []) × (selector.compatible ≢ ams))

  abbrev pub IsSound : Snapshot reals → Type 0
  IsSound s = AllHonest s.readings × IsTrue s

  known-Gives : (answer : Option Bool) → Gives Some Some (known answer)
  unfolding known
  known-Gives none = record { at = λ h. tt }
  known-Gives (some found) = record { at = λ h. tt }

  observe-Gives :
      {A : Type 0} (op : Op) (answer : Ops → A) → Gives Some Some (observe {E = Text} op answer)
  observe-Gives op answer = record { at = λ h. tt }

  read_content-Gives : (content : Content) → Gives Some Some (read_content content)
  unfolding read_content
  read_content-Gives Content.unreadable = record { at = λ h. tt }
  read_content-Gives Content.broken = record { at = λ h. tt }
  read_content-Gives (Content.holds text) =
      Gives-if Some Some (leb 4097 (bytes_of text)) _ _ (λ long. record { at = λ h. tt })
        (λ short. record { at = λ h. tt })

  bind-Gives :
      {A B : Type 0} (P : B → Type 0) (m : S A) (f : A → S B)
      → Gives Some Some m
      → ((a : A) → Gives P Some (f a))
      → Gives P Some (m >>= f)
  bind-Gives P m f u v = Gives-bind Some P Some m f u (λ a p. v a)

  -- the empty list of readings is honest
  no_readings : Gives {O = Op} {E = Text} AllHonest Some (pure [])
  no_readings = record { at = λ h. tt }

  sample_ams-Gives : (device : Text) → Gives AllHonest Some (sample_ams reals sysfs selector device)
  unfolding sample_ams
  sample_ams-Gives device =
      bind-Gives AllHonest (observe (Op.test_node device) (λ h. sysfs.has_node h device) >>= known)
        _
        (bind-Gives Some (observe (Op.test_node device) (λ h. sysfs.has_node h device)) known
          (observe-Gives _ _) known-Gives)
        (λ found.
          bind-Gives AllHonest
            (observe (Op.read_compatible device) (λ h. sysfs.compatible h device) >>= read_content)
            _
            (bind-Gives Some (observe (Op.read_compatible device) (λ h. sysfs.compatible h device))
              read_content (observe-Gives _ _) read_content-Gives)
            (λ values.
              Gives-if AllHonest Some (lists_value (length values) selector.compatible values) _ _
                (λ fits.
                  bind-Gives AllHonest
                    (observe (Op.resolve_node device) (λ h. sysfs.node_path h device) >>= given) _
                    (bind-Gives Some
                      (observe (Op.resolve_node device) (λ h. sysfs.node_path h device)) given
                      (observe-Gives _ _) (given-Gives reals sysfs))
                    (λ path.
                      Gives-if AllHonest Some (is_selected reals sysfs selector path) _ _
                        (λ chosen. sample_device-IsHonest reals sysfs device (identity path))
                        (λ other. no_readings)))
                (λ other. no_readings)))

  attempt_name-Gives : (device : Text) → Gives Some Some (attempt_name reals sysfs selector device)
  attempt_name-Gives device =
      Gives-catch Some Some Some
        (observe (Op.read_name device) (λ h. sysfs.name h device) >>= λ content.
          read_content content >>= λ name. pure (some name))
        (λ e. pure none)
        (bind-Gives Some (observe (Op.read_name device) (λ h. sysfs.name h device))
          (λ content. read_content content >>= λ name. pure (some name)) (observe-Gives _ _)
          (λ content.
            bind-Gives Some (read_content content) (λ name. pure (some name))
              (read_content-Gives content) (λ name. record { at = λ h. tt })))
        (λ e q. record { at = λ h. tt })

  visit-Gives : (device : Text) → Gives AllHonest Some (visit reals sysfs selector device)
  unfolding visit
  visit-Gives device =
      bind-Gives AllHonest (attempt_name reals sysfs selector device)
        (λ name. if is_monitor name then sample_ams reals sysfs selector device else pure [])
        (attempt_name-Gives device)
        (λ name.
          Gives-if AllHonest Some (is_monitor name) _ _ (λ monitor. sample_ams-Gives device)
            (λ other. no_readings))

  conclude-IsSound :
      (t : ℕ) (rs : Readings reals) (failed : Bool)
      → AllHonest rs
      → IsSound (conclude reals t (rs, failed))
  unfolding conclude
  conclude-IsSound t [] true honest = (tt, inr (inr (inl (refl, refl, refl))))
  conclude-IsSound t (r ∷ rs) true honest = (honest, inr (inl (refl, refl, inr refl)))
  conclude-IsSound t rs false honest =
      let key = λ (r : Reading reals). r.id in
      (
        (sort_by-All key (IsHonest reals sysfs) rs).1 honest,
        go (sort_by key rs) (sort_by-IsSorted key rs),
      )
    where
      go :
          (sorted : List (Reading reals))
          → IsSorted (λ (r : Reading reals). r.id) sorted
          → IsTrue (record {
            status =
                if is_empty sorted
                then codes "unavailable"
                else if all (has_value reals) sorted
                then codes "ok"
                else codes "partial";
            error = if is_empty sorted then codes "no matching AMS channels exposed" else [];
            sampled_at = t;
            readings = sorted;
          })
      go [] in_order = inr (inr (inl (refl, refl, refl)))
      go (r ∷ rs') in_order = elim (Bool-cases (all (has_value reals) (r ∷ rs'))) [
        | inl whole ↦ inl (rw whole refl, refl, whole, in_order, refl)
        | inr part ↦ inr (inl (rw part refl, refl, inl part))
      ]

  abbrev NewHonest : Option (Readings reals) → Type 0
  NewHonest none = Unit
  NewHonest (some rs) = AllHonest rs

  -- the loop over the devices does not throw
  abbrev Gathers : S (Readings reals × Bool) → Type 0
  Gathers m = Gives (λ (rs, failed). AllHonest rs) (λ e. ⊥) m

  resume-Gathers :
      (devices : List Text) (rs : Readings reals) (result : Option (Readings reals))
      → AllHonest rs
      → NewHonest result
      → ((new : Readings reals)
          → AllHonest (rs ++ new)
          → Gathers (visit_all reals sysfs selector devices (rs ++ new)))
      → Gathers (elim result [
        | none ↦ pure (rs, true)
        | some new ↦ visit_all reals sysfs selector devices (rs ++ new)
      ])
  resume-Gathers devices rs none honest p k = record { at = λ h. honest }
  resume-Gathers devices rs (some new) honest p k =
      k new (All-append (IsHonest reals sysfs) rs new honest p)

  visit_all-Gathers :
      (devices : List Text) (rs : Readings reals)
      → AllHonest rs
      → Gathers (visit_all reals sysfs selector devices rs)
  unfolding visit_all
  visit_all-Gathers [] rs honest = record { at = λ h. honest }
  visit_all-Gathers (device ∷ devices) rs honest =
      Gives-bind NewHonest (λ (rs, failed). AllHonest rs) (λ e. ⊥)
        (catch (visit reals sysfs selector device >>= λ new. pure (some new)) (λ e. pure none))
        (λ result. elim result [
          | none ↦ pure (rs, true)
          | some new ↦ visit_all reals sysfs selector devices (rs ++ new)
        ])
        (Gives-catch NewHonest Some (λ e. ⊥)
          (visit reals sysfs selector device >>= λ new. pure (some new)) (λ e. pure none)
          (Gives-bind AllHonest NewHonest Some (visit reals sysfs selector device)
            (λ new. pure (some new)) (visit-Gives device) (λ new p. record { at = λ h. p }))
          (λ e q. record { at = λ h. tt }))
        (λ result p.
          resume-Gathers devices rs result honest p
            (λ new q. visit_all-Gathers devices (rs ++ new) q))

  list_devices-Gives : Gives Some Some (list_devices reals sysfs selector)
  list_devices-Gives =
      bind-Gives Some (observe Op.list_devices sysfs.devices >>= given) _
        (bind-Gives Some (observe Op.list_devices sysfs.devices) given (observe-Gives _ _)
          (given-Gives reals sysfs))
        (λ names.
          bind-Gives Some (given (pick_devices names []))
            (λ few. pure (sort_by (λ (name : Text). name) few))
            (given-Gives reals sysfs (pick_devices names [])) (λ few. record { at = λ h. tt }))

  start-Gathers :
      (found : Option (List Text))
      → Gathers (elim found [
        | none ↦ pure ([], true)
        | some devices ↦ visit_all reals sysfs selector devices []
      ])
  start-Gathers none = record { at = λ h. tt }
  start-Gathers (some devices) = visit_all-Gathers devices [] tt

  read_devices-Gathers : Gathers (read_devices reals sysfs selector)
  unfolding read_devices
  read_devices-Gathers =
      Gives-bind Some (λ (rs, failed). AllHonest rs) (λ e. ⊥)
        (catch (list_devices reals sysfs selector >>= λ devices. pure (some devices))
          (λ e. pure none))
        (λ found. elim found [
          | none ↦ pure ([], true)
          | some devices ↦ visit_all reals sysfs selector devices []
        ])
        (Gives-catch Some Some (λ e. ⊥)
          (list_devices reals sysfs selector >>= λ devices. pure (some devices)) (λ e. pure none)
          (bind-Gives Some (list_devices reals sysfs selector) (λ devices. pure (some devices))
            list_devices-Gives (λ devices. record { at = λ h. tt }))
          (λ e q. record { at = λ h. tt }))
        (λ found p. start-Gathers found)

  -- `readSnapshot` behind its first look at the clock
  abbrev after_time : ℕ → S (Snapshot reals)
  after_time t =
      if selector.compatible == ams
      then (read_devices reals sysfs selector >>= λ result. pure (conclude reals t result))
      else pure (record {
        status = codes "unsupported";
        error = codes "unsupported SYSMON compatible";
        sampled_at = t;
        readings = [];
      })

  after_time-IsSound : (t : ℕ) → Gives IsSound (λ e. ⊥) (after_time t)
  after_time-IsSound t =
      Gives-if IsSound (λ e. ⊥) (selector.compatible == ams) _ _
        (λ same.
          Gives-bind (λ (rs, failed). AllHonest rs) IsSound (λ e. ⊥)
            (read_devices reals sysfs selector) (λ result. pure (conclude reals t result))
            read_devices-Gathers
            (λ result honest. record { at = λ h. conclude-IsSound t (result.0) (result.1) honest }))
        (λ other. record {
          at = λ h. (
            tt,
            inr (
                inr (
                  inr (
                    refl,
                    refl,
                    λ same. absurd (ground (arith, other, list_beq_iff selector.compatible ams)),
                  ))),
          );
        })

  -- `readSnapshot` never throws. Each reading has a value, the status "ok" and no error, or no value, the
  -- status "unavailable" and an error. The snapshot is "ok" with readings that all have values, sorted by
  -- their ids, and no error; or "partial" with readings and a value that is missing or an error; or
  -- "unavailable" with no readings and an error; or "unsupported" with no readings, for another
  -- compatible.
  pub read_snapshot-IsSound : Gives IsSound (λ e. ⊥) (read_snapshot reals sysfs selector)
  unfolding read_snapshot
  read_snapshot-IsSound =
      Gives-bind Some IsSound (λ e. ⊥) (observe Op.read_time sysfs.now) after_time
        (record { at = λ h. tt }) (λ t p. after_time-IsSound t)

-- ===== src/Sysmon/Snapshot/Guarded.antt =====
-- No attribute of another device is read: only a device that has named itself the monitor is sampled.
use meta_monutchee.Base.{
  Bool, Bool-cases, true, false, ◌≡◌, refl, inl, inr, Option, none, some, List, [], ◌∷◌, ◌++◌, ◌==◌,
  list_eq, nat_eq, leb, bytes_of, sort_by, if◌then◌else◌,
}
use meta_monutchee.System.Trace.{
  Ended, returned, threw, cut_off, pure, observe, catch, ◌>>=◌, >>=-elim, catch-elim,
}
use meta_monutchee.System.Trace.Rules.{
  Keeps, keeps_rules, Keeps-observe, Keeps-pure, Keeps-bind, Keeps-catch,
}
use meta_monutchee.Sysmon.World.{Text, Op, Ops, Content, Sysfs, Reals, S, read_content, given}
use meta_monutchee.Sysmon.Snapshot.{
  Selector, Readings, is_monitor, attempt_name, sample_ams, visit, visit_all, pick_devices,
  list_devices, read_devices, conclude, read_snapshot, ams,
}
use meta_monutchee.Sysmon.Sample.Guarded.{
  names_monitor, known-Keeps, given-Keeps, read_content-Keeps, goes_on, sample_device-Keeps,
  Admitted, IsGuarded, InDevice,
}

module _ (reals : Reals) (sysfs : Sysfs) (selector : Selector) where
  module _ (device : Text) where
    test_node-Keeps :
        Keeps
          (InDevice reals sysfs device)
          (observe {E = Text} (Op.test_node device) (λ h. sysfs.has_node h device))
    test_node-Keeps =
        Keeps-observe _ _ (λ h p. (goes_on reals sysfs device) (Op.test_node device) h p.1 p)

    read_compatible-Keeps :
        Keeps
          (InDevice reals sysfs device)
          (observe {E = Text} (Op.read_compatible device) (λ h. sysfs.compatible h device))
    read_compatible-Keeps =
        Keeps-observe _ _ (λ h p. (goes_on reals sysfs device) (Op.read_compatible device) h p.1 p)

    resolve_node-Keeps :
        Keeps
          (InDevice reals sysfs device)
          (observe {E = Text} (Op.resolve_node device) (λ h. sysfs.node_path h device))
    resolve_node-Keeps =
        Keeps-observe _ _ (λ h p. (goes_on reals sysfs device) (Op.resolve_node device) h p.1 p)

    sample_ams-Keeps : Keeps (InDevice reals sysfs device) (sample_ams reals sysfs selector device)
    unfolding sample_ams
    sample_ams-Keeps =
        search
          (
            keeps_rules,
            test_node-Keeps,
            (known-Keeps reals sysfs device),
            read_compatible-Keeps,
            (read_content-Keeps reals sysfs device),
            resolve_node-Keeps,
            (given-Keeps reals sysfs device),
            (sample_device-Keeps reals sysfs device),
          )
          depth 20

    -- after the name has been read
    abbrev Asked : Ended Text (Option Text) × Ops → Type 0
    Asked (returned name, h) =
        (IsGuarded reals sysfs) h × (is_monitor name ≡ true → (Admitted reals sysfs) device h)
    Asked (threw e, h) = (IsGuarded reals sysfs) h
    Asked (cut_off, h) = (IsGuarded reals sysfs) h

    abbrev AskedText : Ended Text Text × Ops → Type 0
    AskedText (returned name, h) =
        (IsGuarded reals sysfs) h
        × (is_monitor (some name) ≡ true → (Admitted reals sysfs) device h)
    AskedText (threw e, h) = (IsGuarded reals sysfs) h
    AskedText (cut_off, h) = (IsGuarded reals sysfs) h

    AskedText-if :
        (t : Bool) (m n : S Text) (h : Ops)
        → (t ≡ true → AskedText (m h))
        → (t ≡ false → AskedText (n h))
        → AskedText ((if t then m else n) h)
    AskedText-if true m n h u v = u refl
    AskedText-if false m n h u v = v refl

    read_content-Asked :
        (content : Content) (h : Ops)
        → (IsGuarded reals sysfs) h
        → (names_monitor content ≡ true → (Admitted reals sysfs) device h)
        → AskedText (read_content content h)
    unfolding read_content
    read_content-Asked Content.unreadable h guarded k = guarded
    read_content-Asked Content.broken h guarded k = guarded
    read_content-Asked (Content.holds text) h guarded k =
        AskedText-if (leb 4097 (bytes_of text)) _ _ h (λ long. guarded)
          (λ short. (guarded, λ e. k (rw short e)))

    abbrev name_of : Content → S (Option Text)
    name_of content = read_content content >>= λ name. pure (some name)

    attempt_name-Asked :
        (h : Ops) → (IsGuarded reals sysfs) h → Asked (attempt_name reals sysfs selector device h)
    attempt_name-Asked h guarded =
        catch-elim Asked Asked
          (observe (Op.read_name device) (λ h'. sysfs.name h' device) >>= name_of) (λ e. pure none)
          h
          (>>=-elim AskedText Asked (read_content (sysfs.name h device)) (λ name. pure (some name))
            (Op.read_name device ∷ h)
            (read_content-Asked (sysfs.name h device) (Op.read_name device ∷ h) (tt, guarded)
              (λ e. inl (refl, e)))
            (λ name h' p. p) (λ e h' p. p) (λ h' p. p))
          (λ name h' p. p) (λ e h' p. (p, λ none_is. absurd (cc))) (λ h' p. p)

    visit-Guards :
        (h : Ops)
        → (IsGuarded reals sysfs) h
        → (IsGuarded reals sysfs) (visit reals sysfs selector device h).1
    unfolding visit
    visit-Guards h guarded =
        >>=-elim Asked (λ r. (IsGuarded reals sysfs) r.1) (attempt_name reals sysfs selector device)
          (λ name. if is_monitor name then sample_ams reals sysfs selector device else pure []) h
          (attempt_name-Asked h guarded)
          (λ name h' p. elim (Bool-cases (is_monitor name)) [
            | inl monitor ↦ rw monitor (sample_ams-Keeps.at h' (p.0, p.1 monitor)).0
            | inr other ↦ rw other p.0
          ])
          (λ e h' p. p) (λ h' p. p)

  visit-Keeps : (device : Text) → Keeps (IsGuarded reals sysfs) (visit reals sysfs selector device)
  visit-Keeps device = record { at = visit-Guards device }

  -- a device that fails ends the loop
  attempt-Keeps :
      (device : Text)
      → Keeps
          (IsGuarded reals sysfs)
          (catch (visit reals sysfs selector device >>= λ new. pure (some new)) (λ e. pure none))
  attempt-Keeps device =
      Keeps-catch (visit reals sysfs selector device >>= λ new. pure (some new)) (λ e. pure none)
        (Keeps-bind (visit reals sysfs selector device) (λ new. pure (some new))
          (visit-Keeps device) (λ new. Keeps-pure (some new)))
        (λ e. Keeps-pure none)

  resume-Keeps :
      (m : Readings reals → S (Readings reals × Bool)) (rs : Readings reals)
      (result : Option (Readings reals))
      → ((new : Readings reals) → Keeps (IsGuarded reals sysfs) (m new))
      → Keeps (IsGuarded reals sysfs) (elim result as (λ _. S (Readings reals × Bool)) [
        | none ↦ pure (rs, true)
        | some new ↦ m new
      ])
  resume-Keeps m rs none k = search keeps_rules
  resume-Keeps m rs (some new) k = k new

  visit_all-Keeps :
      (devices : List Text) (rs : Readings reals)
      → Keeps (IsGuarded reals sysfs) (visit_all reals sysfs selector devices rs)
  unfolding visit_all
  visit_all-Keeps [] rs = search keeps_rules
  visit_all-Keeps (device ∷ devices) rs =
      Keeps-bind
        (catch (visit reals sysfs selector device >>= λ new. pure (some new)) (λ e. pure none))
        (λ result. elim result as (λ _. S (Readings reals × Bool)) [
          | none ↦ pure (rs, true)
          | some new ↦ visit_all reals sysfs selector devices (rs ++ new)
        ])
        (attempt-Keeps device)
        (λ result.
          resume-Keeps (λ new. visit_all reals sysfs selector devices (rs ++ new)) rs result
            (λ new. visit_all-Keeps devices (rs ++ new)))

  outside-Keeps : {A : Type 0} (answer : Option A) → Keeps (IsGuarded reals sysfs) (given answer)
  unfolding given
  outside-Keeps none = search keeps_rules
  outside-Keeps (some a) = search keeps_rules

  list_devices-Keeps : Keeps (IsGuarded reals sysfs) (list_devices reals sysfs selector)
  list_devices-Keeps =
      Keeps-bind (observe Op.list_devices sysfs.devices >>= given)
        (λ names.
          given (pick_devices names []) >>= λ few. pure (sort_by (λ (name : Text). name) few))
        (Keeps-bind (observe Op.list_devices sysfs.devices) given
          (Keeps-observe _ _ (λ h p. (tt, p))) outside-Keeps)
        (λ names. search (keeps_rules, outside-Keeps))

  read_devices-Keeps : Keeps (IsGuarded reals sysfs) (read_devices reals sysfs selector)
  unfolding read_devices
  read_devices-Keeps =
      Keeps-bind
        (catch (list_devices reals sysfs selector >>= λ devices. pure (some devices))
          (λ e. pure none))
        (λ found. elim found as (λ _. S (Readings reals × Bool)) [
          | none ↦ pure ([], true)
          | some devices ↦ visit_all reals sysfs selector devices []
        ])
        (search (keeps_rules, list_devices-Keeps)) begin_visits
    where
      begin_visits :
          (found : Option (List Text))
          → Keeps (IsGuarded reals sysfs) (elim found as (λ _. S (Readings reals × Bool)) [
            | none ↦ pure ([], true)
            | some devices ↦ visit_all reals sysfs selector devices []
          ])
      begin_visits none = search keeps_rules
      begin_visits (some devices) = visit_all-Keeps devices []

  -- Whatever sysfs answers: before a node, the directory or an attribute of a device other than its name is
  -- read, its name has been read and was that of the monitor.
  pub read_snapshot-IsGuarded :
      (h : Ops)
      → (IsGuarded reals sysfs) h
      → (IsGuarded reals sysfs) (read_snapshot reals sysfs selector h).1
  unfolding read_snapshot
  read_snapshot-IsGuarded h guarded = elim (Bool-cases (selector.compatible == ams)) [
    | inl same ↦ rw same (
        >>=-elim (λ r. (IsGuarded reals sysfs) r.1) (λ r. (IsGuarded reals sysfs) r.1)
          (read_devices reals sysfs selector) (λ result. pure (conclude reals (sysfs.now h) result))
          (Op.read_time ∷ h) (read_devices-Keeps.at (Op.read_time ∷ h) (tt, guarded))
          (λ result h' p. p) (λ e h' p. p) (λ h' p. p))
    | inr other ↦ rw other (tt, guarded)
  ]

-- ===== src/Sysmon/Sample/Honest.antt =====
-- A reading has a value exactly if it has no error.
use meta_monutchee.Base.{
  Bool, false, ◌≡◌, refl, ◌⊎◌, inl, inr, Option, none, some, List, [], ◌∷◌, All, codes, is_empty,
  leb, bytes_of, if◌then◌else◌,
}
use meta_monutchee.System.Trace.{pure, observe, catch, ◌>>=◌}
use meta_monutchee.System.Trace.Rules.{
  Gives, Gives-pure, Gives-throw, Gives-observe, Gives-if, Gives-catch, Gives-bind,
}
use meta_monutchee.Sysmon.World.{
  Text, Op, Ops, Content, Sysfs, Reals, S, read_content, known, given,
}
use meta_monutchee.Sysmon.Channels.{Channel, add_files}
use meta_monutchee.Sysmon.Sample.{
  Reading, to_number, number, attribute, read_offset, measure_raw, scaled, convert, measure,
  read_label, sample_value, sample_channel, sample_channels, sample_device, blank, few, with_label,
  with_value, with_error, with_time,
}

-- an exception with a message
abbrev pub IsMessage : Text → Type 0
IsMessage e = is_empty e ≡ false

abbrev Says : {A : Type 0} → S A → Type 0
Says m = Gives (λ a. Unit) IsMessage m

Says-pure : {A : Type 0} (a : A) → Says (pure a)
Says-pure a = Gives-pure (λ a. Unit) IsMessage a tt

Says-observe : {A : Type 0} (op : Op) (answer : Ops → A) → Says (observe op answer)
Says-observe op answer = Gives-observe (λ a. Unit) IsMessage op answer (λ a. tt)

Says-bind :
    {A B : Type 0} (m : S A) (f : A → S B) → Says m → ((a : A) → Says (f a)) → Says (m >>= f)
Says-bind m f u v = Gives-bind (λ a. Unit) (λ b. Unit) IsMessage m f u (λ a p. v a)

Says-if : {A : Type 0} (t : Bool) (m n : S A) → Says m → Says n → Says (if t then m else n)
Says-if t m n u v = Gives-if (λ a. Unit) IsMessage t m n (λ e. u) (λ e. v)

Says-known : (answer : Option Bool) → Says (known answer)
unfolding known
Says-known none = Gives-throw (λ a. Unit) IsMessage _ refl
Says-known (some found) = Says-pure found

Says-read_content : (content : Content) → Says (read_content content)
unfolding read_content
Says-read_content Content.unreadable = Gives-throw (λ a. Unit) IsMessage _ refl
Says-read_content Content.broken = Gives-throw (λ a. Unit) IsMessage _ refl
Says-read_content (Content.holds text) =
    Says-if (leb 4097 (bytes_of text)) _ _ (Gives-throw (λ a. Unit) IsMessage _ refl) (Says-pure _)

ruleset says_rules = (Says-pure, Says-observe, Says-bind, Says-if, Says-known, Says-read_content)

module _ (reals : Reals) (sysfs : Sysfs) where
  open reals use {Real, parse, is_finite, is_positive, thousandth, plus, times}

  to_number-Says : (x : Option Real) → Says (to_number reals sysfs x)
  unfolding to_number
  to_number-Says none = Gives-throw (λ a. Unit) IsMessage _ refl
  to_number-Says (some x) =
      Says-if (is_finite x) _ _ (Says-pure x) (Gives-throw (λ a. Unit) IsMessage _ refl)

  number-Says : (device file : Text) → Says (number reals sysfs device file)
  unfolding number
  number-Says device file = search (says_rules, to_number-Says)

  attribute-Says :
      (device : Text) (c : Channel) (suffix : Text) → Says (attribute reals sysfs device c suffix)
  unfolding attribute
  attribute-Says device c suffix = search says_rules

  read_offset-Says : (device file : Text) → Says (read_offset reals sysfs device file)
  unfolding read_offset
  read_offset-Says device file = search (says_rules, number-Says)

  scaled-Says : (raw offset scale : Real) → Says (scaled reals sysfs raw offset scale)
  unfolding scaled
  scaled-Says raw offset scale =
      Says-if (is_positive scale) _ _ (Says-pure (times (plus raw offset) scale))
        (Gives-throw (λ a. Unit) IsMessage _ refl)

  measure_raw-Says : (device : Text) (c : Channel) → Says (measure_raw reals sysfs device c)
  unfolding measure_raw
  measure_raw-Says device c =
      search (says_rules, number-Says, attribute-Says, read_offset-Says, scaled-Says) depth 14

  convert-Says : (x : Real) → Says (convert reals sysfs x)
  unfolding convert
  convert-Says x =
      Says-if (is_finite (thousandth x)) _ _ (Says-pure (thousandth x))
        (Gives-throw (λ a. Unit) IsMessage _ refl)

  measure-Says : (device : Text) (c : Channel) → Says (measure reals sysfs device c)
  unfolding measure
  measure-Says device c = search (says_rules, number-Says, measure_raw-Says, convert-Says) depth 14

  read_label-Says : (device : Text) (c : Channel) → Says (read_label reals sysfs device c)
  unfolding read_label
  read_label-Says device c = search says_rules depth 14

  -- a value and no error, or no value and an error
  abbrev pub IsHonest : Reading reals → Type 0
  IsHonest r =
      ((x : Real) × (r.value ≡ some x) × (r.status ≡ codes "ok") × (r.error ≡ []))
      ⊎ ((r.value ≡ none) × (r.status ≡ codes "unavailable") × IsMessage r.error)

  abbrev IsBlank : Reading reals → Type 0
  IsBlank r = (r.value ≡ none) × (r.status ≡ codes "unavailable") × (r.error ≡ [])

  with_error-IsHonest :
      (e : Text) (r : Reading reals)
      → IsBlank r
      → IsMessage e
      → IsHonest (with_error reals sysfs e r)
  with_error-IsHonest e r b m = inr (b.0, b.1, m)

  with_value-IsHonest :
      (x : Real) (r : Reading reals) → IsBlank r → IsHonest (with_value reals sysfs x r)
  with_value-IsHonest x r b = inl (x, refl, refl, b.2)

  sample_value-IsHonest :
      (Q : Text → Type 0) (device : Text) (c : Channel) (r : Reading reals)
      → IsBlank r
      → Gives IsHonest Q (sample_value reals sysfs device c r)
  unfolding sample_value
  sample_value-IsHonest Q device c r b =
      Gives-catch IsHonest IsMessage Q
        (measure reals sysfs device c >>= λ x. pure (with_value reals sysfs x r))
        (λ e. pure (with_error reals sysfs e r))
        (Gives-bind (λ a. Unit) IsHonest IsMessage (measure reals sysfs device c)
          (λ x. pure (with_value reals sysfs x r)) (measure-Says device c)
          (λ x p.
            Gives-pure IsHonest IsMessage (with_value reals sysfs x r) (with_value-IsHonest x r b)))
        (λ e m. Gives-pure IsHonest Q (with_error reals sysfs e r) (with_error-IsHonest e r b m))

  sample_channel-IsHonest :
      (Q : Text → Type 0) (device identity : Text) (c : Channel)
      → Gives IsHonest Q (sample_channel reals sysfs device identity c)
  unfolding sample_channel
  sample_channel-IsHonest Q device identity c =
      Gives-bind IsHonest IsHonest Q
        (catch
          (read_label reals sysfs device c >>= λ label.
            sample_value reals sysfs device c
              (with_label reals sysfs label (blank reals sysfs identity c)))
          (λ e. pure (with_error reals sysfs e (blank reals sysfs identity c))))
        (λ r. observe Op.read_time sysfs.now >>= λ t. pure (with_time reals sysfs t r))
        (Gives-catch IsHonest IsMessage Q
          (read_label reals sysfs device c >>= λ label.
            sample_value reals sysfs device c
              (with_label reals sysfs label (blank reals sysfs identity c)))
          (λ e. pure (with_error reals sysfs e (blank reals sysfs identity c)))
          (Gives-bind (λ a. Unit) IsHonest IsMessage (read_label reals sysfs device c)
            (λ label.
              sample_value reals sysfs device c
                (with_label reals sysfs label (blank reals sysfs identity c)))
            (read_label-Says device c)
            (λ label p.
              sample_value-IsHonest IsMessage device c
                (with_label reals sysfs label (blank reals sysfs identity c)) (refl, refl, refl)))
          (λ e m.
            Gives-pure IsHonest Q (with_error reals sysfs e (blank reals sysfs identity c))
              (with_error-IsHonest e (blank reals sysfs identity c) (refl, refl, refl) m)))
        (λ r honest. record { at = λ h. honest })

  sample_channels-IsHonest :
      (Q : Text → Type 0) (device identity : Text) (cs : List Channel)
      → Gives (λ rs. All IsHonest rs) Q (sample_channels reals sysfs device identity cs)
  unfolding sample_channels
  sample_channels-IsHonest Q device identity [] = record { at = λ h. tt }
  sample_channels-IsHonest Q device identity (c ∷ cs) =
      Gives-bind IsHonest (λ rs. All IsHonest rs) Q (sample_channel reals sysfs device identity c)
        (λ r. sample_channels reals sysfs device identity cs >>= λ rs. pure (r ∷ rs))
        (sample_channel-IsHonest Q device identity c)
        (λ r honest.
          Gives-bind (λ rs. All IsHonest rs) (λ rs. All IsHonest rs) Q
            (sample_channels reals sysfs device identity cs) (λ rs. pure (r ∷ rs))
            (sample_channels-IsHonest Q device identity cs)
            (λ rs all_honest. record { at = λ h. (honest, all_honest) }))

  few-Gives :
      (found : Option (List Channel)) → Gives (λ cs. Unit) (λ e. Unit) (few reals sysfs found)
  few-Gives none = record { at = λ h. tt }
  few-Gives (some cs) = record { at = λ h. tt }

  pub given-Gives : {A : Type 0} (answer : Option A) → Gives (λ a. Unit) (λ e. Unit) (given answer)
  unfolding given
  given-Gives none = record { at = λ h. tt }
  given-Gives (some a) = record { at = λ h. tt }

  pub sample_device-IsHonest :
      (device identity : Text)
      → Gives (λ rs. All IsHonest rs) (λ e. Unit) (sample_device reals sysfs device identity)
  unfolding sample_device
  sample_device-IsHonest device identity =
      Gives-bind (λ a. Unit) (λ rs. All IsHonest rs) (λ e. Unit)
        (observe (Op.list_channels device) (λ h. sysfs.files h device) >>= given)
        (λ names.
          few reals sysfs (add_files names []) >>= sample_channels reals sysfs device identity)
        (Gives-bind (λ a. Unit) (λ a. Unit) (λ e. Unit)
          (observe (Op.list_channels device) (λ h. sysfs.files h device)) given
          (record { at = λ h. tt }) (λ a p. given-Gives a))
        (λ names p.
          Gives-bind (λ a. Unit) (λ rs. All IsHonest rs) (λ e. Unit)
            (few reals sysfs (add_files names [])) (sample_channels reals sysfs device identity)
            (few-Gives (add_files names []))
            (λ cs q. sample_channels-IsHonest (λ e. Unit) device identity cs))

-- ===== src/Clock/Units/Escaped.antt =====
-- The name of an interface can be read back from the instance of a unit.
use Prim.Native.Char.{code}
use Prim.Native.String.{◌++◌ as append}
use mathlib.Core.Option.{some-injective}
use mathlib.Core.List.{append_cancel_left, append_cancel_right}
use meta_monutchee.Base.{
  ℕ, ◌+◌, ◌-◌, ◌*◌, within, false, Option, none, String, Option-cases, some, Bool-cases, true, ◌≡◌,
  refl, sym, ap, ◌∙◌, List, [], ◌∷◌, ◌++◌, codes, codes-append, nat_beq, all, inl, inr, arith,
  if◌then◌else◌, and-eq_true,
}
use meta_monutchee.System.{Result, ok, err}
use meta_monutchee.Validation.Network.{valid_interface_name, is_interface_char}
use meta_monutchee.Clock.Units.{escape, instance_unit, template_prefix}

abbrev pub hex_value : ℕ → Option ℕ
hex_value c =
    if within b'0' b'9' c
    then some (c - b'0')
    else if within b'a' b'f' c
    then some (c - b'a' + 10)
    else if within b'A' b'F' c
    then some (c - b'A' + 10)
    else none

-- between characters, behind a backslash, behind its "x", and behind the first digit
pub data Mode : Type 0 where
  plain escaped high : Mode
  low : ℕ → Mode

abbrev pub prefixed : ℕ → Option (List ℕ) → Option (List ℕ)
prefixed c none = none
prefixed c (some cs) = some (c ∷ cs)

-- What `%I` of systemd makes of an instance name: a "-" stands for "/", "\\x" and two hexadecimal digits
-- for the character of that number, and any other backslash is an error.
abbrev pub unescape : Mode → List ℕ → Option (List ℕ)
unescape plain [] = some []
unescape escaped [] = none
unescape high [] = none
unescape (low v) [] = none
unescape plain (c ∷ cs) = elim (nat_beq c b'\\') [
  | true ↦ unescape escaped cs
  | false ↦ prefixed (if nat_beq c b'-' then b'/' else c) (unescape plain cs)
]
unescape escaped (c ∷ cs) = elim (nat_beq c b'x') [ true ↦ unescape high cs | false ↦ none ]
unescape high (c ∷ cs) = elim (hex_value c) [ none ↦ none | some v ↦ unescape (low v) cs ]
unescape (low v) (c ∷ cs) = elim (hex_value c) [
  | none ↦ none
  | some w ↦ prefixed (v * 16 + w) (unescape plain cs)
]

escaped_dash :
    (rest : List ℕ) → unescape plain (codes "\\x2d" ++ rest) ≡ prefixed b'-' (unescape plain rest)
escaped_dash rest = refl

-- The escaped name of an interface, whose characters are those that interface names may have, is read
-- back as the name by systemd's unescaping.
pub unescape-escape :
    (name : String)
    → all is_interface_char (codes name) ≡ true
    → unescape plain (codes (escape name)) ≡ some (codes name)
unfolding escape
unescape-escape String.[] h = refl
unescape-escape (String.◌∷◌ c s) h =
    let (hc, hs) = and-eq_true (is_interface_char (code c)) _ h in
    elim (Bool-cases (nat_beq (code c) b'-')) [
      | inl dash ↦
          rw (dash, codes-append "\\x2d" (escape s), escaped_dash (codes (escape s)))
            (ground (arith, dash, unescape-escape s hs))
      | inr other ↦ rw other (ground (arith, other, hc, unescape-escape s hs))
    ]

abbrev codes_of : Result String → List ℕ
codes_of (ok s) = codes s
codes_of (err e) = []

joined :
    (s t : String)
    → codes (append s (append t ".service")) ≡ codes s ++ (codes t ++ codes ".service")
joined s t = rw (codes-append s (append t ".service"), codes-append t ".service") refl

-- An instance that is made is the prefix of the template, the escaped name and ".service".
instance_unit-ok :
    (unit name result : String)
    → instance_unit unit name ≡ ok result
    → (all is_interface_char (codes name) ≡ true)
      × ((prefix : String) × (template_prefix unit ≡ some prefix)
          × (codes result ≡ codes prefix ++ (codes (escape name) ++ codes ".service")))
unfolding instance_unit valid_interface_name
instance_unit-ok unit name result h = elim (Option-cases (template_prefix unit)) [
  | inl missing ↦ absurd (ground (arith, h, missing))
  | inr (prefix, has) ↦
      let same : ok (append prefix (append (escape name) ".service")) ≡ ok result =
        ground (arith, h, has) in
      (ground (arith, h), (prefix, has, sym (ap codes_of same) ∙ joined prefix (escape name)))
]

-- If two instances of one template are the same unit, then they are for the same interface.
pub instance_unit-injective :
    (unit name name' result : String)
    → instance_unit unit name ≡ ok result
    → instance_unit unit name' ≡ ok result
    → codes name ≡ codes name'
instance_unit-injective unit name name' result h h' =
    let (v, (p, t, e)) = instance_unit-ok unit name result h in
    let (v', (p', t', e')) = instance_unit-ok unit name' result h' in
    let one : p ≡ p' = some-injective p p' (sym t ∙ t') in
    let same : codes p ++ (codes (escape name) ++ codes ".service")
        ≡ codes p ++ (codes (escape name') ++ codes ".service") =
      sym e
      ∙ e'
      ∙ ap (λ (q : String). codes q ++ (codes (escape name') ++ codes ".service")) (sym one) in
    let same_text =
      append_cancel_right (codes (escape name)) (codes (escape name')) (codes ".service")
        (append_cancel_left (codes p) _ _ same) in
    some-injective (codes name) (codes name')
      (sym (unescape-escape name v) ∙ ap (unescape plain) same_text ∙ unescape-escape name' v')

-- ===== src/Logging/Journal/Json/Unescaped.antt =====
-- What `json_escape` writes is read back as the text by a reader of JSON strings.
use meta_monutchee.Base.{
  ℕ, zero, suc, ◌+◌, ◌*◌, ◌/◌, ◌%◌, ◌<◌, ◌≡◌, refl, sym, subst, ap, ◌∙◌, Bool-cases, true, false,
  ◌||◌, inl, inr, arith, Option, none, some, List, [], ◌∷◌, ◌++◌, codes, ltb, nat_beq, nat_beq_iff,
  ltb→lt, codes-append, if◌then◌else◌,
}
use mathlib.Core.List.{append_assoc}
use meta_monutchee.Base.Hex.{hex_byte, hex_digit}
use meta_monutchee.Validation.Number.{digit_value}
use meta_monutchee.Logging.Journal.Json.{escape_char, json_escape}

-- How far the reader is: between characters, behind a backslash, or behind `\u` and some of the four digits,
-- with what they write and how many are to come.
pub data Mode : Type 0 where
  plain escape closed : Mode
  digits : ℕ → ℕ → Mode

-- what a character does: the next mode, and a character of the text, or none yet
abbrev Move : Type 0
Move = Mode × Option ℕ

abbrev escaped : ℕ → Option Move
escaped c =
    if nat_beq c b'"' || nat_beq c b'\\' || nat_beq c b'/'
    then some (Mode.plain, some c)
    else if nat_beq c b'b'
    then some (Mode.plain, some 8)
    else if nat_beq c b'f'
    then some (Mode.plain, some 12)
    else if nat_beq c b'n'
    then some (Mode.plain, some 10)
    else if nat_beq c b'r'
    then some (Mode.plain, some 13)
    else if nat_beq c b't'
    then some (Mode.plain, some 9)
    else if nat_beq c b'u'
    then some (Mode.digits 0 3, none)
    else none

abbrev with_digit : ℕ → ℕ → Option ℕ → Option Move
with_digit n left none = none
with_digit n zero (some d) = some (Mode.plain, some (n * 16 + d))
with_digit n (suc left) (some d) = some (Mode.digits (n * 16 + d) left, none)

-- a step of the reader, which refuses control characters and unknown escapes
move : Mode → ℕ → Option Move
unfolding digit_value
move Mode.plain c =
    if nat_beq c b'\\'
    then some (Mode.escape, none)
    else if nat_beq c b'"'
    then some (Mode.closed, none)
    else if ltb c 32
    then none
    else some (Mode.plain, some c)
move Mode.escape c = escaped c
move (Mode.digits n left) c = with_digit n left (digit_value 16 c)
move Mode.closed c = none

abbrev push_char : Option ℕ → Option (List ℕ × List ℕ) → Option (List ℕ × List ℕ)
push_char c none = none
push_char none (some (text, rest)) = some (text, rest)
push_char (some c) (some (text, rest)) = some (c ∷ text, rest)

-- the text up to the closing quote, and what follows it
pub read_string : Mode → List ℕ → Option (List ℕ × List ℕ)
unfolding move
read_string Mode.closed rest = some ([], rest)
read_string mode [] = none
read_string mode (c ∷ cs) = elim (move mode c) [
  | none ↦ none
  | some (next, out) ↦ push_char out (read_string next cs)
]

-- a digit that is written is read
hex_digit-Reads :
    (d : ℕ) → d < 16 → (x : ℕ) × (codes (hex_digit d) ≡ x ∷ []) × (digit_value 16 x ≡ some d)
unfolding digit_value
hex_digit-Reads zero less = (b'0', refl, refl)
hex_digit-Reads (suc zero) less = (b'1', refl, refl)
hex_digit-Reads (suc (suc zero)) less = (b'2', refl, refl)
hex_digit-Reads (suc (suc (suc zero))) less = (b'3', refl, refl)
hex_digit-Reads (suc (suc (suc (suc zero)))) less = (b'4', refl, refl)
hex_digit-Reads (suc (suc (suc (suc (suc zero))))) less = (b'5', refl, refl)
hex_digit-Reads (suc (suc (suc (suc (suc (suc zero)))))) less = (b'6', refl, refl)
hex_digit-Reads (suc (suc (suc (suc (suc (suc (suc zero))))))) less = (b'7', refl, refl)
hex_digit-Reads (suc (suc (suc (suc (suc (suc (suc (suc zero)))))))) less = (b'8', refl, refl)
hex_digit-Reads (suc (suc (suc (suc (suc (suc (suc (suc (suc zero))))))))) less = (b'9', refl, refl)
hex_digit-Reads (suc (suc (suc (suc (suc (suc (suc (suc (suc (suc zero)))))))))) less =
    (b'a', refl, refl)
hex_digit-Reads (suc (suc (suc (suc (suc (suc (suc (suc (suc (suc (suc zero))))))))))) less =
    (b'b', refl, refl)
hex_digit-Reads (suc (suc (suc (suc (suc (suc (suc (suc (suc (suc (suc (suc zero)))))))))))) less =
    (b'c', refl, refl)
hex_digit-Reads (suc (suc (suc (suc (suc (suc (suc (suc (suc (suc (suc (suc (suc zero)))))))))))))
      less =
    (b'd', refl, refl)
hex_digit-Reads
      (suc (suc (suc (suc (suc (suc (suc (suc (suc (suc (suc (suc (suc (suc zero))))))))))))))
      less =
    (b'e', refl, refl)
hex_digit-Reads
      (suc (suc (suc (suc (suc (suc (suc (suc (suc (suc (suc (suc (suc (suc (suc zero)))))))))))))))
      less =
    (b'f', refl, refl)
hex_digit-Reads
      (suc
        (suc (suc (suc (suc (suc (suc (suc (suc (suc (suc (suc (suc (suc (suc (suc k))))))))))))))))
      less =
    absurd (omega arith)

push_char_none : (r : Option (List ℕ × List ℕ)) → push_char none r ≡ r
push_char_none none = refl
push_char_none (some (text, rest)) = refl

digits_step :
    (n left x d : ℕ) (cs : List ℕ)
    → digit_value 16 x ≡ some d
    → read_string (Mode.digits n (suc left)) (x ∷ cs)
      ≡ read_string (Mode.digits (n * 16 + d) left) cs
unfolding read_string move
digits_step n left x d cs e = rw (e, read_string, move) (push_char_none _)

last_digit :
    (n x d : ℕ) (cs : List ℕ)
    → digit_value 16 x ≡ some d
    → read_string (Mode.digits n 0) (x ∷ cs)
      ≡ push_char (some (n * 16 + d)) (read_string Mode.plain cs)
unfolding read_string move
last_digit n x d cs e = rw (e, read_string, move) refl

plain_step :
    (c : ℕ) (cs : List ℕ)
    → nat_beq c b'"' ≡ false
    → nat_beq c b'\\' ≡ false
    → ltb c 32 ≡ false
    → read_string Mode.plain (c ∷ cs) ≡ push_char (some c) (read_string Mode.plain cs)
unfolding read_string move
plain_step c cs quote backslash printed = rw (quote, backslash, printed, read_string, move) refl

control-Reads :
    (c : ℕ) (more : List ℕ)
    → c < 32
    → read_string (Mode.digits 0 1) (codes (hex_byte c) ++ more)
      ≡ push_char (some c) (read_string Mode.plain more)
control-Reads c more less =
    let (x, hx, dx) = hex_digit-Reads (c / 16) (omega arith) in
    let (y, hy, dy) = hex_digit-Reads (c % 16) (omega arith) in
    rw (codes-append (hex_digit (c / 16)) (hex_digit (c % 16)), hx, hy)
      (digits_step 0 0 x (c / 16) (y ∷ more) dx
        ∙ last_digit (0 * 16 + c / 16) y (c % 16) more dy
        ∙ ap (λ (v : ℕ). push_char (some v) (read_string Mode.plain more)) (omega arith))

-- The character is the numeral that it was compared with.
at_numeral : (P : ℕ → Type 0) (c n : ℕ) → nat_beq c n ≡ true → P n → P c
at_numeral P c n same p = subst P (sym ((nat_beq_iff c n).0 same)) p

abbrev Reads : List ℕ → ℕ → Type 0
Reads more c =
    read_string Mode.plain (escape_char c ++ more)
    ≡ push_char (some c) (read_string Mode.plain more)

other-Reads :
    (c : ℕ) (more : List ℕ)
    → nat_beq c b'"' ≡ false
    → nat_beq c b'\\' ≡ false
    → read_string Mode.plain (
        (if ltb c 32 then b'\\' ∷ (b'u' ∷ (b'0' ∷ (b'0' ∷ codes (hex_byte c)))) else c ∷ [])
        ++ more)
      ≡ push_char (some c) (read_string Mode.plain more)
unfolding read_string
other-Reads c more quote backslash = elim (Bool-cases (ltb c 32)) [
  | inl control ↦ rw control (
      push_char_none _
      ∙ push_char_none _
      ∙ push_char_none _
      ∙ push_char_none _
      ∙ control-Reads c more (ltb→lt c 32 control))
  | inr printed ↦ rw printed (plain_step c more quote backslash printed)
]

-- a character that stands behind a backslash
short-Reads :
    (more : List ℕ)
    → (Reads more b'"'
        × Reads more b'\\'
        × Reads more 8
        × Reads more 12
        × Reads more 10
        × Reads more 13
        × Reads more 9)
unfolding escape_char read_string
short-Reads more = (
  push_char_none _,
  push_char_none _,
  push_char_none _,
  push_char_none _,
  push_char_none _,
  push_char_none _,
  push_char_none _,
)

escape_char-Reads : (c : ℕ) (more : List ℕ) → Reads more c
unfolding escape_char
escape_char-Reads c more =
    let short = short-Reads more in
    elim (Bool-cases (nat_beq c b'"')) [
      | inl same ↦ at_numeral (Reads more) c b'"' same (short.0)
      | inr quote ↦ elim (Bool-cases (nat_beq c b'\\')) [
        | inl same ↦ at_numeral (Reads more) c b'\\' same (short.1)
        | inr backslash ↦ elim (Bool-cases (nat_beq c 8)) [
          | inl same ↦ at_numeral (Reads more) c 8 same (short.2)
          | inr backspace ↦ elim (Bool-cases (nat_beq c 12)) [
            | inl same ↦ at_numeral (Reads more) c 12 same (short.3)
            | inr feed ↦ elim (Bool-cases (nat_beq c 10)) [
              | inl same ↦ at_numeral (Reads more) c 10 same (short.4)
              | inr newline ↦ elim (Bool-cases (nat_beq c 13)) [
                | inl same ↦ at_numeral (Reads more) c 13 same (short.5)
                | inr return_char ↦ elim (Bool-cases (nat_beq c 9)) [
                  | inl same ↦ at_numeral (Reads more) c 9 same (short.6)
                  | inr tab ↦
                      rw (quote, backslash, backspace, feed, newline, return_char, tab)
                        (other-Reads c more quote backslash)
                ]
              ]
            ]
          ]
        ]
      ]
    ]

-- A reader of JSON strings that stands behind the opening quote reads the escaped text and its closing
-- quote back as the text, and what follows as the rest, whatever characters the text has.
pub read_string-json_escape :
    (cs rest : List ℕ) → read_string Mode.plain (json_escape cs ++ (b'"' ∷ rest)) ≡ some (cs, rest)
unfolding json_escape read_string
read_string-json_escape [] rest = refl
read_string-json_escape (c ∷ cs) rest = rw append_assoc (
    escape_char-Reads c (json_escape cs ++ (b'"' ∷ rest))
    ∙ rw (read_string-json_escape cs rest) refl)

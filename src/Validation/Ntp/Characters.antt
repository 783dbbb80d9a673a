-- ===== src/Validation/Ntp/Characters.antt =====
-- The characters of an accepted NTP server: nothing that could end a word or a line of a
-- configuration file.
use meta_monutchee.Base.{
  size, empty, ◌≤◌, Bool-cases, length, ℕ, ◌*◌, ◌+◌, zero, suc, Bool, true, false, ◌||◌, Option,
  none, some, List, [], ◌∷◌, String, ◌≡◌, ◌≢◌, refl, arith, nat_beq, all, is_alnum, is_digit, codes,
  inl, inr, Option-cases,
}
use meta_monutchee.Validation.Number.{split_at, read_digits, digit_value, from_chars, has_char}
use meta_monutchee.Validation.Ipv4.{octet}
use meta_monutchee.Validation.Ntp.{
  is_label_char, decimal_rounds, count_words, split_compression, ipv6_literal, valid_label,
  valid_labels, strip_final_dot, valid_ntp_server,
}

-- letters, digits, and the separators of names and addresses
abbrev pub is_server_char : ℕ → Bool
is_server_char c = is_alnum c || nat_beq c b'.' || nat_beq c b'-' || nat_beq c b':'

abbrev IsClean : List ℕ → Type 0
IsClean text = all is_server_char text ≡ true

abbrev AfterIsClean : Option (List ℕ) → Type 0
AfterIsClean none = Unit
AfterIsClean (some rest) = IsClean rest

split_at-IsClean :
    (sep : ℕ) (text : List ℕ)
    → is_server_char sep ≡ true
    → IsClean (split_at sep text).0
    → AfterIsClean (split_at sep text).1
    → IsClean text
unfolding split_at
split_at-IsClean sep [] s h k = refl
split_at-IsClean sep (x ∷ xs) s h k = ground (arith, split_at-IsClean sep xs s)

digit_value-clean : (base c : ℕ) → digit_value base c ≢ none → is_server_char c ≡ true
unfolding digit_value
digit_value-clean base c h = ground arith

read_digits-IsClean :
    (base : ℕ) (text : List ℕ) (acc : ℕ) → read_digits base text acc ≢ none → IsClean text
unfolding read_digits
read_digits-IsClean base [] acc h = refl
read_digits-IsClean base (c ∷ cs) acc h = elim (Option-cases (digit_value base c)) [
  | inl e ↦ absurd (ground arith)
  | inr (d, e) ↦
      ground (arith, digit_value-clean base c, read_digits-IsClean base cs (acc * base + d))
]

from_chars-IsClean : (base : ℕ) (text : List ℕ) → from_chars base text ≢ none → IsClean text
unfolding from_chars
from_chars-IsClean base [] h = refl
from_chars-IsClean base (c ∷ cs) h = elim (Option-cases (read_digits base (c ∷ cs) 0)) [
  | inl e ↦ absurd (ground arith)
  | inr (n, e) ↦ read_digits-IsClean base (c ∷ cs) 0 (λ q. ground arith)
]

octet-IsClean : (text : List ℕ) → octet text ≢ none → IsClean text
unfolding octet
octet-IsClean text h = elim (Option-cases (from_chars 10 text)) [
  | inl e ↦ absurd (ground arith)
  | inr (n, e) ↦ from_chars-IsClean 10 text (λ q. ground arith)
]

decimal_rounds-IsClean : (k : ℕ) (text : List ℕ) → decimal_rounds (suc k) text ≡ true → IsClean text
unfolding decimal_rounds
decimal_rounds-IsClean zero text h =
    ground (arith, octet-IsClean (split_at b'.' text).0, split_at-IsClean b'.' text refl)
decimal_rounds-IsClean (suc k) text h = elim (Option-cases (split_at b'.' text).1) [
  | inl e ↦ ground (arith, octet-IsClean (split_at b'.' text).0, split_at-IsClean b'.' text refl)
  | inr (rest, e) ↦ ground (
    arith,
    octet-IsClean (split_at b'.' text).0,
    split_at-IsClean b'.' text refl,
    decimal_rounds-IsClean k rest,
  )
]

count_words-IsClean :
    (fuel : ℕ) (text : List ℕ) (v4 : Bool) (words : ℕ)
    → count_words fuel text v4 words ≢ none
    → IsClean text
unfolding count_words
count_words-IsClean fuel [] v4 words h = refl
count_words-IsClean zero (c ∷ cs) v4 words h = absurd (h refl)
count_words-IsClean (suc fuel) (c ∷ cs) v4 words h =
    elim (Option-cases (split_at b':' (c ∷ cs)).1) [
      | inl e ↦ elim (Bool-cases (has_char b'.' (split_at b':' (c ∷ cs)).0)) [
        | inl dotted ↦ ground (
          arith,
          decimal_rounds-IsClean 3 (split_at b':' (c ∷ cs)).0,
          split_at-IsClean b':' (c ∷ cs) refl,
        )
        | inr plain ↦ ground (
          arith,
          from_chars-IsClean 16 (split_at b':' (c ∷ cs)).0,
          split_at-IsClean b':' (c ∷ cs) refl,
        )
      ]
      | inr (rest, e) ↦ ground (
        arith,
        from_chars-IsClean 16 (split_at b':' (c ∷ cs)).0,
        split_at-IsClean b':' (c ∷ cs) refl,
        count_words-IsClean fuel rest v4 (words + 1),
      )
    ]

abbrev SidesClean : List ℕ → Option (List ℕ × List ℕ) → Type 0
SidesClean text none = Unit
SidesClean text (some (left, right)) = IsClean left → IsClean right → IsClean text

split_compression-SidesClean : (text : List ℕ) → SidesClean text (split_compression text)
unfolding split_compression
split_compression-SidesClean [] = tt
split_compression-SidesClean (x ∷ []) = tt
split_compression-SidesClean (x ∷ (y ∷ rest)) =
    ground (arith, split_compression-SidesClean (y ∷ rest))

ipv6_literal-IsClean : (text : List ℕ) → ipv6_literal text ≡ true → IsClean text
unfolding ipv6_literal
ipv6_literal-IsClean text h = elim (Option-cases (split_compression text)) [
  | inl e ↦ count_words-IsClean (length text) text true 0 (λ q. ground arith)
  | inr ((left, right), e) ↦ ground (
    arith,
    split_compression-SidesClean text,
    count_words-IsClean (length left) left false 0,
    count_words-IsClean (length right) right true 0,
  )
]

valid_label-IsClean : (label : List ℕ) → valid_label label ≡ true → IsClean label
unfolding valid_label
valid_label-IsClean label h = labels label (ground arith)
  where
    labels : (cs : List ℕ) → all is_label_char cs ≡ true → IsClean cs
    labels [] k = refl
    labels (c ∷ cs) k = ground (arith, labels cs)

valid_labels-IsClean : (fuel : ℕ) (text : List ℕ) → valid_labels fuel text ≡ true → IsClean text
unfolding valid_labels
valid_labels-IsClean fuel [] h = refl
valid_labels-IsClean zero (c ∷ cs) h = absurd (ground arith)
valid_labels-IsClean (suc fuel) (c ∷ cs) h = elim (Option-cases (split_at b'.' (c ∷ cs)).1) [
  | inl e ↦
      ground
        (arith, valid_label-IsClean (split_at b'.' (c ∷ cs)).0, split_at-IsClean b'.' (c ∷ cs) refl)
  | inr (rest, e) ↦ ground (
    arith,
    valid_label-IsClean (split_at b'.' (c ∷ cs)).0,
    split_at-IsClean b'.' (c ∷ cs) refl,
    valid_labels-IsClean fuel rest,
  )
]

strip_final_dot-IsClean : (text : List ℕ) → IsClean (strip_final_dot text) → IsClean text
unfolding strip_final_dot
strip_final_dot-IsClean [] h = refl
strip_final_dot-IsClean (c ∷ []) h = ground arith
strip_final_dot-IsClean (c ∷ (d ∷ cs)) h = ground (arith, strip_final_dot-IsClean (d ∷ cs))

decimal-IsClean :
    (text : List ℕ) → all (λ c. is_digit c || nat_beq c b'.') text ≡ true → IsClean text
decimal-IsClean [] h = refl
decimal-IsClean (c ∷ cs) h = ground (arith, decimal-IsClean cs)

-- An accepted NTP server has at most 253 bytes and is not empty, and each of its characters is an
-- ASCII letter, a digit, a dot, a dash or a colon.
pub valid_ntp_server-clean :
    (server : String)
    → valid_ntp_server server ≡ true
    → (empty server ≡ false) × (size server ≤ 253) × (all is_server_char (codes server) ≡ true)
unfolding valid_ntp_server
valid_ntp_server-clean server h =
    let text = codes server in
    ground (
      arith,
      ipv6_literal-IsClean text,
      decimal-IsClean text,
      strip_final_dot-IsClean text,
      valid_labels-IsClean (length (strip_final_dot text)) (strip_final_dot text),
    )

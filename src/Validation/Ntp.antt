-- ===== src/Validation/Ntp.antt =====
-- `validNtpServer` of validation.cpp: a host name, an IPv4 or an IPv6 literal, with no port and no zone.
pub mod Characters
use meta_monutchee.Base.{
  ℕ, zero, suc, ◌+◌, Bool, true, false, ◌&&◌, ◌||◌, not, Option, none, some, List, [], ◌∷◌, String,
  ltb, leb, nat_beq, if◌then◌else◌, codes, size, empty, within, is_digit, front_is, back_is,
  is_empty, length, all, bytes_of,
}
use meta_monutchee.Validation.Number.{from_chars, split_at, has_char}
use meta_monutchee.Validation.Ipv4.{octet}

-- `decimalAddress`, with the rounds that are left: as the loop of `ipv4`, with no unicast test
unfoldable pub decimal_rounds : ℕ → List ℕ → Bool
unfolding octet split_at
decimal_rounds zero text = true
decimal_rounds (suc zero) text =
    let (part, after) = split_at b'.' text in
    elim (octet part) [ none ↦ false | some _ ↦ elim after [ none ↦ true | some _ ↦ false ] ]
decimal_rounds (suc (suc k)) text =
    let (part, after) = split_at b'.' text in
    elim (octet part) [
      | none ↦ false
      | some _ ↦ elim after [ none ↦ false | some rest ↦ decimal_rounds (suc k) rest ]
    ]

abbrev pub decimal_address : List ℕ → Bool
decimal_address = decimal_rounds 4

-- the 16-bit words of one side of an IPv6 literal: `none` where the source returns -1
abbrev is_word : List ℕ → Bool
is_word word = leb (length word) 4 && (elim (from_chars 16 word) [ none ↦ false | some _ ↦ true ])

-- `count`; a round takes at least one character, so the length of the text is fuel enough.
unfoldable pub count_words : ℕ → List ℕ → Bool → ℕ → Option ℕ
unfolding split_at
count_words fuel [] allow_v4 words = some words
count_words zero (c ∷ cs) allow_v4 words = none
count_words (suc fuel) (c ∷ cs) allow_v4 words =
    let (word, after) = split_at b':' (c ∷ cs) in
    if has_char b'.' word
    then (elim after [
      | none ↦ if allow_v4 && decimal_address word then some (words + 2) else none
      | some _ ↦ none
    ])
    else if is_word word
    then (elim after [
      | none ↦ some (words + 1)
      | some rest ↦ if is_empty rest then none else count_words fuel rest allow_v4 (words + 1)
    ])
    else none

-- the text before the first "::" and after it, where there is one
unfoldable pub split_compression : List ℕ → Option (List ℕ × List ℕ)
split_compression [] = none
split_compression (x ∷ []) = none
split_compression (x ∷ (y ∷ rest)) =
    let later = split_compression (y ∷ rest) in
    if nat_beq x b':' && nat_beq y b':'
    then some ([], rest)
    else (elim later [ none ↦ none | some (left, right) ↦ some (x ∷ left, right) ])

abbrev pub words_of : List ℕ → Bool → Option ℕ
words_of part allow_v4 = count_words (length part) part allow_v4 0

-- an IPv6 literal, including an optional dotted IPv4 tail
unfoldable pub ipv6_literal : List ℕ → Bool
unfolding count_words split_compression
ipv6_literal text = elim (split_compression text) [
  | none ↦ elim (words_of text true) [ none ↦ false | some n ↦ nat_beq n 8 ]
  | some (left, right) ↦ elim (split_compression right) [
    | some _ ↦ false
    | none ↦ elim (words_of left false) [
      | none ↦ false
      | some l ↦ elim (words_of right true) [ none ↦ false | some r ↦ ltb (l + r) 8 ]
    ]
  ]
]

abbrev pub is_label_char : ℕ → Bool
is_label_char c = within b'a' b'z' c || within b'A' b'Z' c || is_digit c || nat_beq c b'-'

unfoldable pub valid_label : List ℕ → Bool
valid_label label =
    not (is_empty label)
    && leb (bytes_of label) 63
    && not (front_is b'-' label)
    && not (back_is b'-' label)
    && all is_label_char label

-- the loop over the labels of a host name; each round takes at least one character
unfoldable pub valid_labels : ℕ → List ℕ → Bool
unfolding valid_label split_at
valid_labels fuel [] = false
valid_labels zero (c ∷ cs) = false
valid_labels (suc fuel) (c ∷ cs) =
    let (label, after) = split_at b'.' (c ∷ cs) in
    if valid_label label
    then (elim after [ none ↦ true | some rest ↦ valid_labels fuel rest ])
    else false

-- `if (text.back() == '.') text.remove_suffix(1)`
unfoldable pub strip_final_dot : List ℕ → List ℕ
strip_final_dot [] = []
strip_final_dot (c ∷ []) = if nat_beq c b'.' then [] else c ∷ []
strip_final_dot (c ∷ (d ∷ cs)) = c ∷ strip_final_dot (d ∷ cs)

abbrev pub host_name : List ℕ → Bool
host_name text = valid_labels (length text) text

-- `validNtpServer`
unfoldable pub valid_ntp_server : String → Bool
valid_ntp_server server =
    let text = codes server in
    if empty server || ltb 253 (size server)
    then false
    else if has_char b':' text
    then ipv6_literal text
    else if all (λ c. is_digit c || nat_beq c b'.') text
    then decimal_address text
    else host_name (strip_final_dot text)

-- ===== src/Validation/Number.antt =====
-- `std::from_chars` over a whole text, and `std::string_view::find` with the split around the hit.

use meta_monutchee.Base.{
  ℕ, ◌+◌, ◌-◌, ◌*◌, ◌^◌, Bool, false, ◌&&◌, ◌||◌, Option, none, some, List, [], ◌∷◌, ltb, leb,
  nat_beq, if◌then◌else◌, within, is_digit,
}

-- the value of a digit in a base up to 16, or `none`
unfoldable pub digit_value : ℕ → ℕ → Option ℕ
digit_value base c =
    if is_digit c
    then some (c - b'0')
    else if leb 16 base && within b'a' b'f' c
    then some (c - b'a' + 10)
    else if leb 16 base && within b'A' b'F' c
    then some (c - b'A' + 10)
    else none

abbrev push_digit : ℕ → ℕ → Option ℕ → Option ℕ
push_digit base acc none = none
push_digit base acc (some d) = some (acc * base + d)

abbrev pub digits_next : Option ℕ → (ℕ → Option ℕ) → Option ℕ
digits_next none f = none
digits_next (some n) f = f n

-- all characters are digits: the number that they write behind `acc`
unfoldable pub read_digits : ℕ → List ℕ → ℕ → Option ℕ
unfolding digit_value
read_digits base [] acc = some acc
read_digits base (c ∷ cs) acc =
    digits_next (push_digit base acc (digit_value base c)) (λ n. read_digits base cs n)

-- `std::from_chars` into an unsigned 32-bit integer that ends at the end of the text, `ec == errc{}`
-- and `ptr == end`: the text is not empty, holds digits only, and the number fits.
unfoldable pub from_chars : ℕ → List ℕ → Option ℕ
unfolding read_digits
from_chars base [] = none
from_chars base text =
    digits_next (read_digits base text 0) (λ n. if ltb n (2 ^ 32) then some n else none)

-- The text before the first `c`, and what follows that `c`: `none` where `find` is `npos`.
unfoldable pub split_at : ℕ → List ℕ → List ℕ × Option (List ℕ)
split_at c [] = ([], none)
split_at c (x ∷ xs) =
    let (part, rest) = split_at c xs in if nat_beq x c then ([], some xs) else (x ∷ part, rest)

-- `text.find(c) != npos`
unfoldable pub has_char : ℕ → List ℕ → Bool
has_char c [] = false
has_char c (x ∷ xs) = nat_beq x c || has_char c xs

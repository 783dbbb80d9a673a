-- ===== src/Timezones/Coordinate.antt =====
-- `coordinate` of timezone_catalog.cpp.
pub mod Bounds
use meta_monutchee.Base.{
  ℕ, ◌+◌, ◌*◌, ◌-◌, Bool, true, false, ◌&&◌, ◌||◌, not, Option, none, some, List, [], ◌∷◌, ltb, leb,
  nat_beq, take, drop, bytes_of, if◌then◌else◌, ℤ,
}
use meta_monutchee.Validation.Number.{from_chars, digits_next}

-- a number that `std::from_chars` reads of the whole text: "-0" is one too
unfoldable pub number : List ℕ → Option ℕ
unfolding from_chars
number [] = none
number (c ∷ cs) =
    if nat_beq c b'-'
    then digits_next (from_chars 10 cs) (λ n. if nat_beq n 0 then some 0 else none)
    else from_chars 10 (c ∷ cs)

abbrev pub maximum : ℕ → ℕ
maximum degrees = if nat_beq degrees 2 then 90 else 180

-- degrees, minutes and seconds in their ranges
abbrev pub in_range : ℕ → ℕ → ℕ → ℕ → Bool
in_range most d m s =
    leb d most
    && ltb m 60
    && ltb s 60
    && not (nat_beq d most && (not (nat_beq m 0) || not (nat_beq s 0)))

abbrev pub signed : Bool → ℕ → ℤ
signed negative n = if negative && not (nat_beq n 0) then ℤ.negsuc (n - 1) else ℤ.pos n

abbrev pub and_then : {A : Type 0} → Option ℕ → (ℕ → Option A) → Option A
and_then none f = none
and_then (some n) f = f n

-- the parts of a coordinate without its sign
unfoldable pub arc : ℕ → Bool → List ℕ → Option ℤ
unfolding number
arc degrees negative text =
    if nat_beq (bytes_of text) (degrees + 2) || nat_beq (bytes_of text) (degrees + 4)
    then and_then (number (take degrees text)) (λ d.
      and_then (number (take 2 (drop degrees text))) (λ m.
        and_then
          (if nat_beq (bytes_of text) (degrees + 4)
            then number (drop (degrees + 2) text)
            else some 0)
          (λ s.
            if in_range (maximum degrees) d m s
            then some (signed negative (d * 3600 + m * 60 + s))
            else none)))
    else none

unfoldable pub coordinate : ℕ → List ℕ → Option ℤ
unfolding arc
coordinate degrees [] = none
coordinate degrees (c ∷ cs) =
    if nat_beq c b'+' || nat_beq c b'-' then arc degrees (nat_beq c b'-') cs else none

-- ===== src/Timezones/Coordinate/Bounds.antt =====
-- A coordinate that is read is on the globe.
use meta_monutchee.Base.{
  ℕ, ◌+◌, ◌*◌, ◌≤◌, ◌≡◌, refl, sym, subst, arith, Bool, Bool-cases, true, false, ◌||◌, inl, inr,
  Option, none, some, List, [], ◌∷◌, nat_beq, take, drop, bytes_of, if◌then◌else◌, ℤ,
}
use meta_monutchee.Timezones.Coordinate.{
  number, maximum, in_range, signed, arc, coordinate, and_then,
}

-- the number of arc seconds without its sign
abbrev pub magnitude : ℤ → ℕ
magnitude (ℤ.pos n) = n
magnitude (ℤ.negsuc n) = n + 1

abbrev pub Within : ℕ → Option ℤ → Type 0
Within most none = Unit
Within most (some z) = magnitude z ≤ most * 3600

magnitude-signed : (negative : Bool) (n : ℕ) → magnitude (signed negative n) ≡ n
magnitude-signed true n = ground arith
magnitude-signed false n = refl

ranged-Within :
    (most d m s : ℕ) (negative : Bool)
    → Within most
        (if in_range most d m s then some (signed negative (d * 3600 + m * 60 + s)) else none)
ranged-Within most d m s negative = elim (Bool-cases (in_range most d m s)) [
  | inl good ↦ rw good (
      subst (λ (n : ℕ). n ≤ most * 3600) (sym (magnitude-signed negative (d * 3600 + m * 60 + s)))
        (ground (arith, good)))
  | inr bad ↦ rw bad tt
]

and_then-Within :
    (most : ℕ) (o : Option ℕ) (f : ℕ → Option ℤ)
    → ((n : ℕ) → Within most (f n))
    → Within most (and_then o f)
and_then-Within most none f k = tt
and_then-Within most (some n) f k = k n

arc-Within :
    (degrees : ℕ) (negative : Bool) (text : List ℕ)
    → Within (maximum degrees) (arc degrees negative text)
unfolding arc
arc-Within degrees negative text =
    elim (Bool-cases
      (nat_beq (bytes_of text) (degrees + 2) || nat_beq (bytes_of text) (degrees + 4))) [
        | inr other ↦ rw other tt
        | inl fits ↦ rw fits (
            and_then-Within (maximum degrees) (number (take degrees text)) _ (λ d.
              and_then-Within (maximum degrees) (number (take 2 (drop degrees text))) _ (λ m.
                and_then-Within (maximum degrees) _ _
                  (λ s. ranged-Within (maximum degrees) d m s negative))))
      ]

-- A latitude that is read, with two digits of degrees, is at most 90 degrees, and a longitude, with three, at
-- most 180 degrees, in either direction.
pub coordinate-Within :
    (degrees : ℕ) (text : List ℕ) → Within (maximum degrees) (coordinate degrees text)
unfolding coordinate
coordinate-Within degrees [] = tt
coordinate-Within degrees (c ∷ cs) = elim (Bool-cases (nat_beq c b'+' || nat_beq c b'-')) [
  | inl sign ↦ rw sign (arc-Within degrees (nat_beq c b'-') cs)
  | inr other ↦ rw other tt
]

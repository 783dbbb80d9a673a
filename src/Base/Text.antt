-- ===== src/Base/Text.antt =====
-- Texts. A `std::string` is the sequence of its Unicode characters; `size` counts its bytes in UTF-8.
use Prim.Native.Nat.{ℕ, zero, suc, ◌+◌, ◌≤◌, ◌/◌, ◌%◌}
use Prim.Native.Char.{code}
use Prim.Native.String.{String, ◌++◌ as append}
use mathlib.Core.Bool.{Bool, true, false, ◌&&◌, ◌||◌}
use mathlib.Core.List.{List, [], ◌∷◌, ◌++◌}
use mathlib.Core.Path.{◌≡◌, refl, ap, ◌∙◌}
use native.Mathlib.Omega.{arith}
use text.Mathlib.TextLemmas.{nil-append, cons-append}
use meta_monutchee.Base.Lists.{all}
use meta_monutchee.Base.Tests.{leb, ltb, nat_beq, if◌then◌else◌}

-- the code points: the bytes, where the text is ASCII
abbrev pub codes : String → List ℕ
codes String.[] = []
codes (String.◌∷◌ c s) = code c ∷ codes s

-- bytes of one character in UTF-8
abbrev pub utf8_len : ℕ → ℕ
utf8_len c = if ltb c 128 then 1 else if ltb c 2048 then 2 else if ltb c 65536 then 3 else 4

abbrev pub bytes_of : List ℕ → ℕ
bytes_of [] = 0
bytes_of (c ∷ cs) = utf8_len c + bytes_of cs

-- `std::string::size`
abbrev pub size : String → ℕ
size s = bytes_of (codes s)

-- `std::string::empty`
abbrev pub empty : String → Bool
empty String.[] = true
empty (String.◌∷◌ c s) = false

abbrev pub within : ℕ → ℕ → ℕ → Bool
within lo hi c = leb lo c && leb c hi

abbrev pub is_digit : ℕ → Bool
is_digit = within b'0' b'9'

-- `std::isalnum` in the "C" locale: no byte above 127 is alphanumeric
abbrev pub is_alnum : ℕ → Bool
is_alnum c = within b'a' b'z' c || within b'A' b'Z' c || is_digit c

-- `front() == c` and `back() == c` of a text that is not empty; false where it is empty
abbrev pub front_is : ℕ → List ℕ → Bool
front_is c [] = false
front_is c (x ∷ xs) = nat_beq x c

abbrev pub back_is : ℕ → List ℕ → Bool
back_is c [] = false
back_is c (x ∷ []) = nat_beq x c
back_is c (x ∷ (y ∷ ys)) = back_is c (y ∷ ys)

-- `std::to_string` of an unsigned number. Twenty digits write every 64-bit number.
abbrev digit_text : ℕ → String
digit_text zero = "0"
digit_text (suc zero) = "1"
digit_text (suc (suc zero)) = "2"
digit_text (suc (suc (suc zero))) = "3"
digit_text (suc (suc (suc (suc zero)))) = "4"
digit_text (suc (suc (suc (suc (suc zero))))) = "5"
digit_text (suc (suc (suc (suc (suc (suc zero)))))) = "6"
digit_text (suc (suc (suc (suc (suc (suc (suc zero))))))) = "7"
digit_text (suc (suc (suc (suc (suc (suc (suc (suc zero)))))))) = "8"
digit_text _ = "9"

decimal : ℕ → ℕ → String → String
decimal zero n acc = acc
decimal (suc fuel) n acc =
    let rest = decimal fuel (n / 10) (append (digit_text (n % 10)) acc) in
    if ltb n 10 then append (digit_text (n % 10)) acc else rest

unfoldable pub to_string : ℕ → String
unfolding decimal
to_string n = decimal 20 n ""

-- A number is written with digits only, twenty at most.
digit_text-IsDigit :
    (d : ℕ) → (bytes_of (codes (digit_text d)) ≡ 1) × (all is_digit (codes (digit_text d)) ≡ true)
digit_text-IsDigit zero = (refl, refl)
digit_text-IsDigit (suc zero) = (refl, refl)
digit_text-IsDigit (suc (suc zero)) = (refl, refl)
digit_text-IsDigit (suc (suc (suc zero))) = (refl, refl)
digit_text-IsDigit (suc (suc (suc (suc zero)))) = (refl, refl)
digit_text-IsDigit (suc (suc (suc (suc (suc zero))))) = (refl, refl)
digit_text-IsDigit (suc (suc (suc (suc (suc (suc zero)))))) = (refl, refl)
digit_text-IsDigit (suc (suc (suc (suc (suc (suc (suc zero))))))) = (refl, refl)
digit_text-IsDigit (suc (suc (suc (suc (suc (suc (suc (suc zero)))))))) = (refl, refl)
digit_text-IsDigit _ = (refl, refl)

pub codes-append : (s t : String) → codes (append s t) ≡ codes s ++ codes t
codes-append String.[] t = ap codes (nil-append t)
codes-append (String.◌∷◌ c s) t =
    ap codes (cons-append c s t) ∙ ap (λ (r : List ℕ). code c ∷ r) (codes-append s t)

pub bytes_of-append : (xs ys : List ℕ) → bytes_of (xs ++ ys) ≡ bytes_of xs + bytes_of ys
bytes_of-append [] ys = omega arith
bytes_of-append (x ∷ xs) ys = omega (arith, bytes_of-append xs ys)

pub all-append : (p : ℕ → Bool) (xs ys : List ℕ) → all p (xs ++ ys) ≡ (all p xs && all p ys)
all-append p [] ys = refl
all-append p (x ∷ xs) ys = ground (arith, all-append p xs ys)

decimal-IsDigit :
    (fuel n : ℕ) (acc : String)
    → all is_digit (codes acc) ≡ true
    → (size (decimal fuel n acc) ≤ fuel + size acc)
      × (all is_digit (codes (decimal fuel n acc)) ≡ true)
unfolding decimal
decimal-IsDigit zero n acc h = (omega arith, h)
decimal-IsDigit (suc fuel) n acc h =
    let d = digit_text (n % 10) in
    let facts = digit_text-IsDigit (n % 10) in
    let joined = codes-append d acc in
    let bytes = bytes_of-append (codes d) (codes acc) in
    let digits = all-append is_digit (codes d) (codes acc) in
    let one : size (append d acc) ≡ 1 + size acc = rw joined (omega (arith, bytes, facts.0)) in
    let ok : all is_digit (codes (append d acc)) ≡ true = rw (joined, digits, facts.1) h in
    ground (arith, one, ok, decimal-IsDigit fuel (n / 10) (append d acc) ok)

pub to_string-IsDigit :
    (n : ℕ) → (size (to_string n) ≤ 20) × (all is_digit (codes (to_string n)) ≡ true)
unfolding to_string
to_string-IsDigit n = decimal-IsDigit 20 n "" refl

pub empty-append : (s t : String) → empty s ≡ false → empty (append s t) ≡ false
empty-append String.[] t h = absurd (cc)
empty-append (String.◌∷◌ c s) t h = ap empty (cons-append c s t)

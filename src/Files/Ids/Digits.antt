-- ===== src/Files/Ids/Digits.antt =====
-- What random ids and hashes are made of.
use Prim.Native.String.{◌++◌ as append}
use meta_monutchee.Base.{
  ℕ, zero, suc, ◌+◌, ◌-◌, ◌/◌, ◌%◌, ◌≤◌, ◌≡◌, refl, subst, Bool, Bool-cases, true, inl, inr, arith,
  String, size, codes, codes-append, bytes_of-append, all-append, all, is_digit, within, ◌||◌, List,
  [], ◌∷◌, ◌++◌, length, length-append, ltb,
}
use meta_monutchee.Base.Hex.{hex_digit, hex_byte}
use meta_monutchee.System.Trace.{Returns, >>=-elim, pure}
use meta_monutchee.Files.Kernel.{Op, Ops, Kernel, Drawn, F}
use meta_monutchee.Files.Ids.{hex_text, add_drawn, draw_bytes, random_id}

abbrev pub is_hex : ℕ → Bool
is_hex c = is_digit c || within b'a' b'f' c

-- a text of `n` digits of base 16, in lower case
abbrev pub IsHex : ℕ → String → Type 0
IsHex n s = (size s ≡ n) × (all is_hex (codes s) ≡ true)

hex_digit-IsHex : (d : ℕ) → IsHex 1 (hex_digit d)
hex_digit-IsHex zero = (refl, refl)
hex_digit-IsHex (suc zero) = (refl, refl)
hex_digit-IsHex (suc (suc zero)) = (refl, refl)
hex_digit-IsHex (suc (suc (suc zero))) = (refl, refl)
hex_digit-IsHex (suc (suc (suc (suc zero)))) = (refl, refl)
hex_digit-IsHex (suc (suc (suc (suc (suc zero))))) = (refl, refl)
hex_digit-IsHex (suc (suc (suc (suc (suc (suc zero)))))) = (refl, refl)
hex_digit-IsHex (suc (suc (suc (suc (suc (suc (suc zero))))))) = (refl, refl)
hex_digit-IsHex (suc (suc (suc (suc (suc (suc (suc (suc zero)))))))) = (refl, refl)
hex_digit-IsHex (suc (suc (suc (suc (suc (suc (suc (suc (suc zero))))))))) = (refl, refl)
hex_digit-IsHex (suc (suc (suc (suc (suc (suc (suc (suc (suc (suc zero)))))))))) = (refl, refl)
hex_digit-IsHex (suc (suc (suc (suc (suc (suc (suc (suc (suc (suc (suc zero))))))))))) =
    (refl, refl)
hex_digit-IsHex (suc (suc (suc (suc (suc (suc (suc (suc (suc (suc (suc (suc zero)))))))))))) =
    (refl, refl)
hex_digit-IsHex (suc (suc (suc (suc (suc (suc (suc (suc (suc (suc (suc (suc (suc zero))))))))))))) =
    (refl, refl)
hex_digit-IsHex
      (suc (suc (suc (suc (suc (suc (suc (suc (suc (suc (suc (suc (suc (suc zero)))))))))))))) =
    (refl, refl)
hex_digit-IsHex _ = (refl, refl)

append-IsHex : (m n : ℕ) (s t : String) → IsHex m s → IsHex n t → IsHex (m + n) (append s t)
append-IsHex m n s t hs ht = (
  rw (codes-append s t, bytes_of-append (codes s) (codes t)) (omega (arith, hs.0, ht.0)),
  rw (codes-append s t, all-append is_hex (codes s) (codes t), hs.1, ht.1) refl,
)

pub hex_text-IsHex : (bytes : List ℕ) → IsHex (length bytes + length bytes) (hex_text bytes)
unfolding hex_text
hex_text-IsHex [] = (refl, refl)
hex_text-IsHex (b ∷ bs) =
    let high = hex_digit-IsHex (b / 16) in
    let low = hex_digit-IsHex (b % 16) in
    subst (λ n. IsHex n (hex_text (b ∷ bs))) (omega arith)
      (append-IsHex (1 + 1) (length bs + length bs) (hex_byte b) (hex_text bs)
        (append-IsHex 1 1 (hex_digit (b / 16)) (hex_digit (b % 16)) high low) (hex_text-IsHex bs))

module _ (kernel : Kernel)
    (asked : (h : Ops) (n : ℕ) (bytes : List ℕ)
      → kernel.drawn h n ≡ Drawn.drew bytes
      → length bytes ≤ n) where
  -- sixteen bytes were drawn
  abbrev IsWhole : List ℕ → Type 0
  IsWhole bytes = length bytes ≡ 16

  add_drawn-length :
      (bytes : List ℕ) (again : List ℕ → F (List ℕ)) (h : Ops) (answer : Drawn)
      → length bytes ≤ 16
      → ((more : List ℕ) → answer ≡ Drawn.drew more → length more ≤ 16 - length bytes)
      → ((more : List ℕ) → length more ≤ 16 → Returns IsWhole (again more h))
      → Returns IsWhole (add_drawn kernel bytes again answer h)
  unfolding add_drawn
  add_drawn-length bytes again h Drawn.interrupted fits k rest = rest bytes fits
  add_drawn-length bytes again h Drawn.failed fits k rest = tt
  add_drawn-length bytes again h (Drawn.drew []) fits k rest = tt
  add_drawn-length bytes again h (Drawn.drew (b ∷ more)) fits k rest =
      rest (bytes ++ (b ∷ more))
        (omega (arith, length-append bytes (b ∷ more), k (b ∷ more) refl, fits))

  draw_bytes-length :
      (fuel : ℕ) (bytes : List ℕ) (h : Ops)
      → length bytes ≤ 16
      → Returns IsWhole (draw_bytes kernel fuel bytes h)
  unfolding draw_bytes
  draw_bytes-length zero bytes h fits = elim (Bool-cases (ltb (length bytes) 16)) [
    | inl less ↦ rw less tt
    | inr full ↦ rw full (ground arith)
  ]
  draw_bytes-length (suc fuel) bytes h fits = elim (Bool-cases (ltb (length bytes) 16)) [
    | inl less ↦ rw less (
        add_drawn-length bytes (draw_bytes kernel fuel) (Op.draw (16 - length bytes) ∷ h)
          (kernel.drawn h (16 - length bytes)) fits (asked h (16 - length bytes))
          (λ more k. draw_bytes-length fuel more (Op.draw (16 - length bytes) ∷ h) k))
    | inr full ↦ rw full (ground arith)
  ]

  -- If `getrandom` gives at most as many bytes as it is asked for, a random id that is returned has 32
  -- characters, all of them hexadecimal digits in lower case.
  pub random_id-IsHex : (fuel : ℕ) (h : Ops) → Returns (IsHex 32) (random_id kernel fuel h)
  unfolding random_id
  random_id-IsHex fuel h =
      >>=-elim (Returns IsWhole) (Returns (IsHex 32)) (draw_bytes kernel fuel [])
        (λ bytes. pure (hex_text bytes)) h (draw_bytes-length fuel [] h (omega arith))
        (λ bytes h' whole.
          subst (λ n. IsHex n (hex_text bytes)) (omega (arith, whole)) (hex_text-IsHex bytes))
        (λ e h' s. tt) (λ h' s. tt)

-- ===== src/Validation/Ipv4/Bounds.antt =====
-- An accepted IPv4 address fits 32 bits and is a unicast address.
use meta_monutchee.Base.{
  ℕ, zero, suc, ◌+◌, ◌*◌, ◌%◌, ◌/◌, ◌^◌, ◌<◌, ◌≤◌, ◌≡◌, ◌≢◌, String, List, arith, some,
  Option-cases, inl, inr, codes,
}
use meta_monutchee.System.{ok, Result-cases}
use meta_monutchee.Validation.Number.{split_at, from_chars}
use meta_monutchee.Validation.Ipv4.{octet, ipv4_rounds, ipv4, is_unicast}

octet-bounded : (part : List ℕ) (n : ℕ) → octet part ≡ some n → n ≤ 255
unfolding octet
octet-bounded part n h = elim (Option-cases (from_chars 10 part)) [
  | inl e ↦ absurd (ground arith)
  | inr (m, e) ↦ ground arith
]

shifted-bounded : (r n : ℕ) → n ≤ 255 → (r * 256) % 2 ^ 32 + n < 2 ^ 32
shifted-bounded r n h = omega (arith, h)

ipv4_rounds-bounded :
    (k : ℕ) (rest : List ℕ) (r n : ℕ) → r < 2 ^ 32 → ipv4_rounds k rest r ≡ ok n → n < 2 ^ 32
unfolding ipv4_rounds
ipv4_rounds-bounded zero rest r n b h = ground arith
ipv4_rounds-bounded (suc zero) rest r n b h = elim (Option-cases (octet (split_at b'.' rest).0)) [
  | inl e ↦ absurd (ground arith)
  | inr (m, e) ↦ ground (arith, octet-bounded (split_at b'.' rest).0 m e, shifted-bounded r m)
]
ipv4_rounds-bounded (suc (suc k)) rest r n b h =
    elim (Option-cases (octet (split_at b'.' rest).0)) [
      | inl e ↦ absurd (ground arith)
      | inr (m, e) ↦ elim (Option-cases (split_at b'.' rest).1) [
        | inl last ↦ absurd (ground arith)
        | inr (rest', more) ↦
            ipv4_rounds-bounded (suc k) rest' ((r * 256) % 2 ^ 32 + m) n
              (shifted-bounded r m (octet-bounded (split_at b'.' rest).0 m e)) (ground arith)
      ]
    ]

-- The number of an accepted address fits 32 bits, and its first octet is that of a unicast address,
-- from 1 to 223 and not 127.
pub ipv4-bounds :
    (text : String) (n : ℕ)
    → ipv4 text ≡ ok n
    → (n < 2 ^ 32) × (1 ≤ n / 2 ^ 24) × (n / 2 ^ 24 ≤ 223) × (n / 2 ^ 24 ≢ 127)
unfolding ipv4 is_unicast
ipv4-bounds text n h = elim (Result-cases (ipv4_rounds 4 (codes text) 0)) [
  | inl (m, e) ↦
      let b = ipv4_rounds-bounded 4 (codes text) 0 m (omega arith) e in
      (ground arith, ground arith, ground arith, ground arith)
  | inr (x, e) ↦ absurd (ground arith)
]

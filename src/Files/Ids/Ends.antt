-- ===== src/Files/Ids/Ends.antt =====
-- The loop of `randomId` ends.
use meta_monutchee.Base.{
  ℕ, zero, suc, ◌+◌, ◌-◌, ◌≤◌, ◌<◌, ◌≢◌, refl, Bool-cases, inl, inr, arith, List, [], ◌∷◌, ◌++◌,
  length, length-append, ltb, ltb→lt, dec_lt,
}
use meta_monutchee.System.Trace.{IsOver, >>=-elim, pure}
use meta_monutchee.Files.Kernel.{Op, Ops, Kernel, Drawn, F}
use meta_monutchee.Files.Ids.{hex_text, add_drawn, draw_bytes, random_id}

-- a draw is interrupted only among the first `n` calls
abbrev pub DrawsOn : Kernel → ℕ → Type 0
DrawsOn kernel n = (h : Ops) (k : ℕ) → n ≤ length h → kernel.drawn h k ≢ Drawn.interrupted

module _ (kernel : Kernel) (n : ℕ) (calm : DrawsOn kernel n) where
  add_drawn-IsOver :
      (fuel : ℕ) (bytes : List ℕ) (again : List ℕ → F (List ℕ)) (h : Ops) (answer : Drawn)
      → length bytes < 16
      → (n - length h) + (16 - length bytes) ≤ fuel
      → (n ≤ length h → answer ≢ Drawn.interrupted)
      → ((more : List ℕ)
          → (n - suc (length h)) + (16 - length more) < fuel
          → IsOver (again more (Op.draw (16 - length bytes) ∷ h)))
      → IsOver (add_drawn kernel bytes again answer (Op.draw (16 - length bytes) ∷ h))
  unfolding add_drawn
  add_drawn-IsOver fuel bytes again h Drawn.interrupted less enough k rest =
      elim (dec_lt (length h) n) [
        | yes early ↦ rest bytes (omega arith)
        | no late ↦ absurd (k (omega (arith, late)) refl)
      ]
  add_drawn-IsOver fuel bytes again h Drawn.failed less enough k rest = tt
  add_drawn-IsOver fuel bytes again h (Drawn.drew []) less enough k rest = tt
  add_drawn-IsOver fuel bytes again h (Drawn.drew (b ∷ more)) less enough k rest =
      rest (bytes ++ (b ∷ more)) (omega (arith, length-append bytes (b ∷ more)))

  draw_bytes-IsOver :
      (fuel : ℕ) (bytes : List ℕ) (h : Ops)
      → (n - length h) + (16 - length bytes) < fuel
      → IsOver (draw_bytes kernel fuel bytes h)
  unfolding draw_bytes
  draw_bytes-IsOver zero bytes h enough = absurd (omega arith)
  draw_bytes-IsOver (suc fuel) bytes h enough = elim (Bool-cases (ltb (length bytes) 16)) [
    | inl less ↦ rw less (
        add_drawn-IsOver fuel bytes (draw_bytes kernel fuel) h (kernel.drawn h (16 - length bytes))
          (ltb→lt (length bytes) 16 less) (omega arith) (calm h (16 - length bytes))
          (λ more k. draw_bytes-IsOver fuel more (Op.draw (16 - length bytes) ∷ h) k))
    | inr full ↦ rw full tt
  ]

  -- If no draw is interrupted once there have been `n` calls, then a random id is returned or refused:
  -- fuel above `n + 16` is enough.
  pub random_id-IsOver : (fuel : ℕ) (h : Ops) → n + 16 < fuel → IsOver (random_id kernel fuel h)
  unfolding random_id
  random_id-IsOver fuel h enough =
      >>=-elim IsOver IsOver (draw_bytes kernel fuel []) (λ bytes. pure (hex_text bytes)) h
        (draw_bytes-IsOver fuel [] h (omega arith)) (λ bytes h' s. tt) (λ e h' s. tt)
        (λ h' s. absurd s)

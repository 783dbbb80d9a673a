-- ===== src/Files/Ids.antt =====
-- `randomId` and `fileHash` of daemon/storage.cpp: bytes as hexadecimal digits.
pub mod Digits
pub mod Ends
use Prim.Native.String.{◌++◌ as append}
use meta_monutchee.Base.{
  ℕ, zero, suc, ◌+◌, ◌-◌, ◌/◌, ◌%◌, String, Bool, List, [], ◌∷◌, ◌++◌, length, ltb, if◌then◌else◌,
}
use meta_monutchee.Base.Hex.{hex_byte}
use meta_monutchee.System.{ErrorCode}
use meta_monutchee.System.Trace.{pure, throw, running, observe, ◌>>=◌, ◌>>◌}
use meta_monutchee.Files.Kernel.{Op, Kernel, Drawn, F, refuse, failure}

unfoldable pub hex_text : List ℕ → String
hex_text [] = ""
hex_text (b ∷ bs) = append (hex_byte b) (hex_text bs)

module _ (kernel : Kernel) where
  -- what follows an answer of `getrandom` in the loop
  unfoldable pub add_drawn : List ℕ → (List ℕ → F (List ℕ)) → Drawn → F (List ℕ)
  add_drawn bytes again Drawn.interrupted = again bytes
  add_drawn bytes again Drawn.failed = refuse kernel "random ID"
  add_drawn bytes again (Drawn.drew []) = refuse kernel "random ID"
  add_drawn bytes again (Drawn.drew (b ∷ more)) = again (bytes ++ (b ∷ more))

  -- the loop, with the bytes so far
  unfoldable pub draw_bytes : ℕ → List ℕ → F (List ℕ)
  unfolding add_drawn
  draw_bytes zero bytes = if ltb (length bytes) 16 then running else pure bytes
  draw_bytes (suc fuel) bytes =
      let round =
        observe (Op.draw (16 - length bytes)) (λ h. kernel.drawn h (16 - length bytes))
        >>= add_drawn bytes (draw_bytes fuel) in
      if ltb (length bytes) 16 then round else pure bytes

  unfoldable pub random_id : ℕ → F String
  unfolding draw_bytes hex_text
  random_id fuel = draw_bytes fuel [] >>= λ bytes. pure (hex_text bytes)

-- ===== src/Files/Write/Replaced.antt =====
-- `atomicWrite` as a whole: the target is replaced by a whole file that is on the disk, or not at all.
use Prim.Native.String.{◌++◌ as append}
use meta_monutchee.Base.{
  ℕ, zero, suc, ◌-◌, refl, Bool-cases, inl, inr, String, List, [], ◌∷◌, ◌++◌, Option, length, ltb,
}
use meta_monutchee.System.Trace.{pure, observe, ◌>>=◌, ◌>>◌, >>=-elim}
use meta_monutchee.Files.Kernel.{Op, Ops, Kernel, Drawn, F, io}
use meta_monutchee.Files.Ids.{hex_text, add_drawn, draw_bytes, random_id}
use meta_monutchee.Files.Write.{write_file, atomic_write}
use meta_monutchee.Files.Write.Durable.{IsKept, Wrote, write_file-Wrote}

module _ (kernel : Kernel) where
  -- a predicate on the calls that a draw keeps is kept by the loop
  module _ (P : Ops → Type 0) (keep : (n : ℕ) (h : Ops) → P h → P (Op.draw n ∷ h)) where
    add_drawn-Keeps :
        (bytes : List ℕ) (again : List ℕ → F (List ℕ)) (h : Ops) (answer : Drawn)
        → P h
        → ((more : List ℕ) → P (again more h).1)
        → P (add_drawn kernel bytes again answer h).1
    unfolding add_drawn
    add_drawn-Keeps bytes again h Drawn.interrupted p k = k bytes
    add_drawn-Keeps bytes again h Drawn.failed p k = p
    add_drawn-Keeps bytes again h (Drawn.drew []) p k = p
    add_drawn-Keeps bytes again h (Drawn.drew (b ∷ more)) p k = k (bytes ++ (b ∷ more))

    draw_bytes-Keeps :
        (fuel : ℕ) (bytes : List ℕ) (h : Ops) → P h → P (draw_bytes kernel fuel bytes h).1
    unfolding draw_bytes
    draw_bytes-Keeps zero bytes h p = elim (Bool-cases (ltb (length bytes) 16)) [
      | inl less ↦ rw less p
      | inr full ↦ rw full p
    ]
    draw_bytes-Keeps (suc fuel) bytes h p = elim (Bool-cases (ltb (length bytes) 16)) [
      | inl less ↦ rw less (
          let next : Ops = Op.draw (16 - length bytes) ∷ h in
          let p' = keep (16 - length bytes) h p in
          add_drawn-Keeps bytes (draw_bytes kernel fuel) next (kernel.drawn h (16 - length bytes))
            p' (λ more. draw_bytes-Keeps fuel more next p'))
      | inr full ↦ rw full p
    ]

    random_id-Keeps : (fuel : ℕ) (h : Ops) → P h → P (random_id kernel fuel h).1
    unfolding random_id
    random_id-Keeps fuel h p =
        >>=-elim (λ r. P r.1) (λ r. P r.1) (draw_bytes kernel fuel [])
          (λ bytes. pure (hex_text bytes)) h (draw_bytes-Keeps fuel [] h p) (λ bytes h' s. s)
          (λ e h' s. s) (λ h' s. s)

  module _ (before old : Option (List ℕ)) (value : List ℕ) (path : String) (fuel : ℕ) where
    -- what follows the choice of a name
    abbrev after_id : String → F (Unit {0})
    after_id id = do
      let tmp = append path (append "." (append id ".tmp"))
      created ← observe (Op.create_file tmp) kernel.creates
      io kernel created "create state file"
      write_file kernel fuel tmp value

    after_id-Wrote :
        (id : String) (h : Ops)
        → IsKept kernel before old h
        → Wrote kernel before old value (after_id id h)
    after_id-Wrote id h kept =
        let tmp = append path (append "." (append id ".tmp")) in
        elim (Bool-cases (kernel.creates h)) [
          | inl done ↦ rw done (
              write_file-Wrote kernel before old value tmp fuel (Op.create_file tmp ∷ h) refl
                (kept.0, rw done refl))
          | inr failed ↦ rw failed (inl (kept.0, inl (rw failed kept.1)))
        ]

    named-Wrote :
        (h : Ops)
        → IsKept kernel before old h
        → Wrote kernel before old value ((random_id kernel fuel >>= after_id) h)
    named-Wrote h kept =
        >>=-elim (λ r. IsKept kernel before old r.1) (Wrote kernel before old value)
          (random_id kernel fuel) after_id h
          (random_id-Keeps (IsKept kernel before old) (λ n h' k. k) fuel h kept)
          (λ id h' k. after_id-Wrote id h' k) (λ e h' k. inl (k.0, inl k.1)) (λ h' k. k.0)

    -- From a history that left no temporary file: if `atomicWrite` returns, the target is the file that was
    -- written under the temporary name, it holds the value, the whole of it was on the disk before the
    -- rename, the directory is on the disk too, and no temporary file is left. If it throws, the target
    -- is the old one, and the temporary file is gone, unless the last call was to remove it under its
    -- name and failed; or the target is the new one, no temporary file is left, and only the directory
    -- could not be synchronised.
    pub atomic_write-Wrote :
        (h : Ops)
        → IsKept kernel before old h
        → Wrote kernel before old value (atomic_write kernel fuel path value h)
    unfolding atomic_write
    atomic_write-Wrote h kept = elim (Bool-cases (kernel.creates_directories h)) [
      | inl done ↦ rw done (named-Wrote (Op.create_directories ∷ h) kept)
      | inr failed ↦ rw failed (inl (kept.0, inl kept.1))
    ]

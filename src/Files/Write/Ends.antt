-- ===== src/Files/Write/Ends.antt =====
-- The loops of `atomicWrite` end.
use Prim.Native.String.{◌++◌ as append}
use meta_monutchee.Base.{
  ℕ, zero, suc, ◌+◌, ◌-◌, ◌≤◌, ◌<◌, ◌≢◌, refl, Bool, Bool-cases, true, false, inl, inr, arith,
  String, List, [], ◌∷◌, drop, length, length-drop-le, dec_lt,
}
use meta_monutchee.System.{SystemError}
use meta_monutchee.System.Trace.{IsOver, observe, catch, ◌>>=◌, ◌>>◌, >>=-elim, catch-elim}
use meta_monutchee.Files.Kernel.{Op, Ops, Kernel, Written, F, io}
use meta_monutchee.Files.Ids.{random_id}
use meta_monutchee.Files.Ids.Ends.{DrawsOn, random_id-IsOver}
use meta_monutchee.Files.Write.{
  advance, write_bytes, fill, put_in_place, sync_directory, give_up, write_file, atomic_write,
}

-- a write is interrupted only among the first `n` calls
abbrev pub WritesOn : Kernel → ℕ → Type 0
WritesOn kernel n =
    (h : Ops) (bytes : List ℕ) → n ≤ length h → kernel.written h bytes ≢ Written.interrupted

module _ (kernel : Kernel) (n : ℕ) (calm : WritesOn kernel n) where
  advance-IsOver :
      (fuel : ℕ) (rest : List ℕ) (again : List ℕ → F (Unit {0})) (h : Ops) (answer : Written)
      → rest ≢ []
      → (n - length h) + length rest ≤ fuel
      → (n ≤ length h → answer ≢ Written.interrupted)
      → ((more : List ℕ)
          → (n - suc (length h)) + length more < fuel
          → IsOver (again more (Op.write rest ∷ h)))
      → IsOver (advance kernel rest again answer (Op.write rest ∷ h))
  unfolding advance
  advance-IsOver fuel rest again h Written.interrupted some_left enough k go_on =
      elim (dec_lt (length h) n) [
        | yes early ↦ go_on rest (omega arith)
        | no late ↦ absurd (k (omega (arith, late)) refl)
      ]
  advance-IsOver fuel rest again h Written.failed some_left enough k go_on = tt
  advance-IsOver fuel rest again h (Written.wrote zero) some_left enough k go_on = tt
  advance-IsOver fuel [] again h (Written.wrote (suc m)) some_left enough k go_on =
      absurd (some_left refl)
  advance-IsOver fuel (b ∷ bs) again h (Written.wrote (suc m)) some_left enough k go_on =
      go_on (drop m bs) (omega (arith, length-drop-le m bs))

  write_bytes-IsOver :
      (fuel : ℕ) (rest : List ℕ) (h : Ops)
      → (n - length h) + length rest < fuel
      → IsOver (write_bytes kernel fuel rest h)
  unfolding write_bytes
  write_bytes-IsOver fuel [] h enough = tt
  write_bytes-IsOver zero (b ∷ bs) h enough = absurd (omega arith)
  write_bytes-IsOver (suc fuel) (b ∷ bs) h enough =
      advance-IsOver fuel (b ∷ bs) (write_bytes kernel fuel) h (kernel.written h (b ∷ bs))
        (λ e. absurd (cc)) (omega arith) (calm h (b ∷ bs))
        (λ more k. write_bytes-IsOver fuel more (Op.write (b ∷ bs) ∷ h) k)

  io-IsOver : (done : Bool) (what : String) (h : Ops) → IsOver (io kernel done what h)
  io-IsOver true what h = tt
  io-IsOver false what h = tt

  fill-IsOver :
      (fuel : ℕ) (value : List ℕ) (h : Ops)
      → n + length value < fuel
      → IsOver (fill kernel fuel value h)
  unfolding fill
  fill-IsOver fuel value h enough =
      >>=-elim IsOver IsOver (write_bytes kernel fuel value)
        (λ _. observe Op.sync_file kernel.syncs >>= λ synced. io kernel synced "sync state") h
        (write_bytes-IsOver fuel value h (omega arith))
        (λ _ h' s. io-IsOver (kernel.syncs h') "sync state" (Op.sync_file ∷ h')) (λ e h' s. tt)
        (λ h' s. absurd s)

  sync_directory-IsOver : (h : Ops) → IsOver (sync_directory kernel h)
  unfolding sync_directory
  sync_directory-IsOver h = elim (Bool-cases (kernel.opens_directory h)) [
    | inr shut ↦ rw shut tt
    | inl opened ↦
        rw opened (io-IsOver (kernel.syncs_directory (Op.open_directory ∷ h)) "sync directory" _)
  ]

  put_in_place-IsOver : (tmp : String) (h : Ops) → IsOver (put_in_place kernel tmp h)
  unfolding put_in_place
  put_in_place-IsOver tmp h = elim (Bool-cases (kernel.replaces (Op.close_file ∷ h))) [
    | inr failed ↦ rw failed tt
    | inl done ↦ rw done (sync_directory-IsOver (Op.replace tmp ∷ (Op.close_file ∷ h)))
  ]

  give_up-IsOver :
      (is_open : Bool) (tmp : String) (e : SystemError) (h : Ops)
      → IsOver (give_up kernel is_open tmp e h)
  unfolding give_up
  give_up-IsOver true tmp e h = tt
  give_up-IsOver false tmp e h = tt

  guarded-IsOver :
      (is_open : Bool) (tmp : String) (m : F (Unit {0})) (h : Ops)
      → IsOver (m h)
      → IsOver (catch m (give_up kernel is_open tmp) h)
  guarded-IsOver is_open tmp m h over =
      catch-elim IsOver IsOver m (give_up kernel is_open tmp) h over (λ _ h' s. tt)
        (λ e h' s. give_up-IsOver is_open tmp e h') (λ h' s. absurd s)

  write_file-IsOver :
      (fuel : ℕ) (tmp : String) (value : List ℕ) (h : Ops)
      → n + length value < fuel
      → IsOver (write_file kernel fuel tmp value h)
  unfolding write_file
  write_file-IsOver fuel tmp value h enough =
      >>=-elim IsOver IsOver (catch (fill kernel fuel value) (give_up kernel true tmp))
        (λ _. catch (put_in_place kernel tmp) (give_up kernel false tmp)) h
        (guarded-IsOver true tmp (fill kernel fuel value) h (fill-IsOver fuel value h enough))
        (λ _ h' s.
          guarded-IsOver false tmp (put_in_place kernel tmp) h' (put_in_place-IsOver tmp h'))
        (λ e h' s. tt) (λ h' s. absurd s)

  -- If no draw and no write is interrupted once there have been `n` calls, then `atomicWrite` returns or
  -- throws: fuel above `n + 16` and above `n` and the bytes of the value is enough.
  pub atomic_write-IsOver :
      DrawsOn kernel n
      → (fuel : ℕ) (path : String) (value : List ℕ) (h : Ops) → n + 16 < fuel
      → n + length value < fuel
      → IsOver (atomic_write kernel fuel path value h)
  unfolding atomic_write
  atomic_write-IsOver draws fuel path value h enough room =
      elim (Bool-cases (kernel.creates_directories h)) [
        | inr failed ↦ rw failed tt
        | inl done ↦ rw done (
            >>=-elim IsOver IsOver (random_id kernel fuel) after_id (Op.create_directories ∷ h)
              (random_id-IsOver kernel n draws fuel (Op.create_directories ∷ h) enough)
              (λ id h' s. after_id-IsOver id h') (λ e h' s. tt) (λ h' s. absurd s))
      ]
    where
      after_id : String → F (Unit {0})
      after_id id = do
        let tmp = append path (append "." (append id ".tmp"))
        created ← observe (Op.create_file tmp) kernel.creates
        io kernel created "create state file"
        write_file kernel fuel tmp value

      after_id-IsOver : (id : String) (h' : Ops) → IsOver (after_id id h')
      after_id-IsOver id h' =
          let tmp = append path (append "." (append id ".tmp")) in
          elim (Bool-cases (kernel.creates h')) [
            | inr failed ↦ rw failed tt
            | inl done ↦ rw done (write_file-IsOver fuel tmp value (Op.create_file tmp ∷ h') room)
          ]

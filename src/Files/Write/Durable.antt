-- ===== src/Files/Write/Durable.antt =====
-- What a write leaves on the disk.
use meta_monutchee.Base.{
  ℕ, zero, suc, ◌≡◌, refl, ap, sym, ◌∙◌, Bool, Bool-cases, true, false, inl, inr, ◌⊎◌, String, List,
  [], ◌∷◌, ◌++◌, ◌&&◌, ◌==◌, string_eq, eq_iff, take, drop, take-append-drop, Option, none, some,
  if◌then◌else◌,
}
use mathlib.Core.List.{append-nil, append_assoc}
use meta_monutchee.System.{SystemError}
use meta_monutchee.System.Trace.{
  Ended, returned, threw, cut_off, observe, catch, ◌>>=◌, >>=-elim, catch-elim,
}
use meta_monutchee.Files.Kernel.{Op, Ops, Kernel, Written, F, io}
use meta_monutchee.Files.Write.{
  write_bytes, advance, fill, put_in_place, sync_directory, give_up, write_file,
}

-- the bytes of a write that have been taken
abbrev taken : Written → List ℕ → List ℕ
taken (Written.wrote n) bytes = take n bytes
taken Written.interrupted bytes = []
taken Written.failed bytes = []

abbrev is_named : String → Option String → Bool
is_named tmp none = false
is_named tmp (some name) = tmp == name

abbrev without : String → Option String → Option String
without tmp none = none
without tmp (some name) = if tmp == name then none else some name

same_name : (tmp : String) → (tmp == tmp) ≡ true
same_name tmp = (eq_iff tmp tmp).1 refl

module _ (kernel : Kernel) where
  -- what the last temporary file holds
  abbrev pub content : Ops → List ℕ
  content [] = []
  content (Op.create_file tmp ∷ h) = []
  content (Op.write bytes ∷ h) = content h ++ taken (kernel.written h bytes) bytes
  content (_ ∷ h) = content h

  -- all that it holds has reached the disk
  abbrev pub is_synced : Ops → Bool
  is_synced [] = false
  is_synced (Op.create_file tmp ∷ h) = false
  is_synced (Op.write bytes ∷ h) = false
  is_synced (Op.sync_file ∷ h) = kernel.syncs h
  is_synced (_ ∷ h) = is_synced h

  -- the name of the temporary file that exists
  abbrev pub temporary : Ops → Option String
  temporary [] = none
  temporary (Op.create_file tmp ∷ h) = if kernel.creates h then some tmp else temporary h
  temporary (Op.remove_temporary tmp ∷ h) =
      if kernel.removes h then without tmp (temporary h) else temporary h
  temporary (Op.replace tmp ∷ h) =
      if kernel.replaces h then without tmp (temporary h) else temporary h
  temporary (_ ∷ h) = temporary h

  -- What the target holds since it was replaced, if that is the temporary file and survives a loss of
  -- power; `before` is what it held at first.
  abbrev pub target : Option (List ℕ) → Ops → Option (List ℕ)
  target before [] = before
  target before (Op.replace tmp ∷ h) =
      if kernel.replaces h
      then if is_synced h && is_named tmp (temporary h) then some (content h) else none
      else target before h
  target before (_ ∷ h) = target before h

  -- the last call was to remove the temporary file, and failed
  abbrev pub IsRefused : Ops → Type 0
  IsRefused [] = ⊥
  IsRefused (Op.remove_temporary tmp ∷ h) = (temporary h ≡ some tmp) × (kernel.removes h ≡ false)
  IsRefused (_ ∷ h) = ⊥

  -- no temporary file is left, or it could not be removed
  abbrev pub IsCleared : Ops → Type 0
  IsCleared h = (temporary h ≡ none) ⊎ IsRefused h

  -- the entry of the directory has reached the disk since the last rename
  abbrev pub is_entered : Ops → Bool
  is_entered [] = false
  is_entered (Op.replace tmp ∷ h) = false
  is_entered (Op.sync_directory ∷ h) = kernel.syncs_directory h
  is_entered (_ ∷ h) = is_entered h

  module _ (before : Option (List ℕ)) (old : Option (List ℕ)) where
    -- the target is as it was, and no temporary file exists
    abbrev pub IsKept : Ops → Type 0
    IsKept h = (target before h ≡ old) × (temporary h ≡ none)

    -- the target is as it was, and no temporary file is left
    abbrev pub IsRestored : Ops → Type 0
    IsRestored h = (target before h ≡ old) × IsCleared h

    module _ (value : List ℕ) where
      -- the new file is in place
      abbrev pub IsNew : Ops → Type 0
      IsNew h = (target before h ≡ some value) × (temporary h ≡ none)

      -- how a write ends
      abbrev pub Wrote : Ended SystemError (Unit {0}) × Ops → Type 0
      Wrote (returned _, h) = IsNew h × (is_entered h ≡ true)
      Wrote (threw e, h) = IsRestored h ⊎ (IsNew h × (is_entered h ≡ false))
      Wrote (cut_off, h) = target before h ≡ old

      module _ (tmp : String) where
        -- the target is as it was, and the temporary file exists
        abbrev IsOpen : Ops → Type 0
        IsOpen h = (target before h ≡ old) × (temporary h ≡ some tmp)

        abbrev Filled : Ended SystemError (Unit {0}) × Ops → Type 0
        Filled (returned _, h) = (content h ≡ value) × IsOpen h
        Filled (threw e, h) = IsOpen h
        Filled (cut_off, h) = IsOpen h

        abbrev IsReady : Ops → Type 0
        IsReady h = (content h ≡ value) × (is_synced h ≡ true) × IsOpen h

        abbrev Synced : Ended SystemError (Unit {0}) × Ops → Type 0
        Synced (returned _, h) = IsReady h
        Synced (threw e, h) = IsOpen h
        Synced (cut_off, h) = IsOpen h

        abbrev Placed : Ended SystemError (Unit {0}) × Ops → Type 0
        Placed (returned _, h) = IsNew h × (is_entered h ≡ true)
        Placed (threw e, h) = IsOpen h ⊎ (IsNew h × (is_entered h ≡ false))
        Placed (cut_off, h) = ⊥

        abbrev Guarded : Ended SystemError (Unit {0}) × Ops → Type 0
        Guarded (returned _, h) = IsReady h
        Guarded (threw e, h) = IsRestored h
        Guarded (cut_off, h) = target before h ≡ old

        advance-Filled :
            (rest : List ℕ) (again : List ℕ → F (Unit {0})) (h : Ops) (answer : Written)
            → kernel.written h rest ≡ answer
            → content h ++ rest ≡ value
            → IsOpen h
            → ((more : List ℕ)
                → content (Op.write rest ∷ h) ++ more ≡ value
                → Filled (again more (Op.write rest ∷ h)))
            → Filled (advance kernel rest again answer (Op.write rest ∷ h))
        unfolding advance
        advance-Filled rest again h Written.interrupted q whole open_file k =
            k rest (ap (λ (c : List ℕ). c ++ rest) (rw (q, append-nil (content h)) refl) ∙ whole)
        advance-Filled rest again h Written.failed q whole open_file k = open_file
        advance-Filled rest again h (Written.wrote zero) q whole open_file k = open_file
        advance-Filled rest again h (Written.wrote (suc n)) q whole open_file k =
            k (drop (suc n) rest) (rw (q, append_assoc, take-append-drop (suc n) rest) whole)

        write_bytes-Filled :
            (fuel : ℕ) (rest : List ℕ) (h : Ops)
            → content h ++ rest ≡ value
            → IsOpen h
            → Filled (write_bytes kernel fuel rest h)
        unfolding write_bytes
        write_bytes-Filled fuel [] h whole open_file =
            (sym (append-nil (content h)) ∙ whole, open_file)
        write_bytes-Filled zero (b ∷ bs) h whole open_file = open_file
        write_bytes-Filled (suc fuel) (b ∷ bs) h whole open_file =
            advance-Filled (b ∷ bs) (write_bytes kernel fuel) h (kernel.written h (b ∷ bs)) refl
              whole open_file
              (λ more whole'. write_bytes-Filled fuel more (Op.write (b ∷ bs) ∷ h) whole' open_file)

        fill-Synced :
            (fuel : ℕ) (h : Ops) → content h ≡ [] → IsOpen h → Synced (fill kernel fuel value h)
        unfolding fill
        fill-Synced fuel h fresh open_file =
            >>=-elim Filled Synced (write_bytes kernel fuel value)
              (λ _. observe Op.sync_file kernel.syncs >>= λ synced. io kernel synced "sync state") h
              (write_bytes-Filled fuel value h (ap (λ c. c ++ value) fresh) open_file)
              (λ _ h' s. elim (Bool-cases (kernel.syncs h')) [
                | inl done ↦ rw done (s.0, done, s.1)
                | inr failed ↦ rw failed s.1
              ])
              (λ e h' s. s) (λ h' s. s)

        sync_directory-Placed :
            (h : Ops) → IsNew h → is_entered h ≡ false → Placed (sync_directory kernel h)
        unfolding sync_directory
        sync_directory-Placed h new unentered = elim (Bool-cases (kernel.opens_directory h)) [
          | inr shut ↦ rw shut (inr (new, unentered))
          | inl opened ↦
              let next : Ops = Op.open_directory ∷ h in
              elim (Bool-cases (kernel.syncs_directory next)) [
                | inl done ↦ rw (opened, done) (new, done)
                | inr failed ↦ rw (opened, failed) (inr (new, failed))
              ]
        ]

        put_in_place-Placed : (h : Ops) → IsReady h → Placed (put_in_place kernel tmp h)
        unfolding put_in_place
        put_in_place-Placed h ready =
            let closed : Ops = Op.close_file ∷ h in
            elim (Bool-cases (kernel.replaces closed)) [
              | inl done ↦
                  let next : Ops = Op.replace tmp ∷ closed in
                  let new : IsNew next = (
                    rw (done, ready.1, ready.2.1, same_name tmp) (ap some ready.0),
                    rw (done, ready.2.1, same_name tmp) refl,
                  ) in
                  rw done (sync_directory-Placed next new refl)
              | inr failed ↦ rw failed (inl (rw failed ready.2.0, rw failed ready.2.1))
            ]

        -- the removal at the end, if the file is still there
        removal-IsRestored : (h : Ops) → IsOpen h → IsRestored (Op.remove_temporary tmp ∷ h)
        removal-IsRestored h same = elim (Bool-cases (kernel.removes h)) [
          | inl done ↦ (same.0, inl (rw (done, same.1, same_name tmp) refl))
          | inr failed ↦ (same.0, inr (same.1, failed))
        ]

        removal-IsNew : (h : Ops) → IsNew h → IsNew (Op.remove_temporary tmp ∷ h)
        removal-IsNew h new = elim (Bool-cases (kernel.removes h)) [
          | inl done ↦ (new.0, rw (done, new.1) refl)
          | inr failed ↦ (new.0, rw failed new.1)
        ]

        give_up-Wrote :
            (is_open : Bool) (e : SystemError) (h : Ops)
            → IsOpen h ⊎ (IsNew h × (is_entered h ≡ false))
            → Wrote (give_up kernel is_open tmp e h)
        unfolding give_up
        give_up-Wrote true e h (inl same) = inl (removal-IsRestored (Op.close_file ∷ h) same)
        give_up-Wrote false e h (inl same) = inl (removal-IsRestored h same)
        give_up-Wrote true e h (inr new) = inr (removal-IsNew (Op.close_file ∷ h) new.0, new.1)
        give_up-Wrote false e h (inr new) = inr (removal-IsNew h new.0, new.1)

        give_up-Guarded :
            (e : SystemError) (h : Ops) → IsOpen h → Guarded (give_up kernel true tmp e h)
        unfolding give_up
        give_up-Guarded e h same = removal-IsRestored (Op.close_file ∷ h) same

        pub write_file-Wrote :
            (fuel : ℕ) (h : Ops)
            → content h ≡ []
            → IsOpen h
            → Wrote (write_file kernel fuel tmp value h)
        unfolding write_file
        write_file-Wrote fuel h fresh open_file =
            >>=-elim Guarded Wrote (catch (fill kernel fuel value) (give_up kernel true tmp))
              (λ _. catch (put_in_place kernel tmp) (give_up kernel false tmp)) h
              (catch-elim Synced Guarded (fill kernel fuel value) (give_up kernel true tmp) h
                (fill-Synced fuel h fresh open_file) (λ _ h' s. s)
                (λ e h' s. give_up-Guarded e h' s) (λ h' s. s.0))
              (λ _ h' ready.
                catch-elim Placed Wrote (put_in_place kernel tmp) (give_up kernel false tmp) h'
                  (put_in_place-Placed h' ready) (λ _ h'' s. s)
                  (λ e h'' s. give_up-Wrote false e h'' s) (λ h'' s. absurd s))
              (λ e h' s. inl s) (λ h' s. s)

-- ===== src/Files/Read/Bounds.antt =====
-- What is read of a file is bounded, and the read ends.
use Prim.Native.String.{◌++◌ as append}
use meta_monutchee.Base.{
  ℕ, zero, suc, ◌+◌, ◌≤◌, ◌<◌, ◌≡◌, refl, subst, Bool, Bool-cases, true, false, inl, inr, ◌⊎◌,
  arith, ltb, String, Option, Option-cases, none, some, List, [], ◌++◌, ◌∷◌, length, length-append,
}
use meta_monutchee.System.{ErrorCode}
use meta_monutchee.System.Trace.{Returns, IsOver, pure, throw, >>=-elim}
use meta_monutchee.Files.Kernel.{Op, Ops, Kernel, Stream, F, failure}
use meta_monutchee.Files.Ids.{hex_text}
use meta_monutchee.Files.Ids.Digits.{IsHex, hex_text-IsHex}
use meta_monutchee.Files.Read.{append_block, read_blocks, read_file, file_hash}

module _ (kernel : Kernel) (path : String) (limit : ℕ) where
  -- what follows a block that fits, by how the stream stands
  abbrev go_on : List ℕ → (List ℕ → F (List ℕ)) → Stream → F (List ℕ)
  go_on longer again stream = elim stream [
    | Stream.good ↦ again longer
    | Stream.at_end ↦ pure longer
    | Stream.bad ↦ throw (failure ErrorCode.unavailable (append "cannot finish reading " path))
  ]

  abbrev IsShort : List ℕ → Type 0
  IsShort value = length value ≤ limit

  go_on-IsShort :
      (longer : List ℕ) (again : List ℕ → F (List ℕ)) (stream : Stream) (h : Ops)
      → IsShort longer
      → Returns IsShort (again longer h)
      → Returns IsShort (go_on longer again stream h)
  go_on-IsShort longer again Stream.good h short k = k
  go_on-IsShort longer again Stream.at_end h short k = short
  go_on-IsShort longer again Stream.bad h short k = tt

  read_blocks-IsShort :
      (fuel : ℕ) (value : List ℕ) (h : Ops)
      → Returns IsShort (read_blocks kernel path limit fuel value h)
  unfolding read_blocks append_block
  read_blocks-IsShort zero value h = tt
  read_blocks-IsShort (suc fuel) value h =
      let block = kernel.block h in
      let longer = value ++ block.bytes in
      elim (Bool-cases (ltb limit (length longer))) [
        | inl long ↦ rw long tt
        | inr short ↦ rw short (
            go_on-IsShort longer (read_blocks kernel path limit fuel) block.stream
              (Op.read_block ∷ h) (ground (arith, short))
              (read_blocks-IsShort fuel longer (Op.read_block ∷ h)))
      ]

  -- What `readFile` returns has at most `limit` bytes.
  pub read_file-IsShort :
      (fuel : ℕ) (opens : Bool) (h : Ops)
      → Returns IsShort (read_file kernel path limit fuel opens h)
  unfolding read_file
  read_file-IsShort fuel true h = read_blocks-IsShort fuel [] h
  read_file-IsShort fuel false h = tt

  go_on-IsOver :
      (longer : List ℕ) (again : List ℕ → F (List ℕ)) (stream : Stream) (h : Ops)
      → (stream ≡ Stream.good → IsOver (again longer h))
      → IsOver (go_on longer again stream h)
  go_on-IsOver longer again Stream.good h k = k refl
  go_on-IsOver longer again Stream.at_end h k = tt
  go_on-IsOver longer again Stream.bad h k = tt

  module _
      (full : (h : Ops)
        → (kernel.block h).stream ≡ Stream.good
        → 1 ≤ length ((kernel.block h).bytes)) where
    read_blocks-IsOver :
        (fuel : ℕ) (value : List ℕ) (h : Ops)
        → limit < fuel + length value
        → IsOver (read_blocks kernel path limit (suc fuel) value h)
    unfolding read_blocks append_block
    read_blocks-IsOver zero value h enough =
        let longer = value ++ (kernel.block h).bytes in
        elim (Bool-cases (ltb limit (length longer))) [
          | inl long ↦ rw long tt
          | inr short ↦ absurd (ground (arith, short, length-append value ((kernel.block h).bytes)))
        ]
    read_blocks-IsOver (suc fuel) value h enough =
        let block = kernel.block h in
        let longer = value ++ block.bytes in
        elim (Bool-cases (ltb limit (length longer))) [
          | inl long ↦ rw long tt
          | inr short ↦ rw short (
              go_on-IsOver longer (read_blocks kernel path limit (suc fuel)) block.stream
                (Op.read_block ∷ h)
                (λ good.
                  read_blocks-IsOver fuel longer (Op.read_block ∷ h)
                    (omega (arith, length-append value block.bytes, full h good))))
        ]

    -- If a block that does not end the stream has a byte at least, then `readFile` returns or throws:
    -- fuel for two rounds more than `limit` is enough.
    pub read_file-IsOver :
        (opens : Bool) (h : Ops) → IsOver (read_file kernel path limit (suc (suc limit)) opens h)
    unfolding read_file
    read_file-IsOver true h = read_blocks-IsOver (suc limit) [] h (omega arith)
    read_file-IsOver false h = tt

  abbrev IsDigest : String → Type 0
  IsDigest text = (text ≡ "") ⊎ IsHex 64 text

  -- If a digest has 32 bytes, then what `fileHash` returns is empty or has 64 characters, all of them
  -- hexadecimal digits in lower case.
  pub file_hash-IsDigest :
      (digest : List ℕ → Option (List ℕ))
      → ((value bytes : List ℕ) → digest value ≡ some bytes → length bytes ≡ 32)
      → (fuel : ℕ) (exists opens : Bool) (h : Ops)
      → Returns IsDigest (file_hash kernel path limit digest fuel exists opens h)
  unfolding file_hash
  file_hash-IsDigest digest whole fuel false opens h = inl refl
  file_hash-IsDigest digest whole fuel true opens h =
      >>=-elim (λ r. Unit {0}) (Returns IsDigest) (read_file kernel path limit fuel opens)
        (λ value. elim (digest value) as (λ _. F String) [
          | none ↦ throw (failure ErrorCode.internal_error "SHA256 failed")
          | some bytes ↦ pure (hex_text bytes)
        ])
        h tt
        (λ value h' s. elim (Option-cases (digest value)) [
          | inl failed ↦ rw failed tt
          | inr (bytes, q) ↦ rw q (
              inr (
                subst (λ n. IsHex n (hex_text bytes)) (omega (arith, whole value bytes q))
                  (hex_text-IsHex bytes)))
        ])
        (λ e h' s. tt) (λ h' s. tt)

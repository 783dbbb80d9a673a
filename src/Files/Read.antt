-- ===== src/Files/Read.antt =====
-- `readFile` and `fileHash` of daemon/storage.cpp.
pub mod Bounds
use Prim.Native.String.{◌++◌ as append}
use meta_monutchee.Base.{
  ℕ, zero, suc, ◌+◌, ◌*◌, ◌≤◌, ◌<◌, ◌≡◌, Bool-cases, inl, inr, refl, arith, ltb, String, Bool, true,
  false, Option, none, some, List, [], ◌∷◌, ◌++◌, length, length-append, if◌then◌else◌,
}
use meta_monutchee.System.{ErrorCode}
use meta_monutchee.System.Trace.{pure, throw, running, observe, ◌>>=◌, ◌>>◌, Returns, IsOver}
use meta_monutchee.Files.Kernel.{Op, Ops, Kernel, Block, Stream, F, failure}
use meta_monutchee.Files.Ids.{hex_text}

module _ (kernel : Kernel) (path : String) (limit : ℕ) where
  -- what follows a block: a good stream is read on
  unfoldable pub append_block : List ℕ → (List ℕ → F (List ℕ)) → Block → F (List ℕ)
  append_block value again block =
      let longer = value ++ block.bytes in
      if ltb limit (length longer)
      then throw (failure ErrorCode.invalid_argument "file too large")
      else elim (block.stream) [
        | Stream.good ↦ again longer
        | Stream.at_end ↦ pure longer
        | Stream.bad ↦ throw (failure ErrorCode.unavailable (append "cannot finish reading " path))
      ]

  -- the loop, with what has been read
  unfoldable pub read_blocks : ℕ → List ℕ → F (List ℕ)
  unfolding append_block
  read_blocks zero value = running
  read_blocks (suc fuel) value =
      observe Op.read_block kernel.block >>= append_block value (read_blocks fuel)

  -- a stream that can be opened, or not
  unfoldable pub read_file : ℕ → Bool → F (List ℕ)
  unfolding read_blocks
  read_file fuel true = read_blocks fuel []
  read_file fuel false = throw (failure ErrorCode.unavailable (append "cannot read " path))

  -- `fileHash`, where the file exists or not, with the digest of OpenSSL
  unfoldable pub file_hash : (List ℕ → Option (List ℕ)) → ℕ → Bool → Bool → F String
  unfolding read_file hex_text
  file_hash digest fuel false opens = pure ""
  file_hash digest fuel true opens = read_file fuel opens >>= λ value. elim (digest value) [
    | none ↦ throw (failure ErrorCode.internal_error "SHA256 failed")
    | some bytes ↦ pure (hex_text bytes)
  ]

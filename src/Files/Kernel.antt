-- ===== src/Files/Kernel.antt =====
-- The system calls that the first part of daemon/storage.cpp makes, and their answers. A byte is a number.
use Prim.Native.String.{◌++◌ as append}
use meta_monutchee.Base.{ℕ, String, Bool, List, if◌then◌else◌}
use meta_monutchee.System.{SystemError, ErrorCode}
use meta_monutchee.System.Trace.{Trace, pure, throw}

-- `create_file` opens a new temporary file, `replace` renames it to the target, `remove_temporary` unlinks
-- it; the directory is the target's.
pub data Op : Type 0 where
  create_directories sync_file close_file : Op
  create_file replace remove_temporary : String → Op
  write : List ℕ → Op
  open_directory sync_directory close_directory : Op
  -- `getrandom` of so many bytes, and a block of a stream that is read
  draw : ℕ → Op
  read_block : Op

abbrev pub Ops : Type 0
Ops = List Op

-- what `write` answers: it was interrupted, it failed, or so many bytes have been written
pub data Written : Type 0 where
  interrupted failed : Written
  wrote : ℕ → Written

pub data Drawn : Type 0 where
  interrupted failed : Drawn
  drew : List ℕ → Drawn

-- what a read of 4096 bytes leaves: the bytes, and how the stream stands, good, at its end, or bad
pub data Stream : Type 0 where
  good at_end bad : Stream

pub record Block : Type 0 where
  pub bytes : List ℕ
  pub stream : Stream

-- The answers, which may depend on all the calls before.
pub record Kernel : Type 0 where
  pub creates_directories : Ops → Bool
  pub creates : Ops → Bool
  pub written : Ops → List ℕ → Written
  pub syncs : Ops → Bool
  pub replaces : Ops → Bool
  pub removes : Ops → Bool
  pub opens_directory : Ops → Bool
  pub syncs_directory : Ops → Bool
  pub drawn : Ops → ℕ → Drawn
  pub block : Ops → Block
  -- `std::strerror(errno)`
  pub reason : Ops → String

abbrev pub F : Type 0 → Type 0
F A = Trace Op SystemError A

abbrev pub failure : ErrorCode → String → SystemError
failure code message = record { code = code; message = message }

abbrev pub refuse : {A : Type 0} → Kernel → String → F A
refuse kernel what h =
    throw (failure ErrorCode.apply_failed (append what (append ": " (kernel.reason h)))) h

-- `io`
abbrev pub io : Kernel → Bool → String → F (Unit {0})
io kernel done what = if done then pure tt else refuse kernel what

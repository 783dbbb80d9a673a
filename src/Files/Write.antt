-- ===== src/Files/Write.antt =====
-- `atomicWrite` and `syncDirectory` of daemon/storage.cpp.
pub mod Durable
pub mod Replaced
pub mod Ends
use Prim.Native.String.{◌++◌ as append}
use meta_monutchee.Base.{ℕ, zero, suc, String, Bool, true, false, List, [], ◌∷◌, drop}
use meta_monutchee.System.{SystemError}
use meta_monutchee.System.Trace.{pure, throw, running, observe, catch, ◌>>=◌, ◌>>◌}
use meta_monutchee.Files.Kernel.{Op, Kernel, Written, F, refuse, io}
use meta_monutchee.Files.Ids.{random_id}

abbrev close_if : Bool → F (Unit {0})
close_if true = observe Op.close_file (λ h. tt)
close_if false = pure tt

module _ (kernel : Kernel) where
  unfoldable pub sync_directory : F (Unit {0})
  sync_directory = do
    opened ← observe Op.open_directory kernel.opens_directory
    io kernel opened "open directory"
    synced ← observe Op.sync_directory kernel.syncs_directory
    observe Op.close_directory (λ h. tt)
    io kernel synced "sync directory"

  -- what follows an answer of `write` to the bytes that are left
  unfoldable pub advance : List ℕ → (List ℕ → F (Unit {0})) → Written → F (Unit {0})
  advance value again Written.interrupted = again value
  advance value again Written.failed = refuse kernel "write state"
  advance value again (Written.wrote zero) = refuse kernel "write state"
  advance value again (Written.wrote (suc n)) = again (drop (suc n) value)

  unfoldable pub write_bytes : ℕ → List ℕ → F (Unit {0})
  unfolding advance
  write_bytes fuel [] = pure tt
  write_bytes zero (b ∷ bs) = running
  write_bytes (suc fuel) (b ∷ bs) =
      observe (Op.write (b ∷ bs)) (λ h. kernel.written h (b ∷ bs))
      >>= advance (b ∷ bs) (write_bytes fuel)

  -- the body of the `try` up to the rename
  unfoldable pub fill : ℕ → List ℕ → F (Unit {0})
  unfolding write_bytes
  fill fuel value = do
    write_bytes fuel value
    synced ← observe Op.sync_file kernel.syncs
    io kernel synced "sync state"

  -- and from the `close` before the rename
  unfoldable pub put_in_place : String → F (Unit {0})
  unfolding sync_directory
  put_in_place tmp = do
    observe Op.close_file (λ h. tt)
    replaced ← observe (Op.replace tmp) kernel.replaces
    io kernel replaced "replace state"
    sync_directory

  -- the handler of exceptions, which closes the file if it is still open, and ignores what `unlink` answers
  unfoldable pub give_up : Bool → String → SystemError → F (Unit {0})
  give_up is_open tmp e = do
    close_if is_open
    observe (Op.remove_temporary tmp) kernel.removes
    throw e

  -- The body of the `try`: until the rename the file is open, and then it is not.
  unfoldable pub write_file : ℕ → String → List ℕ → F (Unit {0})
  unfolding fill put_in_place give_up
  write_file fuel tmp value = do
    catch (fill fuel value) (give_up true tmp)
    catch (put_in_place tmp) (give_up false tmp)

  -- `path` is replaced by a file that holds `value`
  unfoldable pub atomic_write : ℕ → String → List ℕ → F (Unit {0})
  unfolding write_file
  atomic_write fuel path value = do
    made ← observe Op.create_directories kernel.creates_directories
    io kernel made "create directories"
    id ← random_id kernel fuel
    let tmp = append path (append "." (append id ".tmp"))
    created ← observe (Op.create_file tmp) kernel.creates
    io kernel created "create state file"
    write_file fuel tmp value

-- ===== src/Tests/Disks.antt =====
-- Files on a kernel that is interrupted once and writes three bytes at a time.
use meta_monutchee.Base.{
  ℕ, zero, suc, ◌≡◌, refl, Bool, true, false, arith, List, [], ◌∷◌, some, length, ltb,
  if◌then◌else◌,
}
use meta_monutchee.System.{SystemError}
use meta_monutchee.System.Trace.{Ended, returned, threw, IsOver}
use meta_monutchee.Files.Kernel.{Kernel, Written, Drawn, Stream}
use meta_monutchee.Files.Ids.{random_id}
use meta_monutchee.Files.Ids.Digits.{IsHex}
use meta_monutchee.Files.Read.{read_file, file_hash}
use meta_monutchee.Files.Write.{atomic_write}
use meta_monutchee.Files.Write.Durable.{Wrote}
use meta_monutchee.Files.Write.Replaced.{atomic_write-Wrote}
use meta_monutchee.Files.Write.Ends.{atomic_write-IsOver}

abbrev ones : ℕ → List ℕ
ones zero = []
ones (suc n) = 1 ∷ ones n

-- one byte of each draw, and one write in six calls is interrupted
abbrev disk : Kernel
disk = record {
  creates_directories = λ h. true;
  creates = λ h. true;
  written = λ h bytes. if ltb (length h) 20 then Written.interrupted else Written.wrote 3;
  syncs = λ h. true;
  replaces = λ h. true;
  removes = λ h. true;
  opens_directory = λ h. true;
  syncs_directory = λ h. true;
  drawn = λ h n. Drawn.drew (10 ∷ []);
  block = λ h. record {
    bytes = 7 ∷ [];
    stream = if ltb (length h) 2 then Stream.good else Stream.at_end;
  };
  reason = λ h. "reason";
}

-- a directory that cannot be synchronised
abbrev worn : Kernel
worn = record disk { syncs_directory = λ h. false }

abbrev value : List ℕ
value = 5 ∷ 6 ∷ 7 ∷ 8 ∷ []

id_text : (random_id disk 17 []).0 ≡ returned "0a0a0a0a0a0a0a0a0a0a0a0a0a0a0a0a"
unfolding random_id
id_text = refl

is_thrown : {A : Type 0} → Ended SystemError A → Bool
is_thrown (threw e) = true
is_thrown _ = false

worn_throws : is_thrown ((atomic_write worn 30 "state" value []).0) ≡ true
unfolding is_thrown atomic_write random_id
worn_throws = refl

three_blocks : (read_file disk "state" 3 9 true []).0 ≡ returned (7 ∷ 7 ∷ 7 ∷ [])
unfolding read_file
three_blocks = refl

too_large : is_thrown ((read_file disk "state" 2 9 true []).0) ≡ true
unfolding is_thrown read_file
too_large = refl

digest_text : (file_hash disk "state" 3 (λ v. some v) 9 true true []).0 ≡ returned "070707"
unfolding file_hash
digest_text = refl

atomic_write-Wrote_example :
    Wrote disk (some (1 ∷ [])) (some (1 ∷ [])) value (atomic_write disk 30 "state" value [])
atomic_write-Wrote_example =
    atomic_write-Wrote disk (some (1 ∷ [])) (some (1 ∷ [])) value "state" 30 [] (refl, refl)

atomic_write-IsOver_example : IsOver (atomic_write disk 37 "state" value [])
atomic_write-IsOver_example =
    atomic_write-IsOver disk 20 (λ h bytes late. ground arith) (λ h n late e. absurd (cc)) 37
      "state" value [] (omega arith) (omega arith)

random_id-IsHex_run : IsHex 32 "0a0a0a0a0a0a0a0a0a0a0a0a0a0a0a0a"
random_id-IsHex_run = (refl, refl)

-- ===== src/Backend/Load.antt =====
-- `loadBootPreferences` of daemon/storage.cpp, on what the file system and the JSON library answer.
pub mod Managed
use meta_monutchee.Base.{
  ℕ, ◌/◌, ◌%◌, String, Bool, ◌||◌, not, ◌&&◌, true, false, nat_beq, some, List, [], ◌∷◌, length,
  count_if, empty, ◌==◌, string_eq,
}
use meta_monutchee.System.{
  Result, ok, err, ◌>>=◌, ◌>>◌, check, Configuration, BootPreferences, NetworkConfig, SystemError,
  ErrorCode,
}
use meta_monutchee.Validation.Preferences.{validate}
use meta_monutchee.Backend.Profile.{Profile, InterfacePolicy}

-- what `lstat` tells of a file
pub record FileStatus : Type 0 where
  pub is_regular : Bool
  pub uid : ℕ
  pub mode : ℕ

-- `st.st_mode & 0022`: the group or others may write
abbrev pub is_shared : ℕ → Bool
is_shared mode = nat_beq ((mode / 16) % 2) 1 || nat_beq ((mode / 2) % 2) 1

abbrev deny : Bool → Result (Unit {0})
deny true = err (record {
  code = ErrorCode.permission_denied;
  message = "boot preferences must be root-owned and non-writable";
})
deny false = ok tt

abbrev pub with_hostname : String → Configuration → Configuration
with_hostname hostname c = record c { system = record (c.system) { hostname = hostname } }

-- every managed interface stands in the network once
unfoldable pub check_policies : List NetworkConfig → List InterfacePolicy → Result (Unit {0})
check_policies network [] = ok tt
check_policies network (policy ∷ rest) = do
  check (nat_beq (count_if (λ (n : NetworkConfig). n.interface == policy.name) network) 1)
      "invalid boot interface"
  check_policies network rest

unfoldable pub check_interfaces : Profile → Configuration → Result (Unit {0})
unfolding check_policies
check_interfaces profile c = do
  check (nat_beq (length c.system.network) (length profile.interfaces))
      "boot preferences must include all managed interfaces"
  check_policies c.system.network profile.interfaces

-- the preferences with the hostname of the production identity
abbrev pub managed : BootPreferences → BootPreferences
managed boot = record boot {
  factory = with_hostname boot.managed_hostname boot.factory;
  initial = with_hostname boot.managed_hostname boot.initial;
}

-- the profile that the source changes in place
unfoldable pub load_boot_preferences :
    Profile → Result FileStatus → Result BootPreferences → Result Profile
load_boot_preferences profile status decoded = do
  st ← status
  deny (not st.is_regular || not (nat_beq st.uid 0) || is_shared st.mode)
  boot ← decoded
  check (nat_beq boot.schema_version 1 && not (empty boot.managed_hostname))
      "invalid boot preferences"
  validate (managed boot).factory
  validate (managed boot).initial
  check_interfaces profile (managed boot).factory
  check_interfaces profile (managed boot).initial
  ok (record profile { defaults = (managed boot).factory; boot_preferences = some (managed boot) })

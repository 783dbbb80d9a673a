-- ===== src/Backend/Load/Managed.antt =====
-- What the boot preferences of a profile satisfy.
use meta_monutchee.Base.{◌≡◌, false, some}
use meta_monutchee.System.{ok, BootPreferences}
use meta_monutchee.Validation.Preferences.{validate}
use meta_monutchee.Backend.Profile.{Profile}
use meta_monutchee.Backend.Load.{FileStatus, managed, check_interfaces, is_shared}

pub record IsManaged (profile : Profile) (st : FileStatus) (boot : BootPreferences)
    (loaded : Profile) : Type 0 where
  owner : st.uid ≡ 0
  private_file : is_shared st.mode ≡ false
  factory_hostname : loaded.defaults.system.hostname ≡ boot.managed_hostname
  is_valid : validate loaded.defaults ≡ ok tt
  initial_is_valid : validate (managed boot).initial ≡ ok tt
  interfaces : check_interfaces profile loaded.defaults ≡ ok tt
  initial_interfaces : check_interfaces profile (managed boot).initial ≡ ok tt
  same_interfaces : loaded.interfaces ≡ profile.interfaces
  stored : loaded.boot_preferences ≡ some (managed boot)

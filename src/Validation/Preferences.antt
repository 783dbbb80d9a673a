-- ===== src/Validation/Preferences.antt =====
-- `validate` of validation.cpp.
use meta_monutchee.Base.{
  ℕ, Bool, false, ◌&&◌, ◌||◌, not, List, [], ◌∷◌, String, leb, nat_beq, ◌==◌, string_eq, codes,
  size, empty, is_alnum, front_is, back_is, length, all, contains,
}
use meta_monutchee.System.{Result, ok, ◌>>◌, check, Configuration}
use meta_monutchee.Validation.Network.{validate_network, valid_interface_name}
use meta_monutchee.Validation.Ntp.{valid_ntp_server}

unfoldable pub valid_hostname : String → Bool
valid_hostname hostname =
    not (empty hostname)
    && leb (size hostname) 63
    && not (front_is b'-' (codes hostname))
    && not (back_is b'-' (codes hostname))
    && all (λ c. is_alnum c || nat_beq c b'-') (codes hostname)

abbrev pub is_timezone_char : ℕ → Bool
is_timezone_char c =
    is_alnum c || nat_beq c b'/' || nat_beq c b'_' || nat_beq c b'-' || nat_beq c b'+'

-- `timezone.find("..") != npos`; a name with a dot fails the test of the characters too
unfoldable pub has_dots : List ℕ → Bool
has_dots [] = false
has_dots (x ∷ []) = false
has_dots (x ∷ (y ∷ rest)) = nat_beq x b'.' && nat_beq y b'.' || has_dots (y ∷ rest)

unfoldable pub valid_timezone : String → Bool
unfolding has_dots
valid_timezone timezone =
    not (empty timezone)
    && leb (size timezone) 128
    && not (front_is b'/' (codes timezone))
    && not (has_dots (codes timezone))
    && all is_timezone_char (codes timezone)

-- the loop over the NTP servers, with the servers seen so far
unfoldable pub check_servers : List String → List String → Result (Unit {0})
unfolding valid_ntp_server
check_servers seen [] = ok tt
check_servers seen (server ∷ rest) = do
  check (valid_ntp_server server) "invalid NTP server: use a hostname or IP address without a port"
  check (not (contains server seen)) "duplicate NTP server"
  check_servers (server ∷ seen) rest

abbrev pub is_synchronization : String → Bool
is_synchronization mode = mode == "ntp" || mode == "ptp" || mode == "irig" || mode == "local"

-- `validate`
unfoldable pub validate : Configuration → Result (Unit {0})
unfolding valid_hostname valid_timezone valid_interface_name check_servers validate_network
validate c = do
  check (valid_hostname c.system.hostname) "invalid hostname"
  check (is_synchronization c.time.synchronization) "invalid time synchronization mode"
  check (valid_timezone c.time.timezone) "invalid timezone"
  check
      (empty c.time.ptp_interface && not (c.time.synchronization == "ptp")
        || valid_interface_name c.time.ptp_interface)
      "invalid PTP interface name"
  check (leb (length c.time.ntp_servers) 8) "at most eight NTP servers are allowed"
  check_servers [] c.time.ntp_servers
  validate_network c.system.network

-- ===== src/Tests/Validations.antt =====
-- Runs of the validation on concrete inputs.
use meta_monutchee.Base.{
  ◌≤◌, length, count_if, All, size, empty, all, codes, true, false, [], ◌∷◌, ◌≡◌, refl, map,
}
use meta_monutchee.System.{ok, check, NetworkConfig, static_ipv4}
use meta_monutchee.Validation.Ipv4.{ipv4, octet}
use meta_monutchee.Validation.Ntp.{
  valid_ntp_server, ipv6_literal, count_words, split_compression, decimal_rounds, valid_labels,
  strip_final_dot,
}
use meta_monutchee.Validation.Number.{from_chars, has_char}
use meta_monutchee.Validation.Network.{validate_network}
use meta_monutchee.Validation.Network.Sound.{Distinct, IsSound, validate_network-IsSound}
use meta_monutchee.Validation.Ntp.Characters.{is_server_char, valid_ntp_server-clean}

ipv4_run : ipv4 "192.168.1.20" ≡ ok 3232235796
unfolding ipv4
ipv4_run = refl

servers_accepted :
    map valid_ntp_server
      ("pool.ntp.org" ∷ "10.0.0.1" ∷ "fe80::1" ∷ "::ffff:1.2.3.4" ∷ "1:2:3:4:5:6:7:8" ∷ "a.b." ∷ [])
    ≡ true ∷ true ∷ true ∷ true ∷ true ∷ true ∷ []
unfolding valid_ntp_server ipv6_literal count_words split_compression decimal_rounds octet
    from_chars valid_labels strip_final_dot has_char
servers_accepted = refl

servers_refused :
    map valid_ntp_server
      ("" ∷ "1.2.3" ∷ "01.2.3.4" ∷ "fe80:::1" ∷ "1::2::3" ∷ "-a.b" ∷ "a b" ∷ "fe80::1%eth0" ∷ [])
    ≡ false ∷ false ∷ false ∷ false ∷ false ∷ false ∷ false ∷ false ∷ []
unfolding valid_ntp_server ipv6_literal count_words split_compression decimal_rounds octet
    from_chars valid_labels strip_final_dot has_char
servers_refused = refl

abbrev pub static_config : NetworkConfig
static_config = record {
  interface = "eth0";
  mode = static_ipv4;
  address = "10.0.0.2";
  prefix_length = 24;
  gateway = "10.0.0.1";
  dns_servers = "8.8.8.8" ∷ [];
  preferred_default = true;
}

network_accepted : validate_network (static_config ∷ []) ≡ ok tt
unfolding validate_network ipv4
network_accepted = refl

network_refused :
    validate_network (record static_config { gateway = "10.0.1.1" } ∷ [])
    ≡ check false "gateway must be a different address on the subnet"
unfolding validate_network ipv4
network_refused = refl

validate_network-IsSound_example :
    (length (static_config ∷ []) ≤ 8)
    × (count_if (λ (c : NetworkConfig). c.preferred_default) (static_config ∷ []) ≤ 1)
    × Distinct [] (static_config ∷ [])
    × All IsSound (static_config ∷ [])
unfolding validate_network ipv4
validate_network-IsSound_example = validate_network-IsSound (static_config ∷ []) refl

valid_ntp_server-clean_example :
    (empty "pool.ntp.org" ≡ false)
    × (size "pool.ntp.org" ≤ 253)
    × (all is_server_char (codes "pool.ntp.org") ≡ true)
unfolding valid_ntp_server valid_labels strip_final_dot has_char
valid_ntp_server-clean_example = valid_ntp_server-clean "pool.ntp.org" refl

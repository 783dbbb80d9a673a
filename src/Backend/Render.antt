-- ===== src/Backend/Render.antt =====
-- `renderNetwork` of daemon/network_config.cpp: the settings of one link for systemd-networkd.
use Prim.Native.String.{◌++◌ as append}
use meta_monutchee.Base.{
  String, Bool, true, false, ◌&&◌, not, List, [], ◌∷◌, ◌++◌, ◌==◌, string_eq, empty, is_empty,
  if◌then◌else◌, to_string,
}
use meta_monutchee.System.{Result, ok, ◌>>◌, NetworkConfig, NetworkMode, dhcp, static_ipv4}
use meta_monutchee.Validation.Network.{validate_network}

-- the pieces that the stream has been given
unfoldable pub join : List String → String
join [] = ""
join (s ∷ rest) = append s (join rest)

abbrev pub is_static : NetworkMode → Bool
is_static dhcp = false
is_static static_ipv4 = true

abbrev piece : Bool → List String → List String
piece true pieces = pieces
piece false pieces = []

unfoldable pub dns_lines : List String → List String
dns_lines [] = []
dns_lines (dns ∷ rest) = "DNS=" ∷ (dns ∷ ("\n" ∷ dns_lines rest))

abbrev metric : NetworkConfig → String
metric c = if c.preferred_default then "100" else "600"

unfoldable pub route_lines : NetworkConfig → Bool → List String
route_lines c has_preferred = piece (is_static c.mode && not (empty c.gateway)) (
    "\n[Route]\nGateway="
    ∷ c.gateway
    ∷ "\n"
    ∷ piece has_preferred ("Metric=" ∷ metric c ∷ "\n" ∷ []))

-- the body of the loop over the sections
unfoldable pub section_lines : NetworkConfig → Bool → String → List String
section_lines c has_preferred section =
    ("\n[" ∷ section ∷ "]\nUseDNS=" ∷ (if is_empty c.dns_servers then "yes" else "no") ∷ "\n" ∷ [])
    ++ (piece (section == "DHCPv4") ("UseDomains=yes\n" ∷ [])
        ++ piece (has_preferred && not (section == "DHCPv6"))
            ("RouteMetric=" ∷ metric c ∷ "\n" ∷ []))

abbrev pub network_lines : NetworkConfig → Bool → List String
network_lines c has_preferred =
    ("# Generated by MNC System Manager\n[Match]\nName="
      ∷ c.interface
      ∷ "\n\n[Network]\nDHCP="
      ∷ (if is_static c.mode then "no" else "yes")
      ∷ "\nIPv6AcceptRA=yes\n"
      ∷ [])
    ++ (piece (is_static c.mode)
          ("Address=" ∷ c.address ∷ "/" ∷ to_string c.prefix_length ∷ "\n" ∷ [])
        ++ (dns_lines c.dns_servers
            ++ (route_lines c has_preferred
                ++ (section_lines c has_preferred "DHCPv4"
                    ++ (section_lines c has_preferred "DHCPv6"
                        ++ section_lines c has_preferred "IPv6AcceptRA")))))

unfoldable pub render_network : NetworkConfig → Bool → Result String
unfolding join dns_lines route_lines section_lines
render_network c has_preferred = do
  validate_network (c ∷ [])
  ok (join (network_lines c has_preferred))

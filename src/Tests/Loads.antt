-- ===== src/Tests/Loads.antt =====
-- Boot preferences and rendered settings on concrete inputs.
use meta_monutchee.Base.{true, ◌≡◌, refl}
use meta_monutchee.System.{ok, BootPreferences}
use meta_monutchee.Validation.Preferences.{validate}
use meta_monutchee.Validation.Ipv4.{ipv4}
use meta_monutchee.Backend.Load.{FileStatus}
use meta_monutchee.Backend.Render.{render_network}
use meta_monutchee.Tests.Setting.{product, dhcp_config}

abbrev boot : BootPreferences
boot = record {
  schema_version = 1;
  factory = product;
  initial = product;
  managed_hostname = "unit-7";
}

abbrev root_file : FileStatus
root_file = record { is_regular = true; uid = 0; mode = 420 }

render_run :
    render_network dhcp_config true
    ≡ ok
        "# Generated by MNC System Manager\n[Match]\nName=eth0\n\n[Network]\nDHCP=yes\nIPv6AcceptRA=yes\n\n[DHCPv4]\nUseDNS=yes\nUseDomains=yes\nRouteMetric=100\n\n[DHCPv6]\nUseDNS=yes\n\n[IPv6AcceptRA]\nUseDNS=yes\nRouteMetric=100\n"
unfolding render_network validate ipv4
render_run = refl

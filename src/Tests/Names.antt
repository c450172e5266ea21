-- ===== src/Tests/Names.antt =====
-- Addresses, names and rules on concrete input.
use multi_threaded_dpi_engin.Base.{
  ◌≡◌, ◌≢◌, refl, ◌↔◌, true, [], ◌∷◌, ◌++◌, none, some, Bytes, codes, lower, bytes_eq,
  contains_text, arith, decimal,
}
use multi_threaded_dpi_engin.Base.Eq.{text_eq, contains, insert}
use multi_threaded_dpi_engin.Types.App.{netflix, microsoft, twitter}
use multi_threaded_dpi_engin.Types.Classify.{has_any, sni_to_app_type}
use multi_threaded_dpi_engin.Types.Classify.Shadow.{sni_to_app_type-shadowed}
use multi_threaded_dpi_engin.Rules.Address.{parse_ip, ip_to_string, parse_ip-ip_to_string}
use multi_threaded_dpi_engin.Rules.Domain.{
  Under, domain_matches_pattern, domain_matches_pattern-Under,
}
use multi_threaded_dpi_engin.Rules.{RuleManager, no_rules, block_port, has_star}
use multi_threaded_dpi_engin.Rules.Files.{save_rules, load_rules}
use multi_threaded_dpi_engin.Rules.Joined.{Saveable, Joined}
use multi_threaded_dpi_engin.Rules.Saved.{load_rules-save_rules}

test_print : ip_to_string 0x3201a8c0 ≡ codes "192.168.1.50"
unfolding ip_to_string decimal
test_print = refl

test_parse : parse_ip (codes "192.168.1.50") ≡ some 0x3201a8c0
unfolding parse_ip
test_parse = refl

test_shadowed : sni_to_app_type (codes "www.netflix.com") ≡ twitter
unfolding sni_to_app_type has_any contains_text lower
test_shadowed = refl

abbrev wildcard : Bytes
wildcard = codes "*.a.io"

abbrev some_rules : RuleManager
some_rules = record no_rules { blocked_ips = 5 ∷ []; domain_patterns = wildcard ∷ [] }

parse_ip-ip_to_string_example : parse_ip (ip_to_string 0x3201a8c0) ≡ some 0x3201a8c0
parse_ip-ip_to_string_example = parse_ip-ip_to_string 0x3201a8c0 (omega arith)

sni_to_app_type-shadowed_example :
    (sni_to_app_type (codes "www." ++ (codes "netflix.com" ++ [])) ≢ netflix)
    × (sni_to_app_type (codes "www." ++ (codes "microsoft.com" ++ [])) ≢ microsoft)
sni_to_app_type-shadowed_example = sni_to_app_type-shadowed (codes "www.") []

domain_matches_pattern-Under_example :
    (domain_matches_pattern (codes "b.a.io") (b'*' ∷ (b'.' ∷ codes "a.io")) ≡ true)
    ↔ Under (codes "a.io") (codes "b.a.io")
domain_matches_pattern-Under_example = domain_matches_pattern-Under (codes "b.a.io") (codes "a.io")

some_rules-Saveable : Saveable some_rules
unfolding contains has_star
some_rules-Saveable = record {
  ips = (omega arith, tt);
  apps = tt;
  domains = tt;
  exact = tt;
  patterns = ((refl, refl), tt);
  starred = (refl, tt);
  ports = tt;
}

test_load :
    load_rules (some (codes "[BLOCKED_PORTS]\n443\n\n 80x\n")) no_rules
    ≡ some (true, record no_rules { blocked_ports = 443 ∷ 80 ∷ [] })
unfolding load_rules bytes_eq block_port insert
test_load = refl

test_load_bad : load_rules (some (codes "[BLOCKED_PORTS]\nhttp\n")) no_rules ≡ none
unfolding load_rules bytes_eq
test_load_bad = refl

load_rules-save_rules_example :
    (r : RuleManager) × (load_rules (save_rules (some []) some_rules).1 no_rules ≡ some (true, r))
    × Joined some_rules no_rules r
load_rules-save_rules_example = load_rules-save_rules [] some_rules no_rules some_rules-Saveable

-- ===== src/Rules/Saved.antt =====
-- What `loadRules` of src/rule_manager.cpp makes of a file that `saveRules` wrote.
use multi_threaded_dpi_engin.Base.{
  AllOf, ◌^◌, ◌<◌, ◌≡◌, ◌≢◌, refl, sym, ap, subst, ◌∙◌, true, List, [], ◌∷◌, ◌++◌, map, Option,
  some, ◌>>=◌, Bytes, decimal,
}
use multi_threaded_dpi_engin.Base.Eq.{nat_eq, text_eq, contains}
use multi_threaded_dpi_engin.Types.App.{app_count, app_eq, app_name}
use multi_threaded_dpi_engin.Rules.{
  RuleManager, block_address, block_app, block_domain, block_port, get_blocked_ips,
  get_blocked_apps, get_blocked_domains,
}
use multi_threaded_dpi_engin.Rules.Address.{ip_to_string}
use multi_threaded_dpi_engin.Rules.Files.{
  load_line, load_lines, ips_header, apps_header, domains_header, ports_header, saved_lines,
  save_rules, load_rules,
}
use multi_threaded_dpi_engin.Rules.Lines.{OneLine, RuleLine, get_lines-put_lines, decimal-RuleLine}
use multi_threaded_dpi_engin.Rules.Sections.{
  load_lines-section, map-AllOf, append-AllOf, ip_to_string-RuleLine, app_name-RuleLine,
  load_rule-ip, load_rule-app, load_rule-domain, load_rule-port,
}
use multi_threaded_dpi_engin.Rules.Joined.{
  Saveable, Joined, with_ips, with_apps, with_domains, with_rules, ip_after, app_after, port_after,
  domain_after,
}

map_self : (ls : List Bytes) → map (λ l. l) ls ≡ ls
map_self [] = refl
map_self (l ∷ ls) = ap (λ x. l ∷ x) (map_self ls)

Saveable-lines : (m : RuleManager) → Saveable m → AllOf RuleLine (get_blocked_domains m)
unfolding get_blocked_domains
Saveable-lines m s = append-AllOf RuleLine m.blocked_domains m.domain_patterns s.domains s.patterns

load_lines-saved_lines :
    (m m0 : RuleManager) → Saveable m → load_lines [] (saved_lines m) m0 ≡ some (with_rules m m0)
unfolding load_lines load_line get_blocked_ips get_blocked_apps with_rules
load_lines-saved_lines m m0 s =
    load_lines-section ips_header ip_to_string block_address (λ ip. ip < 2 ^ 32)
      (λ ip h. ip_to_string-RuleLine ip) load_rule-ip m.blocked_ips _ m0 s.ips
    ∙ load_lines-section apps_header app_name block_app (λ a. a ≢ app_count)
        (λ a h. app_name-RuleLine a) load_rule-app m.blocked_apps _ (with_ips m m0) s.apps
    ∙ ap
        (λ ls.
          load_lines domains_header
            (ls ++ ([] ∷ ports_header ∷ (map decimal m.blocked_ports ++ []))) (with_apps m m0))
        (sym (map_self (get_blocked_domains m)))
    ∙ load_lines-section domains_header (λ l. l) block_domain RuleLine (λ l h. h) load_rule-domain
        (get_blocked_domains m) _ (with_apps m m0) (Saveable-lines m s)
    ∙ load_lines-section ports_header decimal block_port (λ p. p < 2 ^ 16)
        (λ p h. decimal-RuleLine p) load_rule-port m.blocked_ports [] (with_domains m m0) s.ports

saved_lines-OneLine : (m : RuleManager) → Saveable m → AllOf OneLine (saved_lines m)
unfolding get_blocked_ips get_blocked_apps contains
saved_lines-OneLine m s = (
  refl,
  append-AllOf OneLine (map ip_to_string m.blocked_ips) _
      (map-AllOf ips_header ip_to_string block_address (λ ip. ip < 2 ^ 32)
        (λ ip h. ip_to_string-RuleLine ip) load_rule-ip m.blocked_ips s.ips)
      (
        refl,
        (
          refl,
          append-AllOf OneLine (map app_name m.blocked_apps) _
              (map-AllOf apps_header app_name block_app (λ a. a ≢ app_count)
                (λ a h. app_name-RuleLine a) load_rule-app m.blocked_apps s.apps)
              (
                refl,
                (
                  refl,
                  append-AllOf OneLine (get_blocked_domains m) _
                      (subst (AllOf OneLine) (map_self (get_blocked_domains m)) (
                        map-AllOf domains_header (λ l. l) block_domain RuleLine (λ l h. h)
                          load_rule-domain (get_blocked_domains m) (Saveable-lines m s)))
                      (
                        refl,
                        (
                          refl,
                          append-AllOf OneLine (map decimal m.blocked_ports) []
                              (map-AllOf ports_header decimal block_port (λ p. p < 2 ^ 16)
                                (λ p h. decimal-RuleLine p) load_rule-port m.blocked_ports s.ports)
                              tt,
                        ),
                      ),
                ),
              ),
        ),
      ),
)

load_rules-with_rules :
    (old : Bytes) (m m0 : RuleManager)
    → Saveable m
    → load_rules (save_rules (some old) m).1 m0 ≡ some (true, with_rules m m0)
unfolding load_rules save_rules
load_rules-with_rules old m m0 s =
    ap (λ ls. load_lines [] ls m0 >>= (λ r. some (true, r)))
      (get_lines-put_lines (saved_lines m) (saved_lines-OneLine m s))
    ∙ ap (λ (o : Option RuleManager). o >>= (λ r. some (true, r))) (load_lines-saved_lines m m0 s)

-- Loading a file that `saveRules` wrote, over any old file, adds exactly the rules that were saved:
-- it succeeds on any rules, and each check then says yes where it does for the saved rules or did before. The saved
-- rules are those that the file can hold.
pub load_rules-save_rules :
    (old : Bytes) (m m0 : RuleManager)
    → Saveable m
    → (r : RuleManager) × (load_rules (save_rules (some old) m).1 m0 ≡ some (true, r))
      × Joined m m0 r
load_rules-save_rules old m m0 s = (
  with_rules m m0,
  load_rules-with_rules old m m0 s,
  record {
    ips = ip_after m m0;
    apps = app_after m m0;
    domains = λ d. domain_after m m0 d s;
    ports = port_after m m0;
  },
)

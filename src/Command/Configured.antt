-- ===== src/Command/Configured.antt =====
-- The rules of an engine that src/main_dpi.cpp starts with a file of rules and blocking options. The
-- options have the names of those of src/dpi_mt.cpp, and so the arguments are those of Mt.Options.
use multi_threaded_dpi_engin.Base.{
  ℕ, ◌≡◌, ◌≢◌, refl, ap, ◌∙◌, Bool, false, ◌||◌, if◌then◌else◌, List, [], ◌∷◌, ◌++◌, map, Option,
  some, arith, Bytes, codes, bytes_eq, lower, append_assoc, append-nil,
}
use multi_threaded_dpi_engin.Base.Eq.{nat_eq, contains, contains-append, contains-insert}
use multi_threaded_dpi_engin.Types.App.{AppType, app_eq, app_count, app_name, app_of_name-app_name}
use multi_threaded_dpi_engin.Rules.Address.{ip_to_string, parse_ip-ip_to_string}
use multi_threaded_dpi_engin.Rules.Domain.{domain_matches_pattern}
use multi_threaded_dpi_engin.Rules as Rules
use multi_threaded_dpi_engin.Rules.{
  RuleManager, no_rules, is_ip_blocked, is_app_blocked, is_port_blocked, is_domain_blocked,
  has_star,
}
use multi_threaded_dpi_engin.Rules.Check.{is_domain_blocked-block_domain}
use multi_threaded_dpi_engin.Rules.Files as Files
use multi_threaded_dpi_engin.Mt.Options.{
  Argument, ip_argument, app_argument, domain_argument, render, AllValid, ips_of, apps_of,
  domains_of,
}
use multi_threaded_dpi_engin.Engine.Api.{
  block_ip, block_app, block_app_named, block_domain, load_rules, initialize_rules,
}
use multi_threaded_dpi_engin.Command.Dpi.{
  Options, read_options, block_ips, block_apps, block_domains, load_named, configure,
}

-- The options that hold all of these arguments.
abbrev collected : {I : Type 0} → List Argument → Options I → Options I
collected args o = record o {
  block_ips = o.block_ips ++ map ip_to_string (ips_of args);
  block_apps = o.block_apps ++ map app_name (apps_of args);
  block_domains = o.block_domains ++ domains_of args;
}

read_options-render :
    {I : Type 0} (stoi : Bytes → Option I) (args : List Argument) (o : Options I)
    → read_options stoi (render args) o ≡ some (some (collected args o))
unfolding read_options bytes_eq
read_options-render stoi [] o =
    rw (append-nil o.block_ips, append-nil o.block_apps, append-nil o.block_domains)
read_options-render stoi (ip_argument ip ∷ args) o =
    read_options-render stoi args _
    ∙ rw (append_assoc o.block_ips (ip_to_string ip ∷ []) (map ip_to_string (ips_of args)))
read_options-render stoi (app_argument app ∷ args) o =
    read_options-render stoi args _
    ∙ rw (append_assoc o.block_apps (app_name app ∷ []) (map app_name (apps_of args)))
read_options-render stoi (domain_argument dom ∷ args) o =
    read_options-render stoi args _ ∙ rw (append_assoc o.block_domains (dom ∷ []) (domains_of args))

-- One of the rules covers the name.
abbrev pub any_rule : List Bytes → Bytes → Bool
any_rule [] d = false
any_rule (rule ∷ rules) d =
    (if has_star rule then domain_matches_pattern (lower d) (lower rule) else bytes_eq rule d)
    || any_rule rules d

-- The rules `r` are those of `m` with these added.
pub record Adds (ips : List ℕ) (apps : List AppType) (rules : List Bytes) (m r : RuleManager)
    : Type 0 where
  pub ip : (a : ℕ) → is_ip_blocked a r ≡ (is_ip_blocked a m || contains a ips)
  pub app : (a : AppType) → is_app_blocked a r ≡ (is_app_blocked a m || contains a apps)
  pub domain : (d : Bytes) → is_domain_blocked d r ≡ (is_domain_blocked d m || any_rule rules d)
  pub port : (p : ℕ) → is_port_blocked p r ≡ is_port_blocked p m

any_rule-append :
    (rules more : List Bytes) (d : Bytes)
    → any_rule (rules ++ more) d ≡ (any_rule rules d || any_rule more d)
any_rule-append [] more d = refl
any_rule-append (rule ∷ rules) more d = ground (arith, any_rule-append rules more d)

Adds-none : (m : RuleManager) → Adds [] [] [] m m
unfolding contains
Adds-none m = record {
  ip = λ a. ground arith;
  app = λ a. ground arith;
  domain = λ d. ground arith;
  port = λ p. refl;
}

module _ {is js : List ℕ} {as_ bs : List AppType} {ds es : List Bytes} {m n r : RuleManager} where
  Adds-append : Adds is as_ ds m n → Adds js bs es n r → Adds (is ++ js) (as_ ++ bs) (ds ++ es) m r
  Adds-append f g = record {
    ip = λ a. ground (arith, f.ip a, g.ip a, contains-append a is js);
    app = λ a. ground (arith, f.app a, g.app a, contains-append a as_ bs);
    domain = λ d. ground (arith, f.domain d, g.domain d, any_rule-append ds es d);
    port = λ p. g.port p ∙ f.port p;
  }

-- Addresses first, then applications, then domains.
Adds-all :
    (is : List ℕ) (bs : List AppType) (ds : List Bytes) (m n k r : RuleManager)
    → Adds is [] [] m n
    → Adds [] bs [] n k
    → Adds [] [] ds k r
    → Adds is bs ds m r
unfolding contains
Adds-all is bs ds m n k r f g h = record {
  ip = λ a. ground (arith, f.ip a, g.ip a, h.ip a);
  app = λ a. ground (arith, f.app a, g.app a, h.app a);
  domain = λ d. ground (arith, f.domain d, g.domain d, h.domain d);
  port = λ p. h.port p ∙ g.port p ∙ f.port p;
}

block_address-Adds : (ip : ℕ) (m : RuleManager) → Adds (ip ∷ []) [] [] m (Rules.block_address ip m)
unfolding Rules.block_address is_ip_blocked is_app_blocked is_port_blocked is_domain_blocked
    contains
block_address-Adds ip m = record {
  ip = λ a. ground (arith, contains-insert a ip m.blocked_ips);
  app = λ a. ground arith;
  domain = λ d. ground arith;
  port = λ p. refl;
}

block_app-Adds : (app : AppType) (m : RuleManager) → Adds [] (app ∷ []) [] m (Rules.block_app app m)
unfolding Rules.block_app is_ip_blocked is_app_blocked is_port_blocked is_domain_blocked contains
block_app-Adds app m = record {
  ip = λ a. ground arith;
  app = λ a. ground (arith, contains-insert a app m.blocked_apps);
  domain = λ d. ground arith;
  port = λ p. refl;
}

block_domain-Adds :
    (rule : Bytes) (m : RuleManager) → Adds [] [] (rule ∷ []) m (Rules.block_domain rule m)
unfolding Rules.block_domain is_ip_blocked is_app_blocked is_port_blocked contains
block_domain-Adds rule m = record {
  ip = λ a. ground arith;
  app = λ a. ground arith;
  domain = λ d. ground (arith, is_domain_blocked-block_domain d rule m);
  port = λ p. ground arith;
}

block_ips-Adds :
    (args : List Argument) (m : RuleManager)
    → AllValid args
    → (r : RuleManager) × (block_ips (map ip_to_string (ips_of args)) (some m) ≡ some (some r))
      × Adds (ips_of args) [] [] m r
unfolding block_ips block_ip Rules.block_ip
block_ips-Adds [] m h = (m, refl, Adds-none m)
block_ips-Adds (ip_argument ip ∷ args) m h =
    let (r, e, adds) = block_ips-Adds args (Rules.block_address ip m) h.1 in
    (r, rw (parse_ip-ip_to_string ip h.0) e, Adds-append (block_address-Adds ip m) adds)
block_ips-Adds (app_argument app ∷ args) m h = block_ips-Adds args m h.1
block_ips-Adds (domain_argument dom ∷ args) m h = block_ips-Adds args m h

block_app_named-app_name :
    (app : AppType) (m : RuleManager)
    → app ≢ app_count
    → block_app_named (app_name app) (some m) ≡ some (Rules.block_app app m)
unfolding block_app block_app_named Rules.block_app
block_app_named-app_name app m h = rw (block_app_named, app_of_name-app_name app h) refl

block_apps-Adds :
    (args : List Argument) (m : RuleManager)
    → AllValid args
    → (r : RuleManager) × (block_apps (map app_name (apps_of args)) (some m) ≡ some r)
      × Adds [] (apps_of args) [] m r
unfolding block_apps
block_apps-Adds [] m h = (m, refl, Adds-none m)
block_apps-Adds (ip_argument ip ∷ args) m h = block_apps-Adds args m h.1
block_apps-Adds (app_argument app ∷ args) m h =
    let (r, e, adds) = block_apps-Adds args (Rules.block_app app m) h.1 in
    (
      r,
      ap (block_apps (map app_name (apps_of args))) (block_app_named-app_name app m h.0) ∙ e,
      Adds-append (block_app-Adds app m) adds,
    )
block_apps-Adds (domain_argument dom ∷ args) m h = block_apps-Adds args m h

block_domains-Adds :
    (rules : List Bytes) (m : RuleManager)
    → (r : RuleManager) × (block_domains rules (some m) ≡ some r) × Adds [] [] rules m r
unfolding block_domains block_domain
block_domains-Adds [] m = (m, refl, Adds-none m)
block_domains-Adds (rule ∷ rules) m =
    let (r, e, adds) = block_domains-Adds rules (Rules.block_domain rule m) in
    (r, e, Adds-append (block_domain-Adds rule m) adds)

-- No rules at the start.
abbrev pub defaults : {I : Type 0} → I → I → Options I
defaults lbs fps = record {
  num_load_balancers = lbs;
  fps_per_lb = fps;
  verbose = false;
  block_ips = [];
  block_apps = [];
  block_domains = [];
  rules_file = [];
}

-- From the command line and a file of rules to the rules of the engine: with a file that can be
-- opened and loads without a throw, and any blocking options behind it, for addresses of 32 bits in dotted form, names of applications
-- and domain rules, the options are read without an error, and when the file is processed an
-- address is blocked if the file blocks it or it is among the options, and so is an application; a
-- domain is blocked if the file blocks it or one of the options covers it; ports are as in the file.
pub configure-Adds :
    {I : Type 0} (stoi : Bytes → Option I) (lbs fps : I) (files : Bytes → Option Bytes) (c : ℕ)
    (name : Bytes) (loaded : Bool) (m : RuleManager) (args : List Argument)
    → Files.load_rules (files (c ∷ name)) no_rules ≡ some (loaded, m)
    → AllValid args
    → (o : Options I) × (r : RuleManager) × (read_options stoi
          (codes "--rules" ∷ ((c ∷ name) ∷ render args))
          (defaults lbs fps)
        ≡ some (some o))
      × (configure files o ≡ some (some r))
      × Adds (ips_of args) (apps_of args) (domains_of args) m r
unfolding configure load_named load_rules read_options bytes_eq initialize_rules
configure-Adds stoi lbs fps files c name loaded m args file valid =
    let o = record (defaults lbs fps) { rules_file = c ∷ name } in
    let (n, ips, one) = block_ips-Adds args m valid in
    let (k, apps, two) = block_apps-Adds args n valid in
    let (r, domains, three) = block_domains-Adds (domains_of args) k in
    (
      collected args o,
      r,
      read_options-render stoi args o,
      rw (file, ips, apps, domains),
      Adds-all (ips_of args) (apps_of args) (domains_of args) m n k r one two three,
    )

-- ===== src/Rules/Joined.antt =====
-- What the checks of src/rule_manager.cpp answer behind the rules of one manager added to another.
use multi_threaded_dpi_engin.Base.{
  AllOf, ℕ, ◌^◌, ◌<◌, ◌≡◌, ◌≢◌, refl, ap, ◌∙◌, true, false, ◌||◌, ◌==◌, Bytes, arith,
}
use multi_threaded_dpi_engin.Base.Eq.{nat_eq, text_eq, contains-insert}
use multi_threaded_dpi_engin.Types.App.{AppType, app_count, app_eq, app_beq}
use multi_threaded_dpi_engin.Rules.{
  RuleManager, block_address, block_app, block_domain, block_port, get_blocked_domains,
  is_ip_blocked, is_app_blocked, is_port_blocked, has_star, is_domain_blocked,
}
use multi_threaded_dpi_engin.Rules.Check.{is_domain_blocked-block_domain}
use multi_threaded_dpi_engin.Rules.Lines.{RuleLine}
use multi_threaded_dpi_engin.Rules.Sections.{add_all}
use multi_threaded_dpi_engin.Rules.Answers.{
  any_of, answer-add_all, answer-add_other, any_of-append, covers, any_of-exact, any_of-patterns,
  any_of-contains_nat, any_of-contains_app,
}

-- Rules whose lines a reader of the file takes for what they are: addresses and ports of their
-- width, proper applications, and domains that are not empty, do not begin as a header does and have
-- no line break; the exact names have no star and the patterns have one, as `blockDomain` sorts them.
pub record Saveable (m : RuleManager) : Type 0 where
  pub ips : AllOf (λ ip. ip < 2 ^ 32) m.blocked_ips
  pub apps : AllOf (λ a. a ≢ app_count) m.blocked_apps
  pub domains : AllOf RuleLine m.blocked_domains
  pub exact : AllOf (λ d. has_star d ≡ false) m.blocked_domains
  pub patterns : AllOf RuleLine m.domain_patterns
  pub starred : AllOf (λ d. has_star d ≡ true) m.domain_patterns
  pub ports : AllOf (λ p. p < 2 ^ 16) m.blocked_ports

-- The rules of `m` on top of those of `m0`, as the lines of the file add them.
unfoldable pub with_ips : RuleManager → RuleManager → RuleManager
with_ips m m0 = add_all block_address m.blocked_ips m0

unfoldable pub with_apps : RuleManager → RuleManager → RuleManager
unfolding with_ips
with_apps m m0 = add_all block_app m.blocked_apps (with_ips m m0)

unfoldable pub with_domains : RuleManager → RuleManager → RuleManager
unfolding with_apps
with_domains m m0 = add_all block_domain (get_blocked_domains m) (with_apps m m0)

unfoldable pub with_rules : RuleManager → RuleManager → RuleManager
unfolding with_domains
with_rules m m0 = add_all block_port m.blocked_ports (with_domains m m0)

-- Each check of `r` says yes for the rules of `m` and for those of `m0`, and for no others.
pub record Joined (m m0 r : RuleManager) : Type 0 where
  pub ips : (ip : ℕ) → is_ip_blocked ip r ≡ (is_ip_blocked ip m || is_ip_blocked ip m0)
  pub apps : (a : AppType) → is_app_blocked a r ≡ (is_app_blocked a m || is_app_blocked a m0)
  pub domains :
      (d : Bytes) → is_domain_blocked d r ≡ (is_domain_blocked d m || is_domain_blocked d m0)
  pub ports : (p : ℕ) → is_port_blocked p r ≡ (is_port_blocked p m || is_port_blocked p m0)

module _ (m m0 : RuleManager) where
  pub ip_after :
      (ip : ℕ) → is_ip_blocked ip (with_rules m m0) ≡ (is_ip_blocked ip m || is_ip_blocked ip m0)
  unfolding with_rules is_ip_blocked block_address block_app block_port
  ip_after ip =
      answer-add_other block_port (is_ip_blocked ip) (λ x r. refl) m.blocked_ports
        (with_domains m m0)
      ∙ answer-add_other block_domain (is_ip_blocked ip) other (get_blocked_domains m)
          (with_apps m m0)
      ∙ answer-add_other block_app (is_ip_blocked ip) (λ x r. refl) m.blocked_apps (with_ips m m0)
      ∙ answer-add_all block_address (is_ip_blocked ip) (λ x. x == ip)
          (λ x r. contains-insert ip x r.blocked_ips) m.blocked_ips m0
      ∙ ap (λ b. b || is_ip_blocked ip m0) (any_of-contains_nat ip m.blocked_ips)
    where
      other :
          (d : Bytes) (r : RuleManager) → is_ip_blocked ip (block_domain d r) ≡ is_ip_blocked ip r
      other d r = unfold block_domain in ground arith

  pub app_after :
      (a : AppType)
      → is_app_blocked a (with_rules m m0) ≡ (is_app_blocked a m || is_app_blocked a m0)
  unfolding with_rules is_app_blocked block_address block_app block_port
  app_after a =
      answer-add_other block_port (is_app_blocked a) (λ x r. refl) m.blocked_ports
        (with_domains m m0)
      ∙ answer-add_other block_domain (is_app_blocked a) other (get_blocked_domains m)
          (with_apps m m0)
      ∙ answer-add_all block_app (is_app_blocked a) (λ x. app_beq x a)
          (λ x r. contains-insert a x r.blocked_apps) m.blocked_apps (with_ips m m0)
      ∙ ap (λ b. b || is_app_blocked a (with_ips m m0)) (any_of-contains_app a m.blocked_apps)
      ∙ ap (λ b. is_app_blocked a m || b)
          (answer-add_other block_address (is_app_blocked a) (λ x r. refl) m.blocked_ips m0)
    where
      other :
          (d : Bytes) (r : RuleManager) → is_app_blocked a (block_domain d r) ≡ is_app_blocked a r
      other d r = unfold block_domain in ground arith

  pub port_after :
      (p : ℕ) → is_port_blocked p (with_rules m m0) ≡ (is_port_blocked p m || is_port_blocked p m0)
  unfolding with_rules is_port_blocked block_address block_app block_port
  port_after p =
      answer-add_all block_port (is_port_blocked p) (λ x. x == p)
        (λ x r. contains-insert p x r.blocked_ports) m.blocked_ports (with_domains m m0)
      ∙ ap (λ b. b || is_port_blocked p (with_domains m m0)) (any_of-contains_nat p m.blocked_ports)
      ∙ ap (λ b. is_port_blocked p m || b)
          (answer-add_other block_domain (is_port_blocked p) other (get_blocked_domains m)
              (with_apps m m0)
            ∙ answer-add_other block_app (is_port_blocked p) (λ x r. refl) m.blocked_apps
                (with_ips m m0)
            ∙ answer-add_other block_address (is_port_blocked p) (λ x r. refl) m.blocked_ips m0)
    where
      other :
          (d : Bytes) (r : RuleManager) → is_port_blocked p (block_domain d r) ≡ is_port_blocked p r
      other d r = unfold block_domain in ground arith

  pub domain_after :
      (d : Bytes)
      → Saveable m
      → is_domain_blocked d (with_rules m m0) ≡ (is_domain_blocked d m || is_domain_blocked d m0)
  unfolding with_rules is_domain_blocked block_address block_app block_port get_blocked_domains
  domain_after d s =
      answer-add_other block_port (is_domain_blocked d) (λ x r. refl) m.blocked_ports
        (with_domains m m0)
      ∙ answer-add_all block_domain (is_domain_blocked d) (covers d)
          (λ x r. is_domain_blocked-block_domain d x r) (get_blocked_domains m) (with_apps m m0)
      ∙ ap (λ b. b || is_domain_blocked d (with_apps m m0)) covered
      ∙ ap (λ b. is_domain_blocked d m || b)
          (answer-add_other block_app (is_domain_blocked d) (λ x r. refl) m.blocked_apps
              (with_ips m m0)
            ∙ answer-add_other block_address (is_domain_blocked d) (λ x r. refl) m.blocked_ips m0)
    where
      covered : any_of (covers d) (get_blocked_domains m) ≡ is_domain_blocked d m
      covered =
          any_of-append (covers d) m.blocked_domains m.domain_patterns
          ∙ rw
              (
                any_of-exact d m.blocked_domains s.exact,
                any_of-patterns d m.domain_patterns s.starred,
              )
              refl

-- ===== src/Rules/Check.antt =====
-- What the rule checks answer, and how each operation changes the answers.
use multi_threaded_dpi_engin.Base.{
  ℕ, true, false, not, ◌&&◌, ◌||◌, List, [], ◌∷◌, ◌++◌, ◌==◌, none, some, ◌≡◌, refl, ◌⊎◌, ◌↔◌,
  arith, if◌then◌else◌, Bytes, bytes_eq, bytes_eq_iff, lower, ◌^◌, ◌<◌,
}
use multi_threaded_dpi_engin.Base.Eq.{
  nat_eq, text_eq, contains, contains-insert, contains-erase, erase-insert,
}
use multi_threaded_dpi_engin.Types.App.{AppType}
use multi_threaded_dpi_engin.Rules.Address.{ip_to_string, parse_ip-ip_to_string}
use multi_threaded_dpi_engin.Rules.Domain.{domain_matches_pattern}
use multi_threaded_dpi_engin.Rules.{
  RuleManager, block_address, unblock_address, block_ip, unblock_ip, is_ip_blocked, is_app_blocked,
  is_port_blocked, has_star, block_domain, unblock_domain, erase_first, any_pattern,
  is_domain_blocked, should_block,
}

-- A packet is let through exactly when no rule speaks against it. An empty name is not looked up.
pub should_block-none_iff :
    (src_ip dst_port : ℕ) (a : AppType) (name : Bytes) (m : RuleManager)
    → (should_block src_ip dst_port a name m ≡ none) ↔ (
        (is_ip_blocked src_ip m ≡ false)
        × (is_port_blocked dst_port m ≡ false)
        × (is_app_blocked a m ≡ false)
        × ((name ≡ []) ⊎ (is_domain_blocked name m ≡ false)))
unfolding should_block
should_block-none_iff src_ip dst_port a [] m = ground arith
should_block-none_iff src_ip dst_port a (c ∷ cs) m = ground arith

any_pattern-append :
    (d : Bytes) (ps qs : List Bytes)
    → any_pattern d (ps ++ qs) ≡ (any_pattern d ps || any_pattern d qs)
unfolding any_pattern
any_pattern-append d [] qs = refl
any_pattern-append d (p ∷ ps) qs = ground (arith, any_pattern-append d ps qs)

-- A domain rule adds exactly what it covers: an exact name itself, a wildcard what it matches
-- without regard to case.
pub is_domain_blocked-block_domain :
    (d rule : Bytes) (m : RuleManager)
    → is_domain_blocked d (block_domain rule m) ≡ (
        (if has_star rule then domain_matches_pattern (lower d) (lower rule) else bytes_eq rule d)
        || is_domain_blocked d m)
unfolding is_domain_blocked block_domain
is_domain_blocked-block_domain d rule m = ground (
  arith,
  contains-insert d rule m.blocked_domains,
  any_pattern-append (lower d) m.domain_patterns (rule ∷ []),
)

erase_first-append_self :
    (rule : Bytes) (ps : List Bytes)
    → contains rule ps ≡ false
    → erase_first rule (ps ++ rule ∷ []) ≡ ps
unfolding erase_first contains
erase_first-append_self rule [] h = ground (arith, bytes_eq_iff rule rule)
erase_first-append_self rule (p ∷ ps) h = ground (arith, erase_first-append_self rule ps)

-- Taking back a domain rule that was not there before it was added leaves the rules as they
-- were.
pub unblock_domain-block_domain :
    (rule : Bytes) (m : RuleManager)
    → contains rule m.blocked_domains ≡ false
    → contains rule m.domain_patterns ≡ false
    → unblock_domain rule (block_domain rule m) ≡ m
unfolding block_domain unblock_domain
unblock_domain-block_domain rule m h k =
    ground (
      arith,
      erase-insert rule m.blocked_domains h,
      erase_first-append_self rule m.domain_patterns k,
    )

any_pattern-erase_first :
    (d rule : Bytes) (ps : List Bytes)
    → contains rule ps ≡ true
    → domain_matches_pattern d (lower rule) ≡ true
    → any_pattern d (erase_first rule (ps ++ rule ∷ [])) ≡ true
unfolding any_pattern erase_first contains
any_pattern-erase_first d rule [] h k = cc
any_pattern-erase_first d rule (p ∷ ps) h k =
    ground (arith, any_pattern-append d ps (rule ∷ []), any_pattern-erase_first d rule ps)

-- A wildcard that was blocked before stays in force when it is blocked again and unblocked once,
-- since the list of patterns keeps repetitions: a domain that it matches is still blocked.
pub unblock_domain_repeated :
    (d rule : Bytes) (m : RuleManager)
    → has_star rule ≡ true
    → contains rule m.domain_patterns ≡ true
    → domain_matches_pattern (lower d) (lower rule) ≡ true
    → is_domain_blocked d (unblock_domain rule (block_domain rule m)) ≡ true
unfolding is_domain_blocked block_domain unblock_domain
unblock_domain_repeated d rule m s h k =
    ground (arith, any_pattern-erase_first (lower d) rule m.domain_patterns h k)

-- Blocking a 32-bit address by its text is blocking the address, and unblocking by the text is
-- unblocking it: of the checks of an address, the one changes that of this address to blocked,
-- the other to not blocked, and neither changes that of another address.
pub block_ip-ip_to_string :
    (address : ℕ) (m : RuleManager)
    → address < 2 ^ 32
    → (block_ip (ip_to_string address) m ≡ some (block_address address m))
      × (unblock_ip (ip_to_string address) m ≡ some (unblock_address address m))
      × ((j : ℕ)
          → (is_ip_blocked j (block_address address m) ≡ (address == j || is_ip_blocked j m))
            × (is_ip_blocked j (unblock_address address m)
                ≡ (not (address == j) && is_ip_blocked j m)))
unfolding block_ip unblock_ip is_ip_blocked block_address unblock_address
block_ip-ip_to_string address m h = (
  rw (parse_ip-ip_to_string address h),
  rw (parse_ip-ip_to_string address h),
  λ j. (contains-insert j address m.blocked_ips, contains-erase j address m.blocked_ips),
)

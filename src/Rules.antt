-- ===== src/Rules.antt =====
-- src/rule_manager.cpp: the rule sets, the operations on them and the combined check. Each lock of
-- the source guards one call, so a call is one step here; log lines are left out.
pub mod Address
pub mod Domain
pub mod Check
pub mod Files
pub mod Lines
pub mod Sections
pub mod Answers
pub mod Joined
pub mod Saved
use multi_threaded_dpi_engin.Base.{
  ℕ, Bool, true, false, not, ◌&&◌, ◌||◌, ◌∷◌, ◌++◌, ◌==◌, if◌then◌else◌, List, [], Option, none,
  some, ◌>>=◌, Bytes, bytes_eq, lower, map, decimal, length, ◌+◌,
}
use multi_threaded_dpi_engin.Base.Eq.{nat_eq, text_eq, contains, insert, erase}
use multi_threaded_dpi_engin.Types.App.{AppType, app_eq, app_name}
use Address.{parse_ip, ip_to_string}
use Domain.{domain_matches_pattern}

pub record RuleManager : Type 0 where
  pub blocked_ips : List ℕ
  pub blocked_apps : List AppType
  pub blocked_domains : List Bytes
  pub domain_patterns : List Bytes
  pub blocked_ports : List ℕ

abbrev pub no_rules : RuleManager
no_rules = record {
  blocked_ips = [];
  blocked_apps = [];
  blocked_domains = [];
  domain_patterns = [];
  blocked_ports = [];
}

-- `blockIP(uint32_t)` and `unblockIP(uint32_t)`
unfoldable pub block_address : ℕ → RuleManager → RuleManager
block_address ip m = record m { blocked_ips = insert ip m.blocked_ips }

unfoldable pub unblock_address : ℕ → RuleManager → RuleManager
unblock_address ip m = record m { blocked_ips = erase ip m.blocked_ips }

-- `blockIP(const std::string&)` and `unblockIP(const std::string&)`
unfoldable pub block_ip : Bytes → RuleManager → Option RuleManager
unfolding block_address
block_ip text m = do ip ← parse_ip text; some (block_address ip m)

unfoldable pub unblock_ip : Bytes → RuleManager → Option RuleManager
unfolding unblock_address
unblock_ip text m = do ip ← parse_ip text; some (unblock_address ip m)

unfoldable pub is_ip_blocked : ℕ → RuleManager → Bool
is_ip_blocked ip m = contains ip m.blocked_ips

-- `getBlockedIPs`
unfoldable pub get_blocked_ips : RuleManager → List Bytes
get_blocked_ips m = map ip_to_string m.blocked_ips

unfoldable pub block_app : AppType → RuleManager → RuleManager
block_app app m = record m { blocked_apps = insert app m.blocked_apps }

unfoldable pub unblock_app : AppType → RuleManager → RuleManager
unblock_app app m = record m { blocked_apps = erase app m.blocked_apps }

unfoldable pub is_app_blocked : AppType → RuleManager → Bool
is_app_blocked app m = contains app m.blocked_apps

-- `getBlockedApps`
unfoldable pub get_blocked_apps : RuleManager → List AppType
get_blocked_apps m = m.blocked_apps

-- `domain.find('*') != npos`
unfoldable pub has_star : Bytes → Bool
has_star s = contains b'*' s

unfoldable pub block_domain : Bytes → RuleManager → RuleManager
unfolding has_star
block_domain domain m =
    if has_star domain
    then record m { domain_patterns = m.domain_patterns ++ domain ∷ [] }
    else record m { blocked_domains = insert domain m.blocked_domains }

-- `std::find` and `vector::erase`: the first occurrence goes.
unfoldable pub erase_first : Bytes → List Bytes → List Bytes
erase_first d [] = []
erase_first d (p ∷ ps) = if bytes_eq p d then ps else p ∷ erase_first d ps

unfoldable pub unblock_domain : Bytes → RuleManager → RuleManager
unfolding has_star
unblock_domain domain m =
    if has_star domain
    then record m { domain_patterns = erase_first domain m.domain_patterns }
    else record m { blocked_domains = erase domain m.blocked_domains }

-- The loop of `isDomainBlocked` over the patterns.
unfoldable pub any_pattern : Bytes → List Bytes → Bool
any_pattern lower_domain [] = false
any_pattern lower_domain (p ∷ ps) =
    domain_matches_pattern lower_domain (lower p) || any_pattern lower_domain ps

unfoldable pub is_domain_blocked : Bytes → RuleManager → Bool
unfolding any_pattern
is_domain_blocked domain m =
    contains domain m.blocked_domains || any_pattern (lower domain) m.domain_patterns

-- `getBlockedDomains`
unfoldable pub get_blocked_domains : RuleManager → List Bytes
get_blocked_domains m = m.blocked_domains ++ m.domain_patterns

unfoldable pub block_port : ℕ → RuleManager → RuleManager
block_port port m = record m { blocked_ports = insert port m.blocked_ports }

unfoldable pub unblock_port : ℕ → RuleManager → RuleManager
unblock_port port m = record m { blocked_ports = erase port m.blocked_ports }

unfoldable pub is_port_blocked : ℕ → RuleManager → Bool
is_port_blocked port m = contains port m.blocked_ports

-- `struct BlockReason` with its `type` as the constructor and its `detail` as the argument.
pub data BlockReason : Type 0 where
  ip app domain port : Bytes → BlockReason

abbrev is_empty : Bytes → Bool
is_empty [] = true
is_empty (_ ∷ _) = false

-- `shouldBlock`
unfoldable pub should_block : ℕ → ℕ → AppType → Bytes → RuleManager → Option BlockReason
unfolding is_ip_blocked is_port_blocked is_app_blocked
should_block src_ip dst_port app_type name m =
    if is_ip_blocked src_ip m
    then some (ip (ip_to_string src_ip))
    else if is_port_blocked dst_port m
    then some (port (decimal dst_port))
    else if is_app_blocked app_type m
    then some (app (app_name app_type))
    else if not (is_empty name) && is_domain_blocked name m
    then some (domain name)
    else none

-- `clearAll`
unfoldable pub clear_all : RuleManager → RuleManager
clear_all m = record m {
  blocked_ips = [];
  blocked_apps = [];
  blocked_domains = [];
  domain_patterns = [];
  blocked_ports = [];
}

pub record RuleStats : Type 0 where
  pub ips : ℕ
  pub apps : ℕ
  pub domains : ℕ
  pub ports : ℕ

-- `getStats`
unfoldable pub get_stats : RuleManager → RuleStats
get_stats m = record {
  ips = length m.blocked_ips;
  apps = length m.blocked_apps;
  domains = length m.blocked_domains + length m.domain_patterns;
  ports = length m.blocked_ports;
}

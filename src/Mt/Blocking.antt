-- ===== src/Mt/Blocking.antt =====
-- `class Rules` of src/dpi_mt.cpp, which is `BlockingRules` of src/main_working.cpp without its lock.
use multi_threaded_dpi_engin.Base.{
  ℕ, Bool, false, ◌||◌, List, [], ◌∷◌, ◌++◌, Option, none, some, ◌>>=◌, Bytes, contains_text,
}
use multi_threaded_dpi_engin.Base.Eq.{nat_eq, contains, insert}
use multi_threaded_dpi_engin.Types.App.{AppType, app_eq, app_of_name}
use multi_threaded_dpi_engin.Rules.Address.{parse_ip}

pub record BlockingRules : Type 0 where
  pub blocked_ips : List ℕ
  pub blocked_apps : List AppType
  pub blocked_domains : List Bytes

abbrev pub no_rules : BlockingRules
no_rules = record { blocked_ips = []; blocked_apps = []; blocked_domains = [] }

-- `blockIP`; its parseIP is that of the rule manager.
unfoldable pub block_ip : Bytes → BlockingRules → Option BlockingRules
block_ip ip r = do addr ← parse_ip ip; some (record r { blocked_ips = insert addr r.blocked_ips })

-- `blockApp`; an unknown name changes nothing.
unfoldable pub block_app : Bytes → BlockingRules → BlockingRules
block_app app r = elim (app_of_name app) [
  | none ↦ r
  | some known ↦ record r { blocked_apps = insert known r.blocked_apps }
]

-- `blockDomain`
unfoldable pub block_domain : Bytes → BlockingRules → BlockingRules
block_domain domain r = record r { blocked_domains = r.blocked_domains ++ domain ∷ [] }

-- The loop over the domains.
unfoldable pub any_domain : List Bytes → Bytes → Bool
any_domain [] sni = false
any_domain (dom ∷ doms) sni = contains_text dom sni || any_domain doms sni

-- `isBlocked`
unfoldable pub is_blocked : ℕ → AppType → Bytes → BlockingRules → Bool
unfolding any_domain
is_blocked src_ip app sni r =
    contains src_ip r.blocked_ips || contains app r.blocked_apps || any_domain r.blocked_domains sni

-- ===== src/Engine/Api.antt =====
-- The calls by which a program changes the rules of a `DPIEngine` of src/dpi_engine.cpp. The engine has
-- no rule manager, `none`, before `initialize`, and a call does nothing then.
use multi_threaded_dpi_engin.Base.{Bool, false, Option, none, some, ◌>>=◌, Bytes}
use multi_threaded_dpi_engin.Types.App.{AppType, app_of_name}
use multi_threaded_dpi_engin.Rules as Rules
use multi_threaded_dpi_engin.Rules.{RuleManager, no_rules}
use multi_threaded_dpi_engin.Rules.Files as Files

-- `if (rule_manager_) ...`
abbrev pub if_managed : (RuleManager → RuleManager) → Option RuleManager → Option RuleManager
if_managed f none = none
if_managed f (some m) = some (f m)

abbrev try_managed :
    (RuleManager → Option RuleManager) → Option RuleManager → Option (Option RuleManager)
try_managed f none = some none
try_managed f (some m) = (f m >>= λ r. some (some r))

-- `blockIP` and `unblockIP`; the outer `none` is undefined behaviour of the text of an address.
unfoldable pub block_ip : Bytes → Option RuleManager → Option (Option RuleManager)
block_ip ip = try_managed (Rules.block_ip ip)

unfoldable pub unblock_ip : Bytes → Option RuleManager → Option (Option RuleManager)
unblock_ip ip = try_managed (Rules.unblock_ip ip)

-- `blockApp(AppType)` and `unblockApp(AppType)`
unfoldable pub block_app : AppType → Option RuleManager → Option RuleManager
block_app app = if_managed (Rules.block_app app)

unfoldable pub unblock_app : AppType → Option RuleManager → Option RuleManager
unblock_app app = if_managed (Rules.unblock_app app)

-- `blockApp(const std::string&)` and `unblockApp(const std::string&)`: an unknown name changes nothing.
unfoldable pub block_app_named : Bytes → Option RuleManager → Option RuleManager
unfolding block_app
block_app_named name m = elim (app_of_name name) [ none ↦ m | some app ↦ block_app app m ]

unfoldable pub unblock_app_named : Bytes → Option RuleManager → Option RuleManager
unfolding unblock_app
unblock_app_named name m = elim (app_of_name name) [ none ↦ m | some app ↦ unblock_app app m ]

-- `blockDomain` and `unblockDomain`
unfoldable pub block_domain : Bytes → Option RuleManager → Option RuleManager
block_domain domain = if_managed (Rules.block_domain domain)

unfoldable pub unblock_domain : Bytes → Option RuleManager → Option RuleManager
unblock_domain domain = if_managed (Rules.unblock_domain domain)

-- `loadRules` of a file, which is `none` if it cannot be opened; the outer `none` is a throw.
unfoldable pub load_rules : Option Bytes → Option RuleManager → Option (Bool × Option RuleManager)
load_rules file none = some (false, none)
load_rules file (some m) = do (loaded, r) ← Files.load_rules file m; some (loaded, some r)

-- `saveRules`
unfoldable pub save_rules : Option Bytes → Option RuleManager → Bool × Option Bytes
save_rules file none = (false, file)
save_rules file (some m) = Files.save_rules file m

-- The rule manager behind `initialize`, with the file that the configuration names, if any.
unfoldable pub initialize_rules : Option (Option Bytes) → Option (Option RuleManager)
initialize_rules none = some (some no_rules)
initialize_rules (some file) = do (loaded, r) ← Files.load_rules file no_rules; some (some r)

-- ===== src/Command/Dpi.antt =====
-- `main` of src/main_dpi.cpp up to the call of `processFile`. `std::stoi` belongs to the C++ library
-- and is a parameter, as are the integers it gives; where it throws, it is `none`.
use multi_threaded_dpi_engin.Base.{
  Bool, true, ◌||◌, if◌then◌else◌, List, [], ◌∷◌, ◌++◌, Option, none, some, ◌>>=◌, Bytes, codes,
  bytes_eq,
}
use multi_threaded_dpi_engin.Rules.{RuleManager}
use multi_threaded_dpi_engin.Engine.Api.{
  block_ip, block_app_named, block_domain, load_rules, initialize_rules,
}

-- What the loop over the options collects.
pub record Options (I : Type 0) : Type 0 where
  pub num_load_balancers : I
  pub fps_per_lb : I
  pub verbose : Bool
  pub block_ips : List Bytes
  pub block_apps : List Bytes
  pub block_domains : List Bytes
  pub rules_file : Bytes

-- What a round does: `std::stoi` throws, `main` prints its usage and returns, or the round takes one
-- argument or two.
pub data Taken (I : Type 0) : Type 0 where
  throws help : Taken I
  one two : Options I → Taken I

module _ {I : Type 0} where
  -- The options that stand alone; any other argument is skipped.
  unfoldable pub take_flag : Bytes → Options I → Taken I
  take_flag arg o =
      if bytes_eq arg (codes "--verbose")
      then one (record o { verbose = true })
      else if bytes_eq arg (codes "--help") || bytes_eq arg (codes "-h")
      then help
      else one o

  with_number : Option I → (I → Options I) → Taken I
  with_number none f = throws
  with_number (some n) f = two (f n)

module _ {I : Type 0} (stoi : Bytes → Option I) where
  -- The `if`s of a round with an argument behind it.
  unfoldable pub take_option : Bytes → Bytes → Options I → Taken I
  unfolding take_flag with_number
  take_option arg next o =
      if bytes_eq arg (codes "--block-ip")
      then two (record o { block_ips = o.block_ips ++ next ∷ [] })
      else if bytes_eq arg (codes "--block-app")
      then two (record o { block_apps = o.block_apps ++ next ∷ [] })
      else if bytes_eq arg (codes "--block-domain")
      then two (record o { block_domains = o.block_domains ++ next ∷ [] })
      else if bytes_eq arg (codes "--rules")
      then two (record o { rules_file = next })
      else if bytes_eq arg (codes "--lbs")
      then with_number (stoi next) (λ n. record o { num_load_balancers = n })
      else if bytes_eq arg (codes "--fps")
      then with_number (stoi next) (λ n. record o { fps_per_lb = n })
      else take_flag arg o

  -- The loop over the options: the outer `none` is a throw, the inner one the end at the usage.
  unfoldable pub read_options : List Bytes → Options I → Option (Option (Options I))
  unfolding take_option take_flag
  read_options [] o = some (some o)
  read_options (arg ∷ []) o = elim (take_flag arg o) [
    | throws ↦ none
    | help ↦ some none
    | one more ↦ some (some more)
    | two more ↦ some (some more)
  ]
  read_options (arg ∷ (next ∷ rest)) o =
      let behind_one = read_options (next ∷ rest) in
      let behind_two = read_options rest in
      elim (take_option arg next o) [
        | throws ↦ none
        | help ↦ some none
        | one more ↦ behind_one more
        | two more ↦ behind_two more
      ]

-- The loops of `main` over what was collected.
unfoldable pub block_ips : List Bytes → Option RuleManager → Option (Option RuleManager)
block_ips [] m = some m
block_ips (ip ∷ ips) m = do blocked ← block_ip ip m; block_ips ips blocked

unfoldable pub block_apps : List Bytes → Option RuleManager → Option RuleManager
block_apps [] m = m
block_apps (app ∷ apps) m = block_apps apps (block_app_named app m)

unfoldable pub block_domains : List Bytes → Option RuleManager → Option RuleManager
block_domains [] m = m
block_domains (domain ∷ domains) m = block_domains domains (block_domain domain m)

-- if (!rules_file.empty()) ...
unfoldable pub load_named :
    (Bytes → Option Bytes) → Bytes → Option RuleManager → Option (Option RuleManager)
load_named files [] m = some m
load_named files (c ∷ name) m = do (loaded, r) ← load_rules (files (c ∷ name)) m; some r

-- The rules of the engine when `main` calls `processFile`.
unfoldable pub configure :
    {I : Type 0} → (Bytes → Option Bytes) → Options I → Option (Option RuleManager)
unfolding block_ips block_apps block_domains load_named initialize_rules
configure files o = do
  fresh ← initialize_rules none
  loaded ← load_named files o.rules_file fresh
  with_ips ← block_ips o.block_ips loaded
  some (block_domains o.block_domains (block_apps o.block_apps with_ips))

-- ===== src/Mt/Options.antt =====
-- The command line of src/dpi_mt.cpp behind its two file names, and the rules that `main` makes of it.
-- `std::stoi` belongs to the C++ library and is a parameter, as are the integers it gives; where it
-- throws, it is `none`.
use multi_threaded_dpi_engin.Base.{
  ℕ, ◌<◌, ◌^◌, ◌≡◌, ◌≢◌, ◌∙◌, if◌then◌else◌, List, [], ◌∷◌, ◌++◌, map, Option, none, some, ◌>>=◌,
  Bytes, codes, bytes_eq, append_assoc, append-nil,
}
use multi_threaded_dpi_engin.Base.Eq.{nat_eq}
use multi_threaded_dpi_engin.Types.App.{AppType, app_eq, app_count, app_name}
use multi_threaded_dpi_engin.Rules.Address.{ip_to_string}
use multi_threaded_dpi_engin.Mt.Blocking.{
  BlockingRules, no_rules, block_ip, block_app, block_domain,
}

-- What the loop over the options collects; `num_lbs` and `fps_per_lb` are fields of the `Config`.
pub record Options (I : Type 0) : Type 0 where
  pub block_ips : List Bytes
  pub block_apps : List Bytes
  pub block_domains : List Bytes
  pub num_lbs : I
  pub fps_per_lb : I

module _ {I : Type 0} (stoi : Bytes → Option I) where
  -- The `if`s of a round with an argument behind it: `some none` is an argument that is skipped.
  unfoldable pub take_option : Bytes → Bytes → Options I → Option (Option (Options I))
  take_option arg next o =
      if bytes_eq arg (codes "--block-ip")
      then some (some (record o { block_ips = o.block_ips ++ next ∷ [] }))
      else if bytes_eq arg (codes "--block-app")
      then some (some (record o { block_apps = o.block_apps ++ next ∷ [] }))
      else if bytes_eq arg (codes "--block-domain")
      then some (some (record o { block_domains = o.block_domains ++ next ∷ [] }))
      else if bytes_eq arg (codes "--lbs")
      then (stoi next >>= λ n. some (some (record o { num_lbs = n })))
      else if bytes_eq arg (codes "--fps")
      then (stoi next >>= λ n. some (some (record o { fps_per_lb = n })))
      else some none

  -- The loop over the arguments.
  unfoldable pub read_options : List Bytes → Options I → Option (Options I)
  unfolding take_option
  read_options [] o = some o
  read_options (arg ∷ []) o = some o
  read_options (arg ∷ (next ∷ rest)) o =
      let skipped = read_options (next ∷ rest) o in
      let taken = read_options rest in
      elim (take_option arg next o) [
        | none ↦ none
        | some none ↦ skipped
        | some (some more) ↦ taken more
      ]

-- The loops of `main` over what was collected.
unfoldable pub block_ips : List Bytes → BlockingRules → Option BlockingRules
unfolding block_ip
block_ips [] r = some r
block_ips (ip ∷ ips) r = do blocked ← block_ip ip r; block_ips ips blocked

unfoldable pub block_apps : List Bytes → BlockingRules → BlockingRules
unfolding block_app
block_apps [] r = r
block_apps (app ∷ apps) r = block_apps apps (block_app app r)

unfoldable pub block_domains : List Bytes → BlockingRules → BlockingRules
unfolding block_domain
block_domains [] r = r
block_domains (dom ∷ doms) r = block_domains doms (block_domain dom r)

-- The rules of the engine that `main` starts.
unfoldable pub configure : {I : Type 0} → Options I → Option BlockingRules
unfolding block_ips block_apps block_domains
configure o = do
  with_ips ← block_ips o.block_ips no_rules
  some (block_domains o.block_domains (block_apps o.block_apps with_ips))

-- The options that block, and the arguments that a user gives for them.
pub data Argument : Type 0 where
  ip_argument : ℕ → Argument
  app_argument : AppType → Argument
  domain_argument : Bytes → Argument

abbrev pub render : List Argument → List Bytes
render [] = []
render (ip_argument ip ∷ args) = codes "--block-ip" ∷ (ip_to_string ip ∷ render args)
render (app_argument app ∷ args) = codes "--block-app" ∷ (app_name app ∷ render args)
render (domain_argument dom ∷ args) = codes "--block-domain" ∷ (dom ∷ render args)

abbrev pub AllValid : List Argument → Type 0
AllValid [] = Unit
AllValid (ip_argument ip ∷ args) = (ip < 2 ^ 32) × AllValid args
AllValid (app_argument app ∷ args) = (app ≢ app_count) × AllValid args
AllValid (domain_argument dom ∷ args) = AllValid args

abbrev pub ips_of : List Argument → List ℕ
ips_of [] = []
ips_of (ip_argument ip ∷ args) = ip ∷ ips_of args
ips_of (app_argument _ ∷ args) = ips_of args
ips_of (domain_argument _ ∷ args) = ips_of args

abbrev pub apps_of : List Argument → List AppType
apps_of [] = []
apps_of (ip_argument _ ∷ args) = apps_of args
apps_of (app_argument app ∷ args) = app ∷ apps_of args
apps_of (domain_argument _ ∷ args) = apps_of args

abbrev pub domains_of : List Argument → List Bytes
domains_of [] = []
domains_of (ip_argument _ ∷ args) = domains_of args
domains_of (app_argument _ ∷ args) = domains_of args
domains_of (domain_argument dom ∷ args) = dom ∷ domains_of args

-- The options that hold all of this.
abbrev pub collected : {I : Type 0} → List Argument → Options I → Options I
collected args o = record o {
  block_ips = o.block_ips ++ map ip_to_string (ips_of args);
  block_apps = o.block_apps ++ map app_name (apps_of args);
  block_domains = o.block_domains ++ domains_of args;
}

pub read_options-render :
    {I : Type 0} (stoi : Bytes → Option I) (args : List Argument) (o : Options I)
    → read_options stoi (render args) o ≡ some (collected args o)
unfolding read_options bytes_eq
read_options-render stoi [] o =
    rw (append-nil o.block_ips, append-nil o.block_apps, append-nil o.block_domains)
read_options-render stoi (ip_argument ip ∷ args) o =
    read_options-render stoi args _
    ∙ rw (append_assoc o.block_ips (ip_to_string ip ∷ []) (map ip_to_string (ips_of args)))
read_options-render stoi (app_argument app ∷ args) o =
    read_options-render stoi args _
    ∙ rw (append_assoc o.block_apps (app_name app ∷ []) (map app_name (apps_of args)))
read_options-render stoi (domain_argument dom ∷ args) o =
    read_options-render stoi args _ ∙ rw (append_assoc o.block_domains (dom ∷ []) (domains_of args))

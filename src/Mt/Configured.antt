-- ===== src/Mt/Configured.antt =====
-- The rules of an engine of src/dpi_mt.cpp that was started with options, from the command line to
-- the check of a packet.
use multi_threaded_dpi_engin.Base.{
  ℕ, ◌≡◌, ◌≢◌, refl, ap, ◌∙◌, ◌||◌, List, [], ◌∷◌, ◌++◌, map, Option, some, ◌>>=◌, arith, Bytes,
  append_assoc, append-nil, contains_text,
}
use multi_threaded_dpi_engin.Base.Eq.{Eq, nat_eq, contains, insert, contains-insert}
use multi_threaded_dpi_engin.Types.App.{AppType, app_eq, app_count, app_name, app_of_name-app_name}
use multi_threaded_dpi_engin.Rules.Address.{ip_to_string, parse_ip-ip_to_string}
use multi_threaded_dpi_engin.Mt.Blocking.{
  BlockingRules, no_rules, block_ip, block_app, block_domain, any_domain, is_blocked,
}
use multi_threaded_dpi_engin.Mt.Options.{
  Options, read_options, block_ips, block_apps, block_domains, configure, Argument, ip_argument,
  app_argument, domain_argument, render, AllValid, ips_of, apps_of, domains_of, read_options-render,
}

module _ {A : Type 0} ⦃e : Eq A⦄ where
  abbrev insert_all : List A → List A → List A
  insert_all [] xs = xs
  insert_all (a ∷ added) xs = insert_all added (insert a xs)

  contains-insert_all :
      (b : A) (added xs : List A)
      → contains b (insert_all added xs) ≡ (contains b xs || contains b added)
  unfolding contains
  contains-insert_all b [] xs = ground arith
  contains-insert_all b (a ∷ added) xs =
      ground (arith, contains-insert_all b added (insert a xs), contains-insert b a xs)

any_domain-append :
    (xs ys : List Bytes) (sni : Bytes)
    → any_domain (xs ++ ys) sni ≡ (any_domain xs sni || any_domain ys sni)
unfolding any_domain
any_domain-append [] ys sni = refl
any_domain-append (x ∷ xs) ys sni = ground (arith, any_domain-append xs ys sni)

block_ips-map :
    (args : List Argument) (r : BlockingRules)
    → AllValid args
    → block_ips (map ip_to_string (ips_of args)) r
      ≡ some (record r { blocked_ips = insert_all (ips_of args) r.blocked_ips })
unfolding block_ips block_ip
block_ips-map [] r h = refl
block_ips-map (ip_argument ip ∷ args) r h =
    rw (parse_ip-ip_to_string ip h.0) (block_ips-map args _ h.1)
block_ips-map (app_argument app ∷ args) r h = block_ips-map args r h.1
block_ips-map (domain_argument dom ∷ args) r h = block_ips-map args r h

block_app-app_name :
    (app : AppType) (r : BlockingRules)
    → app ≢ app_count
    → block_app (app_name app) r ≡ record r { blocked_apps = insert app r.blocked_apps }
unfolding block_app
block_app-app_name app r h = rw (block_app, app_of_name-app_name app h)

block_apps-map :
    (args : List Argument) (r : BlockingRules)
    → AllValid args
    → block_apps (map app_name (apps_of args)) r
      ≡ record r { blocked_apps = insert_all (apps_of args) r.blocked_apps }
unfolding block_apps
block_apps-map [] r h = refl
block_apps-map (ip_argument ip ∷ args) r h = block_apps-map args r h.1
block_apps-map (app_argument app ∷ args) r h =
    ap (block_apps (map app_name (apps_of args))) (block_app-app_name app r h.0)
    ∙ block_apps-map args _ h.1
block_apps-map (domain_argument dom ∷ args) r h = block_apps-map args r h

block_domains-append :
    (doms : List Bytes) (r : BlockingRules)
    → block_domains doms r ≡ record r { blocked_domains = r.blocked_domains ++ doms }
unfolding block_domains block_domain
block_domains-append [] r = rw (append-nil r.blocked_domains)
block_domains-append (dom ∷ doms) r =
    block_domains-append doms _ ∙ rw (append_assoc r.blocked_domains (dom ∷ []) doms)

-- A rule for a name adds the names that contain it: an empty name thus blocks every packet.
pub is_blocked-block_domain :
    (src : ℕ) (app : AppType) (sni dom : Bytes) (r : BlockingRules)
    → is_blocked src app sni (block_domain dom r)
      ≡ (is_blocked src app sni r || contains_text dom sni)
unfolding is_blocked block_domain any_domain
is_blocked-block_domain src app sni dom r =
    ground (arith, any_domain-append r.blocked_domains (dom ∷ []) sni)

-- No rules at the start.
abbrev pub defaults : {I : Type 0} → I → I → Options I
defaults lbs fps = record {
  block_ips = [];
  block_apps = [];
  block_domains = [];
  num_lbs = lbs;
  fps_per_lb = fps;
}

-- From the command line to the verdict: with any blocking options, in any order and number, for
-- addresses of 32 bits in dotted form, names of applications and texts, the options are read
-- without an error and whatever numbers `std::stoi` knows, and the engine's rules block a packet just
-- where its source is among the addresses, its application among the applications, or one of the
-- texts stands in its name.
pub configure-is_blocked :
    {I : Type 0} (stoi : Bytes → Option I) (lbs fps : I) (args : List Argument)
    → AllValid args
    → (rules : BlockingRules) × (read_options stoi (render args) (defaults lbs fps) >>= configure
        ≡ some rules)
      × ((src : ℕ) (app : AppType) (sni : Bytes)
          → is_blocked src app sni rules ≡ (
              contains src (ips_of args)
              || contains app (apps_of args)
              || any_domain (domains_of args) sni))
unfolding configure
configure-is_blocked stoi lbs fps args valid = (
  record {
    blocked_ips = insert_all (ips_of args) [];
    blocked_apps = insert_all (apps_of args) [];
    blocked_domains = domains_of args;
  },
  rw (
    read_options-render stoi args (defaults lbs fps),
    block_ips-map args no_rules valid,
    block_apps-map args _ valid,
    block_domains-append (domains_of args) _,
  ),
  (λ src app sni.
      unfold is_blocked contains in
      ground (
        arith,
        contains-insert_all src (ips_of args) [],
        contains-insert_all app (apps_of args) [],
      )),
)

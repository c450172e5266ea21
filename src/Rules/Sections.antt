-- ===== src/Rules/Sections.antt =====
-- How `loadRules` of src/rule_manager.cpp takes the lines of one section of a rules file.
use multi_threaded_dpi_engin.Base.{
  AllOf, ℕ, ◌^◌, ◌<◌, ◌≡◌, ◌≢◌, refl, ap, List, [], ◌∷◌, ◌++◌, map, some, Bytes, bytes_eq, decimal,
}
use multi_threaded_dpi_engin.Base.Eq.{nat_eq, text_eq, contains}
use multi_threaded_dpi_engin.Types.App.{AppType, app_count, app_eq, app_name, app_of_name-app_name}
use multi_threaded_dpi_engin.Rules.{
  RuleManager, block_ip, block_address, block_app, block_domain, block_port,
}
use multi_threaded_dpi_engin.Rules.Address.{ip_to_string, parse_ip-ip_to_string}
use multi_threaded_dpi_engin.Rules.Files.{
  load_app, load_rule, load_line, load_lines, ips_header, apps_header, domains_header, ports_header,
}
use multi_threaded_dpi_engin.Rules.Lines.{
  OneLine, RuleLine, RuleLine-OneLine, RuleLine-append, decimal-RuleLine, port_of-decimal,
}

-- Lines that each add one rule in a section add all of them.
abbrev pub add_all :
    {A : Type 0} → (A → RuleManager → RuleManager) → List A → RuleManager → RuleManager
add_all op [] m = m
add_all op (x ∷ xs) m = add_all op xs (op x m)

load_line-rule :
    (section l : Bytes) (m r : RuleManager)
    → RuleLine l
    → load_rule section l m ≡ some r
    → load_line section l m ≡ some (section, r)
unfolding load_line
load_line-rule section [] m r h e = absurd h
load_line-rule section (c ∷ cs) m r h e = rw (h.0, e) refl

module _ {A : Type 0} (section : Bytes) (text : A → Bytes) (op : A → RuleManager → RuleManager)
    (Ok : A → Type 0) (line : (x : A) → Ok x → RuleLine (text x))
    (adds : (x : A) → Ok x → (m : RuleManager) → load_rule section (text x) m ≡ some (op x m)) where
  pub load_lines-section :
      (xs : List A) (ls : List Bytes) (m : RuleManager)
      → AllOf Ok xs
      → load_lines section (map text xs ++ ls) m ≡ load_lines section ls (add_all op xs m)
  unfolding load_lines
  load_lines-section [] ls m h = refl
  load_lines-section (x ∷ xs) ls m h =
      rw (load_line-rule section (text x) m (op x m) (line x h.0) (adds x h.0 m))
        (load_lines-section xs ls (op x m) h.1)

  pub map-AllOf : (xs : List A) → AllOf Ok xs → AllOf OneLine (map text xs)
  map-AllOf [] h = tt
  map-AllOf (x ∷ xs) h = (RuleLine-OneLine (text x) (line x h.0), map-AllOf xs h.1)

pub append-AllOf :
    {A : Type 0} → (P : A → Type 0) (xs ys : List A) → AllOf P xs → AllOf P ys → AllOf P (xs ++ ys)
append-AllOf P [] ys h k = k
append-AllOf P (x ∷ xs) ys h k = (h.0, append-AllOf P xs ys h.1 k)

pub ip_to_string-RuleLine : (ip : ℕ) → RuleLine (ip_to_string ip)
unfolding ip_to_string
ip_to_string-RuleLine ip = RuleLine-append (decimal _) _ (decimal-RuleLine _) (quad _ _ _)
  where
    dot : (l : Bytes) → OneLine l → OneLine (b'.' ∷ l)
    dot l h = unfold contains in h

    quad : (x y z : ℕ) → OneLine (b'.' ∷ (decimal x ++ (b'.' ∷ (decimal y ++ (b'.' ∷ decimal z)))))
    quad x y z =
        let last : OneLine (decimal z) = RuleLine-OneLine _ (decimal-RuleLine z) in
        let two : OneLine (decimal y ++ (b'.' ∷ decimal z)) =
          RuleLine-OneLine _
            (RuleLine-append (decimal y) (b'.' ∷ decimal z) (decimal-RuleLine y) (dot _ last)) in
        dot _ (RuleLine-OneLine _ (RuleLine-append (decimal x) _ (decimal-RuleLine x) (dot _ two)))

pub app_name-RuleLine : (a : AppType) → RuleLine (app_name a)
unfolding app_name contains
app_name-RuleLine app_count = (refl, refl)
app_name-RuleLine _ = (refl, refl)

pub load_rule-ip :
    (ip : ℕ)
    → ip < 2 ^ 32
    → (m : RuleManager) → load_rule ips_header (ip_to_string ip) m ≡ some (block_address ip m)
unfolding load_rule bytes_eq block_ip
load_rule-ip ip h m = rw (parse_ip-ip_to_string ip h) refl

load_app-app_name :
    (a : AppType) → a ≢ app_count → (m : RuleManager) → load_app (app_name a) m ≡ block_app a m
unfolding load_app block_app
load_app-app_name a h m = rw (load_app, app_of_name-app_name a h) refl

pub load_rule-app :
    (a : AppType)
    → a ≢ app_count
    → (m : RuleManager) → load_rule apps_header (app_name a) m ≡ some (block_app a m)
unfolding load_rule bytes_eq
load_rule-app a h m = ap some (load_app-app_name a h m)

pub load_rule-domain :
    (d : Bytes)
    → RuleLine d
    → (m : RuleManager) → load_rule domains_header d m ≡ some (block_domain d m)
unfolding load_rule bytes_eq
load_rule-domain d h m = refl

pub load_rule-port :
    (p : ℕ)
    → p < 2 ^ 16
    → (m : RuleManager) → load_rule ports_header (decimal p) m ≡ some (block_port p m)
unfolding load_rule bytes_eq
load_rule-port p h m = rw (port_of-decimal p h) refl

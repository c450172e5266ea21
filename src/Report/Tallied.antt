-- ===== src/Report/Tallied.antt =====
-- What `forEach` of src/connection_tracker.cpp leaves in the two maps of `getGlobalStats`.
use multi_threaded_dpi_engin.Base.{
  ℕ, ◌+◌, Bool, false, if◌then◌else◌, List, [], ◌∷◌, ◌++◌, Bytes, bytes_eq, length, ◌≡◌, refl,
  arith, ◌∙◌,
}
use multi_threaded_dpi_engin.Base.Eq.{text_eq}
use multi_threaded_dpi_engin.Base.Assoc.{at_key, total, total-count}
use multi_threaded_dpi_engin.Base.Counters.{count_up, at_key-count_up, KeysOnce, put-KeysOnce}
use multi_threaded_dpi_engin.Types.App.{AppType, app_eq, app_beq}
use multi_threaded_dpi_engin.Types.{Connection}
use multi_threaded_dpi_engin.Report.Table.{Tally, count_domain, count_connection, for_each}

-- The number of connections that a test picks.
abbrev pub count_if : (Connection → Bool) → List Connection → ℕ
count_if p [] = 0
count_if p (c ∷ cs) = (if p c then 1 else 0) + count_if p cs

pub count_if-append :
    (p : Connection → Bool) (cs ds : List Connection)
    → count_if p (cs ++ ds) ≡ count_if p cs + count_if p ds
count_if-append p [] ds = omega arith
count_if-append p (c ∷ cs) ds = omega (arith, count_if-append p cs ds)

abbrev pub has_app : AppType → Connection → Bool
has_app a c = app_beq c.app_type a

is_name : Bytes → Bytes → Bool
is_name d [] = false
is_name d (b ∷ name) = bytes_eq (b ∷ name) d

-- The connection's name is not empty, and it is this one.
unfoldable pub has_name : Bytes → Connection → Bool
unfolding is_name
has_name d c = is_name d c.sni

pub for_each-append :
    (cs ds : List Connection) (t : Tally) → for_each (cs ++ ds) t ≡ for_each ds (for_each cs t)
unfolding for_each count_connection
for_each-append [] ds t = refl
for_each-append (c ∷ cs) ds t = for_each-append cs ds _

pub for_each-app :
    (a : AppType) (cs : List Connection) (t : Tally)
    → at_key a 0 (for_each cs t).app_distribution
      ≡ at_key a 0 t.app_distribution + count_if (has_app a) cs
unfolding for_each count_connection
for_each-app a [] t = omega arith
for_each-app a (c ∷ cs) t =
    for_each-app a cs _ ∙ rw (at_key-count_up c.app_type a t.app_distribution) (omega arith)

at_key-count_domain :
    (d name : Bytes) (m : List (Bytes × ℕ))
    → at_key d 0 (count_domain name m) ≡ at_key d 0 m + (if is_name d name then 1 else 0)
unfolding count_domain is_name
at_key-count_domain d [] m = omega arith
at_key-count_domain d (b ∷ name) m = at_key-count_up (b ∷ name) d m

pub for_each-domain :
    (d : Bytes) (cs : List Connection) (t : Tally)
    → at_key d 0 (for_each cs t).domain_counts
      ≡ at_key d 0 t.domain_counts + count_if (has_name d) cs
unfolding for_each count_connection has_name
for_each-domain d [] t = omega arith
for_each-domain d (c ∷ cs) t =
    for_each-domain d cs _ ∙ rw (at_key-count_domain d c.sni t.domain_counts) (omega arith)

pub for_each-total :
    (cs : List Connection) (t : Tally)
    → total (for_each cs t).app_distribution ≡ total t.app_distribution + length cs
unfolding for_each count_connection count_up
for_each-total [] t = omega arith
for_each-total (c ∷ cs) t =
    for_each-total cs _ ∙ omega (arith, total-count c.app_type t.app_distribution)

count_domain-KeysOnce :
    (name : Bytes) (m : List (Bytes × ℕ)) → KeysOnce m → KeysOnce (count_domain name m)
unfolding count_domain count_up
count_domain-KeysOnce [] m h = h
count_domain-KeysOnce (b ∷ name) m h = put-KeysOnce (b ∷ name) (at_key (b ∷ name) 0 m + 1) m h

-- Each application and each name is counted under one key.
pub record IsMap (t : Tally) : Type 0 where
  pub apps : KeysOnce t.app_distribution
  pub domains : KeysOnce t.domain_counts

pub for_each-IsMap : (cs : List Connection) (t : Tally) → IsMap t → IsMap (for_each cs t)
unfolding for_each count_connection count_up
for_each-IsMap [] t h = h
for_each-IsMap (c ∷ cs) t h = for_each-IsMap cs _ (record {
  apps =
      put-KeysOnce c.app_type (at_key c.app_type 0 t.app_distribution + 1) t.app_distribution
        h.apps;
  domains = count_domain-KeysOnce c.sni t.domain_counts h.domains;
})

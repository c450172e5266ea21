-- ===== src/Types/Classify/Shadow.antt =====
-- What the order of the tests in `sniToAppType` means.
use multi_threaded_dpi_engin.Base.{
  ℕ, true, [], ◌∷◌, ◌++◌, ◌≡◌, ◌≢◌, ◌⊎◌, inl, inr, refl, ap, arith, Bytes, codes, tolower, lower,
  lower_idem, contains_text, contains_text-append, append_assoc,
}
use mathlib.Core.List.{map-append}
use multi_threaded_dpi_engin.Types.App.{netflix, microsoft}
use multi_threaded_dpi_engin.Types.Classify.{
  has_any, twitter_names, lower_to_app_type, sni_to_app_type,
}

sni_to_app_type-append :
    (p : Bytes) (c : ℕ) (q : Bytes)
    → sni_to_app_type (p ++ c ∷ q) ≡ lower_to_app_type (lower (p ++ c ∷ q))
unfolding sni_to_app_type
sni_to_app_type-append [] c q = refl
sni_to_app_type-append (x ∷ p) c q = refl

lower-append : (a b : Bytes) → lower (a ++ b) ≡ lower a ++ lower b
unfolding lower
lower-append a b = map-append tolower a b

-- A text in the middle of a name is found in the lower-case copy.
lower_contains :
    (p before needle after q : Bytes)
    → contains_text (lower needle) (lower (p ++ ((before ++ (needle ++ after)) ++ q))) ≡ true
lower_contains p before needle after q = rw whole (contains_text-append _ _ _)
  where
    whole :
        lower (p ++ ((before ++ (needle ++ after)) ++ q))
        ≡ (lower p ++ lower before) ++ (lower needle ++ (lower after ++ lower q))
    whole = simp (lower-append, append_assoc)

has_twitter :
    (s : Bytes)
    → (contains_text (codes "x.com") s ≡ true) ⊎ (contains_text (codes "t.co") s ≡ true)
    → has_any twitter_names s ≡ true
unfolding has_any
has_twitter s h = ground arith

twitter_first :
    (s : Bytes)
    → has_any twitter_names s ≡ true
    → (lower_to_app_type s ≢ netflix) × (lower_to_app_type s ≢ microsoft)
unfolding lower_to_app_type
twitter_first s h = (ground arith, ground arith)

-- A server name does not depend on the case of its letters.
pub sni_to_app_type-lower : (s : Bytes) → sni_to_app_type (lower s) ≡ sni_to_app_type s
unfolding sni_to_app_type lower
sni_to_app_type-lower [] = refl
sni_to_app_type-lower (c ∷ cs) = ap lower_to_app_type (unfold lower in lower_idem (c ∷ cs))

-- No name that contains `netflix.com`, so spelled, is classified as Netflix, as it contains `x.com`, and none
-- that contains `microsoft.com` as Microsoft, as it contains `t.co`: Twitter is tested first.
pub sni_to_app_type-shadowed :
    (p q : Bytes)
    → (sni_to_app_type (p ++ (codes "netflix.com" ++ q)) ≢ netflix)
      × (sni_to_app_type (p ++ (codes "microsoft.com" ++ q)) ≢ microsoft)
unfolding lower
sni_to_app_type-shadowed p q = (
  rw (sni_to_app_type-append p b'n' (codes "etflix.com" ++ q)) (
      (twitter_first _
        (has_twitter _ (inl (lower_contains p (codes "netfli") (codes "x.com") [] q)))).0),
  rw (sni_to_app_type-append p b'm' (codes "icrosoft.com" ++ q)) (
      (twitter_first _ (
        has_twitter _ (inr (lower_contains p (codes "microsof") (codes "t.co") (codes "m") q)))).1),
)

-- ===== src/Rules/Answers.antt =====
-- What the checks of src/rule_manager.cpp answer behind many rules that were added one by one.
use multi_threaded_dpi_engin.Base.{
  AllOf, ℕ, ◌≡◌, refl, ◌∙◌, Bool, true, false, ◌||◌, ◌==◌, if◌then◌else◌, List, [], ◌∷◌, ◌++◌,
  Bytes, bytes_eq, lower, arith,
}
use multi_threaded_dpi_engin.Base.Eq.{nat_eq, text_eq, contains}
use multi_threaded_dpi_engin.Types.App.{AppType, app_eq, app_beq}
use multi_threaded_dpi_engin.Rules.{RuleManager, has_star, any_pattern}
use multi_threaded_dpi_engin.Rules.Domain.{domain_matches_pattern}
use multi_threaded_dpi_engin.Rules.Sections.{add_all}

-- Whether one of the rules covers what is asked for.
pub any_of : {A : Type 0} → (A → Bool) → List A → Bool
any_of test [] = false
any_of test (x ∷ xs) = test x || any_of test xs

-- What a check answers behind rules that each add their own test, and behind rules of another kind.
module _ {A : Type 0} (op : A → RuleManager → RuleManager) (answer : RuleManager → Bool) where
  pub answer-add_all :
      (test : A → Bool)
      → ((x : A) (m : RuleManager) → answer (op x m) ≡ (test x || answer m))
      → (xs : List A) (m : RuleManager) → answer (add_all op xs m) ≡ (any_of test xs || answer m)
  unfolding any_of
  answer-add_all test each [] m = refl
  answer-add_all test each (x ∷ xs) m =
      ground (arith, answer-add_all test each xs (op x m), each x m)

  pub answer-add_other :
      ((x : A) (m : RuleManager) → answer (op x m) ≡ answer m)
      → (xs : List A) (m : RuleManager) → answer (add_all op xs m) ≡ answer m
  answer-add_other same [] m = refl
  answer-add_other same (x ∷ xs) m = answer-add_other same xs (op x m) ∙ same x m

pub any_of-append :
    {A : Type 0}
    → (test : A → Bool) (xs ys : List A)
    → any_of test (xs ++ ys) ≡ (any_of test xs || any_of test ys)
unfolding any_of
any_of-append test [] ys = refl
any_of-append test (x ∷ xs) ys = ground (arith, any_of-append test xs ys)

-- The test of a domain rule.
abbrev pub covers : Bytes → Bytes → Bool
covers d rule =
    if has_star rule then domain_matches_pattern (lower d) (lower rule) else bytes_eq rule d

pub any_of-exact :
    (d : Bytes) (ds : List Bytes)
    → AllOf (λ x. has_star x ≡ false) ds
    → any_of (covers d) ds ≡ contains d ds
unfolding any_of contains
any_of-exact d [] h = refl
any_of-exact d (x ∷ ds) h = rw (h.0, any_of-exact d ds h.1) refl

pub any_of-patterns :
    (d : Bytes) (ps : List Bytes)
    → AllOf (λ x. has_star x ≡ true) ps
    → any_of (covers d) ps ≡ any_pattern (lower d) ps
unfolding any_of any_pattern
any_of-patterns d [] h = refl
any_of-patterns d (x ∷ ps) h = rw (h.0, any_of-patterns d ps h.1) refl

pub any_of-contains_nat : (a : ℕ) (xs : List ℕ) → any_of (λ x. x == a) xs ≡ contains a xs
unfolding any_of contains
any_of-contains_nat a [] = refl
any_of-contains_nat a (x ∷ xs) = rw (any_of-contains_nat a xs) refl

pub any_of-contains_app :
    (a : AppType) (xs : List AppType) → any_of (λ x. app_beq x a) xs ≡ contains a xs
unfolding any_of contains
any_of-contains_app a [] = refl
any_of-contains_app a (x ∷ xs) = rw (any_of-contains_app a xs) refl

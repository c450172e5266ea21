-- ===== src/Rules/Domain.antt =====
-- `RuleManager::domainMatchesPattern` of src/rule_manager.cpp, and what it means.
use multi_threaded_dpi_engin.Base.{
  ◌+◌, ◌-◌, ◌≡◌, refl, sym, ap, ◌∙◌, inl, inr, ◌⊎◌, ◌↔◌, Bool, true, false, ◌&&◌, ◌||◌, [], ◌∷◌,
  ◌++◌, arith, leb, ◌==◌, if◌then◌else◌, Bool-cases, Bytes, bytes_eq, bytes_eq_iff, length,
  length-append, drop, take, take-append-drop,
}

-- The domain ends with `suffix`: the test on the two sizes and `compare` at the difference.
ends_with : Bytes → Bytes → Bool
ends_with domain suffix =
    leb (length suffix) (length domain)
    && bytes_eq (drop (length domain - length suffix) domain) suffix

-- `pattern.size() >= 2 && pattern[0] == '*' && pattern[1] == '.'` is the match on the pattern;
-- `suffix` is `pattern.substr(1)` and `bare` is `pattern.substr(2)`.
unfoldable pub domain_matches_pattern : Bytes → Bytes → Bool
unfolding ends_with
domain_matches_pattern domain [] = false
domain_matches_pattern domain (star ∷ []) = false
domain_matches_pattern domain (star ∷ (dot ∷ bare)) =
    if star == b'*' && dot == b'.'
    then ends_with domain (dot ∷ bare) || bytes_eq domain bare
    else false

-- The domain is `base` itself or a name below it.
abbrev pub Under : Bytes → Bytes → Type 0
Under base domain = (domain ≡ base) ⊎ ((sub : Bytes) × (domain ≡ sub ++ (b'.' ∷ base)))

drop-append : (a b : Bytes) → drop (length a) (a ++ b) ≡ b
drop-append [] b = refl
drop-append (x ∷ a) b = drop-append a b

ends_with_iff : (d s : Bytes) → (ends_with d s ≡ true) ↔ ((a : Bytes) × (d ≡ a ++ s))
unfolding ends_with
ends_with_iff d s = (to, from)
  where
    to : ends_with d s ≡ true → (a : Bytes) × (d ≡ a ++ s)
    to h = (
      take (length d - length s) d,
      sym (take-append-drop (length d - length s) d)
          ∙ ap (λ (t : Bytes). take (length d - length s) d ++ t)
              ((bytes_eq_iff (drop (length d - length s) d) s).0 (ground arith)),
    )

    from : (a : Bytes) × (d ≡ a ++ s) → ends_with d s ≡ true
    from (a, e) =
        let n : length d ≡ length a + length s = ap length e ∙ length-append a s in
        let m : length d - length s ≡ length a = omega arith in
        let t : drop (length d - length s) d ≡ s = rw (m, e) (drop-append a s) in
        let q : bytes_eq (drop (length d - length s) d) s ≡ true = (bytes_eq_iff _ s).1 t in
        ground arith

-- A wildcard `*.base` matches `base` and every name below it, and nothing else.
pub domain_matches_pattern-Under :
    (domain base : Bytes)
    → (domain_matches_pattern domain (b'*' ∷ (b'.' ∷ base)) ≡ true) ↔ Under base domain
unfolding domain_matches_pattern
domain_matches_pattern-Under domain base = (to, from)
  where
    to : (ends_with domain (b'.' ∷ base) || bytes_eq domain base) ≡ true → Under base domain
    to h = elim (Bool-cases (ends_with domain (b'.' ∷ base))) [
      | inl e ↦ inr ((ends_with_iff domain (b'.' ∷ base)).0 e)
      | inr e ↦ inl ((bytes_eq_iff domain base).0 (rw e at h))
    ]

    from : Under base domain → (ends_with domain (b'.' ∷ base) || bytes_eq domain base) ≡ true
    from (inl e) = let q = (bytes_eq_iff domain base).1 e in ground arith
    from (inr p) = rw ((ends_with_iff domain (b'.' ∷ base)).1 p)

-- A pattern that does not begin with `*.` matches no domain, wherever its `*` stands.
pub domain_matches_pattern-other :
    (domain pattern : Bytes)
    → ((base : Bytes) → pattern ≡ b'*' ∷ (b'.' ∷ base) → ⊥)
    → domain_matches_pattern domain pattern ≡ false
unfolding domain_matches_pattern
domain_matches_pattern-other domain [] h = refl
domain_matches_pattern-other domain (star ∷ []) h = refl
domain_matches_pattern-other domain (star ∷ (dot ∷ bare)) h = ground (arith, h bare)

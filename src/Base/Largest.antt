-- ===== src/Base/Largest.antt =====
-- The keys of a map of counters that count most.
use Prim.Native.Nat.{ℕ, ◌≤◌}
use mathlib.Core.Path.{◌≡◌, sym, ap, ◌∙◌}
use mathlib.Core.Bool.{true}
use mathlib.Core.Logic.{◌⊎◌, inl, inr}
use mathlib.Core.List.{List, [], ◌∷◌}
use native.Mathlib.Omega.{arith}
use multi_threaded_dpi_engin.Base.Tests.{Bool-cases}
use multi_threaded_dpi_engin.Base.Lists.{AllOf, length, take, length-take}
use multi_threaded_dpi_engin.Base.Eq.{Eq}
use multi_threaded_dpi_engin.Base.Assoc.{at_key}
use multi_threaded_dpi_engin.Base.Counters.{has_key, KeysOnce, entries_true, absent_at_key}
use multi_threaded_dpi_engin.Base.Ranking.{
  sort_by_count, Descending, sort_by_count-AllOf, sort_by_count-Descending, has_key-sort_by_count,
  take-AllOf, take-Descending, take_all, take_largest,
}

module _ {K : Type 0} ⦃e : Eq K⦄ where
  -- A list of the most frequent keys, at most n: every count is right, the counts descend, and a
  -- key that is left out counts nothing, or the list is full and no entry of it counts less.
  pub record IsTop (n : ℕ) (f : K → ℕ) (top : List (K × ℕ)) : Type 0 where
    pub counted : AllOf (λ y. f y.0 ≡ y.1) top
    pub descending : Descending top
    pub bounded : length top ≤ n
    pub largest :
        (k : K) → (has_key k top ≡ true) ⊎ (f k ≡ 0) ⊎ (length top ≡ n) × AllOf (λ y. f k ≤ y.1) top

  found_all :
      (f : K → ℕ) (m xs : List (K × ℕ))
      → ((k : K) → at_key k 0 m ≡ f k)
      → AllOf (λ y. at_key y.0 0 m ≡ y.1) xs
      → AllOf (λ y. f y.0 ≡ y.1) xs
  found_all f m [] found h = h
  found_all f m (y ∷ xs) found h = (sym (found y.0) ∙ h.0, found_all f m xs found h.1)

  listed_at_key :
      (f : K → ℕ) (k : K) (xs : List (K × ℕ))
      → AllOf (λ y. f y.0 ≡ y.1) xs
      → has_key k xs ≡ true
      → f k ≡ at_key k 0 xs
  unfolding has_key at_key
  listed_at_key f k [] h there = ground arith
  listed_at_key f k ((l, w) ∷ xs) h there = elim (Bool-cases (e.beq l k)) [
    | inl same ↦ rw same (ap f (sym ((e.beq_iff l k).0 same)) ∙ h.0)
    | inr other ↦ rw other (listed_at_key f k xs h.1 (ground arith))
  ]

  module _ (n : ℕ) (f : K → ℕ) (m : List (K × ℕ)) (once : KeysOnce m)
      (found : (k : K) → at_key k 0 m ≡ f k) where
    sorted_true : AllOf (λ y. f y.0 ≡ y.1) (sort_by_count m)
    sorted_true =
        sort_by_count-AllOf (λ y. f y.0 ≡ y.1) m (found_all f m m found (entries_true m once))

    sorted_largest :
        (k : K)
        → (has_key k (take n (sort_by_count m)) ≡ true)
          ⊎ (f k ≡ 0)
          ⊎ (length (take n (sort_by_count m)) ≡ n)
            × AllOf (λ y. f k ≤ y.1) (take n (sort_by_count m))
    sorted_largest k = elim (Bool-cases (has_key k (sort_by_count m))) [
      | inr gone ↦
          inr (inl (sym (found k) ∙ absent_at_key k m (sym (has_key-sort_by_count k m) ∙ gone)))
      | inl there ↦
          elim (take_largest k n (f k) (sort_by_count m) (sort_by_count-Descending m)
            (listed_at_key f k (sort_by_count m) sorted_true there)) [
              | inl taken ↦ inl taken
              | inr below ↦ elim (take_all n (sort_by_count m)) [
                | inl full ↦ inr (inr (full, below))
                | inr all ↦ inl (ap (has_key k) all ∙ there)
              ]
            ]
    ]

    -- The first n entries in the order of the counts are such a list.
    pub take-IsTop : IsTop n f (take n (sort_by_count m))
    take-IsTop = record {
      counted = take-AllOf (λ y. f y.0 ≡ y.1) n (sort_by_count m) sorted_true;
      descending = take-Descending n (sort_by_count m) (sort_by_count-Descending m);
      bounded = omega (arith, length-take n (sort_by_count m));
      largest = sorted_largest;
    }

-- ===== src/Base/Ranking.antt =====
-- The entries of a map of counters, the largest count first, and the first few of them.
use Prim.Native.Nat.{ℕ, zero, suc, ◌+◌, ◌≤◌}
use mathlib.Core.Path.{◌≡◌, refl, ap, ◌∙◌}
use mathlib.Core.Bool.{true, ◌||◌}
use mathlib.Core.Logic.{◌⊎◌, inl, inr}
use mathlib.Core.List.{List, [], ◌∷◌}
use native.Mathlib.Omega.{arith}
use multi_threaded_dpi_engin.Base.Tests.{leb, if◌then◌else◌, Bool-cases}
use multi_threaded_dpi_engin.Base.Lists.{AllOf, length, take}
use multi_threaded_dpi_engin.Base.Eq.{Eq}
use multi_threaded_dpi_engin.Base.Assoc.{at_key, total}
use multi_threaded_dpi_engin.Base.Counters.{has_key}

module _ {K : Type 0} where
  -- The entry goes before the first one with a count that is not larger.
  place : K × ℕ → List (K × ℕ) → List (K × ℕ)
  place x [] = x ∷ []
  place x (y ∷ ys) = if leb y.1 x.1 then x ∷ y ∷ ys else y ∷ place x ys

  -- `std::sort(v.begin(), v.end(), [](a, b) { return a.second > b.second; })`, where entries with
  -- the same count keep their order.
  unfoldable pub sort_by_count : List (K × ℕ) → List (K × ℕ)
  unfolding place
  sort_by_count [] = []
  sort_by_count (x ∷ xs) = place x (sort_by_count xs)

  unfoldable pub Descending : List (K × ℕ) → Type 0
  Descending [] = Unit
  Descending (x ∷ xs) = AllOf (λ y. y.1 ≤ x.1) xs × Descending xs

  place-AllOf :
      (P : K × ℕ → Type 0) (x : K × ℕ) (ys : List (K × ℕ)) → P x → AllOf P ys → AllOf P (place x ys)
  unfolding place
  place-AllOf P x [] p h = (p, tt)
  place-AllOf P x (y ∷ ys) p h = elim (Bool-cases (leb y.1 x.1)) [
    | inl low ↦ rw low (p, h)
    | inr high ↦ rw high (h.0, place-AllOf P x ys p h.1)
  ]

  pub sort_by_count-AllOf :
      (P : K × ℕ → Type 0) (xs : List (K × ℕ)) → AllOf P xs → AllOf P (sort_by_count xs)
  unfolding sort_by_count
  sort_by_count-AllOf P [] h = h
  sort_by_count-AllOf P (x ∷ xs) h =
      place-AllOf P x (sort_by_count xs) h.0 (sort_by_count-AllOf P xs h.1)

  below_all :
      (m n : ℕ) (xs : List (K × ℕ)) → m ≤ n → AllOf (λ y. y.1 ≤ m) xs → AllOf (λ y. y.1 ≤ n) xs
  below_all m n [] f h = tt
  below_all m n (x ∷ xs) f h = (omega (arith, h.0), below_all m n xs f h.1)

  place-Descending : (x : K × ℕ) (ys : List (K × ℕ)) → Descending ys → Descending (place x ys)
  unfolding place Descending
  place-Descending x [] h = (tt, tt)
  place-Descending x (y ∷ ys) h = elim (Bool-cases (leb y.1 x.1)) [
    | inl low ↦
        let below : y.1 ≤ x.1 = ground arith in rw low ((below, below_all y.1 x.1 ys below h.0), h)
    | inr high ↦
        let above : x.1 ≤ y.1 = ground arith in
        rw high (place-AllOf (λ z. z.1 ≤ y.1) x ys above h.0, place-Descending x ys h.1)
  ]

  pub sort_by_count-Descending : (xs : List (K × ℕ)) → Descending (sort_by_count xs)
  unfolding Descending sort_by_count
  sort_by_count-Descending [] = tt
  sort_by_count-Descending (x ∷ xs) =
      place-Descending x (sort_by_count xs) (sort_by_count-Descending xs)

  total-place : (x : K × ℕ) (ys : List (K × ℕ)) → total (place x ys) ≡ x.1 + total ys
  unfolding place
  total-place x [] = refl
  total-place x (y ∷ ys) = elim (Bool-cases (leb y.1 x.1)) [
    | inl low ↦ rw low
    | inr high ↦ rw high (omega (arith, total-place x ys))
  ]

  pub total-sort_by_count : (xs : List (K × ℕ)) → total (sort_by_count xs) ≡ total xs
  unfolding sort_by_count
  total-sort_by_count [] = refl
  total-sort_by_count (x ∷ xs) =
      omega (arith, total-place x (sort_by_count xs), total-sort_by_count xs)

  pub take-AllOf :
      (P : K × ℕ → Type 0) (n : ℕ) (xs : List (K × ℕ)) → AllOf P xs → AllOf P (take n xs)
  take-AllOf P zero xs h = tt
  take-AllOf P (suc n) [] h = tt
  take-AllOf P (suc n) (x ∷ xs) h = (h.0, take-AllOf P n xs h.1)

  pub take-Descending : (n : ℕ) (xs : List (K × ℕ)) → Descending xs → Descending (take n xs)
  unfolding Descending
  take-Descending zero xs h = tt
  take-Descending (suc n) [] h = tt
  take-Descending (suc n) (x ∷ xs) h =
      (take-AllOf (λ y. y.1 ≤ x.1) n xs h.0, take-Descending n xs h.1)

  pub take_all : (n : ℕ) (xs : List (K × ℕ)) → (length (take n xs) ≡ n) ⊎ (take n xs ≡ xs)
  take_all zero xs = inl refl
  take_all (suc n) [] = inr refl
  take_all (suc n) (x ∷ xs) = elim (take_all n xs) [
    | inl full ↦ inl (ap suc full)
    | inr same ↦ inr (rw same)
  ]

module _ {K : Type 0} ⦃e : Eq K⦄ where
  has_key-place :
      (k : K) (x : K × ℕ) (ys : List (K × ℕ))
      → has_key k (place x ys) ≡ (e.beq x.0 k || has_key k ys)
  unfolding has_key place
  has_key-place k x [] = refl
  has_key-place k x (y ∷ ys) = elim (Bool-cases (leb y.1 x.1)) [
    | inl low ↦ rw low
    | inr high ↦ rw (high, has_key-place k x ys) (ground arith)
  ]

  pub has_key-sort_by_count :
      (k : K) (xs : List (K × ℕ)) → has_key k (sort_by_count xs) ≡ has_key k xs
  unfolding has_key sort_by_count
  has_key-sort_by_count k [] = refl
  has_key-sort_by_count k (x ∷ xs) =
      has_key-place k x (sort_by_count xs) ∙ rw (has_key-sort_by_count k xs)

  below_at_key : (k : K) (n : ℕ) (xs : List (K × ℕ)) → AllOf (λ y. y.1 ≤ n) xs → at_key k 0 xs ≤ n
  unfolding at_key
  below_at_key k n [] h = omega arith
  below_at_key k n ((l, w) ∷ xs) h = elim (Bool-cases (e.beq l k)) [
    | inl same ↦ rw same h.0
    | inr other ↦ rw other (below_at_key k n xs h.1)
  ]

  -- A key that is not among the first n counts no more than each of those.
  pub take_largest :
      (k : K) (n c : ℕ) (xs : List (K × ℕ))
      → Descending xs
      → c ≡ at_key k 0 xs
      → (has_key k (take n xs) ≡ true) ⊎ AllOf (λ y. c ≤ y.1) (take n xs)
  unfolding has_key at_key Descending
  take_largest k zero c xs h same = inr tt
  take_largest k (suc n) c [] h same = inr tt
  take_largest k (suc n) c ((l, w) ∷ xs) h same = elim (Bool-cases (e.beq l k)) [
    | inl here ↦ rw here (inl refl)
    | inr other ↦
        let beyond = same ∙ rw other in
        elim (take_largest k n c xs h.1 beyond) [
          | inl there ↦ rw (other, there) (inl refl)
          | inr below ↦ inr (omega (arith, beyond, below_at_key k w xs h.0), below)
        ]
  ]

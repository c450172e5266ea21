-- ===== src/Base/Assoc.antt =====
-- `std::unordered_map` as an association list, each key once, the newest last.
use Prim.Native.Nat.{ℕ, ◌+◌}
use mathlib.Core.Path.{◌≡◌, refl, sym, ◌∙◌}
use mathlib.Core.Logic.{◌≢◌, inl, inr}
use mathlib.Core.Option.{Option, none, some}
use mathlib.Core.List.{List, [], ◌∷◌}
use native.Mathlib.Omega.{arith}
use multi_threaded_dpi_engin.Base.Tests.{if◌then◌else◌, Bool-cases}
use multi_threaded_dpi_engin.Base.Eq.{Eq}

module _ {ℓ κ} {K : Type ℓ} {V : Type κ} ⦃e : Eq K⦄ where
  -- `find(k)`
  unfoldable pub find : K → List (K × V) → Option V
  find k [] = none
  find k ((l, v) ∷ xs) = if e.beq l k then some v else find k xs

  -- `map[k]`, where a key that is missing stands for the default value.
  unfoldable pub at_key : K → V → List (K × V) → V
  at_key k v [] = v
  at_key k v ((l, w) ∷ xs) = if e.beq l k then w else at_key k v xs

  -- `map[k] = v`
  unfoldable pub put : K → V → List (K × V) → List (K × V)
  put k v [] = (k, v) ∷ []
  put k v ((l, w) ∷ xs) = if e.beq l k then (l, v) ∷ xs else (l, w) ∷ put k v xs

  pub at_key-put_self : (k : K) (v d : V) (xs : List (K × V)) → at_key k d (put k v xs) ≡ v
  unfolding at_key put
  at_key-put_self k v d [] = rw ((e.beq_iff k k).1 refl)
  at_key-put_self k v d ((l, w) ∷ xs) = elim (Bool-cases (e.beq l k)) [
    | inl same ↦ rw (same, same)
    | inr other ↦ rw (other, other, at_key-put_self k v d xs)
  ]

  pub at_key-put_other :
      (k j : K) (v d : V) (xs : List (K × V)) → k ≢ j → at_key j d (put k v xs) ≡ at_key j d xs
  unfolding at_key put
  at_key-put_other k j v d [] h = elim (Bool-cases (e.beq k j)) [
    | inl same ↦ absurd (h ((e.beq_iff k j).0 same))
    | inr other ↦ rw other
  ]
  at_key-put_other k j v d ((l, w) ∷ xs) h = elim (Bool-cases (e.beq l k)) [
    | inl same ↦ elim (Bool-cases (e.beq l j)) [
      | inl too ↦ absurd (h (sym ((e.beq_iff l k).0 same) ∙ (e.beq_iff l j).0 too))
      | inr other ↦ rw (same, other)
    ]
    | inr differs ↦ elim (Bool-cases (e.beq l j)) [
      | inl same ↦ rw (differs, same)
      | inr other ↦ rw (differs, other, at_key-put_other k j v d xs h)
    ]
  ]

-- The sum of the values of a map of counters.
abbrev pub total {ℓ} : {K : Type ℓ} → List (K × ℕ) → ℕ
total [] = 0
total ((k, n) ∷ xs) = n + total xs

module _ {ℓ} {K : Type ℓ} ⦃e : Eq K⦄ where
  total-put :
      (k : K) (v : ℕ) (xs : List (K × ℕ)) → total (put k v xs) + at_key k 0 xs ≡ total xs + v
  unfolding at_key put
  total-put k v [] = omega arith
  total-put k v ((l, n) ∷ xs) = elim (Bool-cases (e.beq l k)) [
    | inl same ↦ rw same (omega arith)
    | inr other ↦ rw other (omega (arith, total-put k v xs))
  ]

  -- It goes up by one with each count.
  pub total-count :
      (k : K) (xs : List (K × ℕ)) → total (put k (at_key k 0 xs + 1) xs) ≡ total xs + 1
  total-count k xs = omega (arith, total-put k (at_key k 0 xs + 1) xs)

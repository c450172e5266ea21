-- ===== src/Base/Counters.antt =====
-- Maps of counters, `std::unordered_map<K, size_t>`.
use Prim.Native.Nat.{ℕ, ◌+◌}
use mathlib.Core.Path.{◌≡◌, refl, sym, ap, ◌∙◌}
use mathlib.Core.Bool.{Bool, false, ◌||◌}
use mathlib.Core.Logic.{inl, inr}
use mathlib.Core.List.{List, [], ◌∷◌}
use native.Mathlib.Omega.{arith}
use multi_threaded_dpi_engin.Base.Tests.{if◌then◌else◌, Bool-cases}
use multi_threaded_dpi_engin.Base.Lists.{AllOf}
use multi_threaded_dpi_engin.Base.Eq.{Eq}
use multi_threaded_dpi_engin.Base.Assoc.{at_key, put, at_key-put_self, at_key-put_other}

module _ {K : Type 0} ⦃e : Eq K⦄ where
  -- `map[k]++`
  unfoldable pub count_up : K → List (K × ℕ) → List (K × ℕ)
  count_up k m = put k (at_key k 0 m + 1) m

  pub at_key-count_up :
      (k j : K) (m : List (K × ℕ))
      → at_key j 0 (count_up k m) ≡ at_key j 0 m + (if e.beq k j then 1 else 0)
  unfolding count_up
  at_key-count_up k j m = elim (Bool-cases (e.beq k j)) [
    | inl same ↦
        let equal = (e.beq_iff k j).0 same in
        rw same (
          ap (λ i. at_key i 0 (put k (at_key k 0 m + 1) m)) (sym equal)
          ∙ at_key-put_self k (at_key k 0 m + 1) 0 m
          ∙ ap (λ i. at_key i 0 m + 1) equal)
    | inr other ↦ rw other (
        at_key-put_other k j (at_key k 0 m + 1) 0 m (λ f. ground (arith, (e.beq_iff k j).1 f))
        ∙ omega arith)
  ]

  -- `map.count(k) > 0`
  unfoldable pub has_key : K → List (K × ℕ) → Bool
  has_key k [] = false
  has_key k (x ∷ m) = e.beq x.0 k || has_key k m

  absent :
      (k : K) (x : K × ℕ) (m : List (K × ℕ))
      → has_key k (x ∷ m) ≡ false
      → (e.beq x.0 k ≡ false) × (has_key k m ≡ false)
  unfolding has_key
  absent k x m h = (ground arith, ground arith)

  beq_flip : (k j : K) → e.beq k j ≡ false → e.beq j k ≡ false
  beq_flip k j h = ground (arith, e.beq_iff k j, e.beq_iff j k)

  has_key-put :
      (k j : K) (v : ℕ) (m : List (K × ℕ)) → has_key j (put k v m) ≡ (e.beq k j || has_key j m)
  unfolding has_key put
  has_key-put k j v [] = refl
  has_key-put k j v ((l, w) ∷ m) = elim (Bool-cases (e.beq l k)) [
    | inl same ↦ rw same (ground (arith, e.beq_iff l k, e.beq_iff l j, e.beq_iff k j))
    | inr other ↦ rw (other, has_key-put k j v m) (ground arith)
  ]

  pub absent_at_key : (k : K) (m : List (K × ℕ)) → has_key k m ≡ false → at_key k 0 m ≡ 0
  unfolding has_key at_key
  absent_at_key k [] h = refl
  absent_at_key k ((l, w) ∷ m) h =
      let parts = absent k (l, w) m h in rw (parts.0, absent_at_key k m parts.1)

  -- Each key stands once.
  unfoldable pub KeysOnce : List (K × ℕ) → Type 0
  KeysOnce [] = Unit
  KeysOnce (x ∷ m) = (has_key x.0 m ≡ false) × KeysOnce m

  pub put-KeysOnce : (k : K) (v : ℕ) (m : List (K × ℕ)) → KeysOnce m → KeysOnce (put k v m)
  unfolding put has_key KeysOnce
  put-KeysOnce k v [] h = (refl, tt)
  put-KeysOnce k v ((l, w) ∷ m) h = elim (Bool-cases (e.beq l k)) [
    | inl same ↦ rw same h
    | inr other ↦ rw other (
      has_key-put k l v m ∙ ground (arith, h.0, e.beq_iff l k, e.beq_iff k l),
      put-KeysOnce k v m h.1,
    )
  ]

  entries_beyond :
      (l : K) (w : ℕ) (m n : List (K × ℕ))
      → has_key l m ≡ false
      → AllOf (λ y. at_key y.0 0 n ≡ y.1) m
      → AllOf (λ y. at_key y.0 0 ((l, w) ∷ n) ≡ y.1) m
  unfolding has_key at_key
  entries_beyond l w [] n f h = h
  entries_beyond l w (y ∷ m) n f h =
      let parts = absent l y m f in
      let other = beq_flip y.0 l parts.0 in (rw other h.0, entries_beyond l w m n parts.1 h.1)

  -- What an entry says is what is found under its key.
  pub entries_true : (m : List (K × ℕ)) → KeysOnce m → AllOf (λ y. at_key y.0 0 m ≡ y.1) m
  unfolding at_key KeysOnce
  entries_true [] h = tt
  entries_true ((l, w) ∷ m) h =
      (rw ((e.beq_iff l l).1 refl), entries_beyond l w m m h.0 (entries_true m h.1))

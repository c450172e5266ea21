-- ===== src/Base/Decimal.antt =====
-- Decimal text, as `operator<<` and `std::to_string` print an unsigned number.
use Prim.Native.Nat.{ℕ, zero, suc, ◌+◌, ◌*◌, ◌/◌, ◌%◌, ◌<◌}
use mathlib.Core.Path.{◌≡◌, subst}
use mathlib.Core.Logic.{inl, inr}
use mathlib.Core.List.{List, [], ◌∷◌, ◌++◌}
use native.Mathlib.Omega.{arith}
use multi_threaded_dpi_engin.Base.Tests.{ltb, if◌then◌else◌, Bool-cases}

-- The fuel bounds the number of digits.
digits_of : ℕ → ℕ → List ℕ
digits_of zero n = []
digits_of (suc f) n =
    let front = digits_of f (n / 10) in
    if ltb n 10 then (b'0' + n) ∷ [] else front ++ (b'0' + n % 10) ∷ []

unfoldable pub decimal : ℕ → List ℕ
unfolding digits_of
decimal n = digits_of (suc n) n

-- Induction on a decimal text: a digit, or a digit behind a shorter text.
module _ {κ} (P : ℕ → List ℕ → Type κ) (one : (d : ℕ) → d < 10 → P d ((b'0' + d) ∷ []))
    (more : (m d : ℕ) (ds : List ℕ)
      → d < 10
      → P m ds
      → P (m * 10 + d) (ds ++ (b'0' + d) ∷ [])) where
  digits_of-ind : (f n : ℕ) → n < f → P n (digits_of f n)
  unfolding digits_of
  digits_of-ind zero n h = absurd (omega arith)
  digits_of-ind (suc f) n h = elim (Bool-cases (ltb n 10)) [
    | inl small ↦ rw small (one n (ground arith))
    | inr large ↦
        let split : n / 10 * 10 + n % 10 ≡ n = omega arith in
        rw large (
          subst (λ k. P k (digits_of f (n / 10) ++ (b'0' + n % 10) ∷ [])) split
            (more (n / 10) (n % 10) (digits_of f (n / 10)) (omega arith)
              (digits_of-ind f (n / 10) (ground arith))))
  ]

  pub decimal-ind : (n : ℕ) → P n (decimal n)
  unfolding decimal
  decimal-ind n = digits_of-ind (suc n) n (omega arith)

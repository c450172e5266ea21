-- ===== src/Base/Opt.antt =====
-- Chains of steps that may fail, and a postcondition for them that excludes failure.
use mathlib.Core.Option.{Option, none, some}
use mathlib.Core.Bool.{Bool, true, false}
use mathlib.Core.Path.{◌≡◌, refl}
use multi_threaded_dpi_engin.Base.Tests.{if◌then◌else◌}

infixl 5 ◌>>=◌
abbrev pub ◌>>=◌ {ℓ κ} : {A : Type ℓ} {B : Type κ} → Option A → (A → Option B) → Option B
none >>= f = none
some a >>= f = f a

-- The step returns, and its result satisfies `P`.
abbrev pub Ensures {ℓ} : {A : Type ℓ} → (A → Type 0) → Option A → Type 0
Ensures P none = ⊥
Ensures P (some a) = P a

module _ {ℓ κ} {A : Type ℓ} {B : Type κ} (P : A → Type 0) (Q : B → Type 0) where
  pub bind-Ensures :
      (m : Option A) (f : A → Option B)
      → Ensures P m
      → ((a : A) → P a → Ensures Q (f a))
      → Ensures Q (m >>= f)
  bind-Ensures none f h k = absurd h
  bind-Ensures (some a) f h k = k a h

module _ {ℓ} {A : Type ℓ} (P : A → Type 0) where
  pub if-Ensures :
      (b : Bool) (x y : Option A)
      → (b ≡ true → Ensures P x)
      → (b ≡ false → Ensures P y)
      → Ensures P (if b then x else y)
  if-Ensures true x y h k = h refl
  if-Ensures false x y h k = k refl

  -- What is ensured is returned.
  pub Ensures-some : (m : Option A) → Ensures P m → (a : A) × (m ≡ some a) × P a
  Ensures-some none h = absurd h
  Ensures-some (some a) h = (a, refl, h)

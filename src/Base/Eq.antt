-- ===== src/Base/Eq.antt =====
-- Types with a Boolean equality, and `std::unordered_set` over them as a list without repetition.
use Prim.Native.Nat.{ℕ}
use mathlib.Core.Path.{◌≡◌, refl}
use mathlib.Core.Logic.{◌↔◌, inl, inr}
use mathlib.Core.Bool.{Bool, true, false, ◌&&◌, ◌||◌, not}
use mathlib.Core.List.{List, [], ◌∷◌, ◌++◌}
use native.Mathlib.Omega.{arith}
use multi_threaded_dpi_engin.Base.Tests.{◌==◌, ==_iff, if◌then◌else◌, Bool-cases}
use multi_threaded_dpi_engin.Base.Text.{Bytes, bytes_eq, bytes_eq_iff}

pub record Eq {ℓ} (A : Type ℓ) : Type ℓ where
  pub beq : A → A → Bool
  pub beq_iff : (a b : A) → (beq a b ≡ true) ↔ (a ≡ b)

instance abbrev pub nat_eq : Eq ℕ
nat_eq = record { beq = ◌==◌; beq_iff = ==_iff }

instance abbrev pub text_eq : Eq Bytes
text_eq = record { beq = bytes_eq; beq_iff = bytes_eq_iff }

module _ {ℓ} {A : Type ℓ} ⦃e : Eq A⦄ where
  -- `count(a) > 0`
  unfoldable pub contains : A → List A → Bool
  contains a [] = false
  contains a (x ∷ xs) = e.beq x a || contains a xs

  -- `insert(a)`. The table's order is not specified; a new element stands last here.
  unfoldable pub insert : A → List A → List A
  unfolding contains
  insert a xs = if contains a xs then xs else xs ++ a ∷ []

  -- `erase(a)`
  unfoldable pub erase : A → List A → List A
  erase a [] = []
  erase a (x ∷ xs) = if e.beq x a then erase a xs else x ∷ erase a xs

  pub contains-append :
      (b : A) (xs ys : List A) → contains b (xs ++ ys) ≡ (contains b xs || contains b ys)
  unfolding contains
  contains-append b [] ys = refl
  contains-append b (x ∷ xs) ys = ground (arith, contains-append b xs ys)

  contains_cong : (a b : A) (xs : List A) → a ≡ b → contains a xs ≡ contains b xs
  contains_cong a b xs h = cc

  pub contains-insert :
      (b a : A) (xs : List A) → contains b (insert a xs) ≡ (e.beq a b || contains b xs)
  unfolding insert
  contains-insert b a xs =
      ground (arith, contains_cong a b xs, e.beq_iff a b, contains-append b xs (a ∷ []))

  pub contains-erase :
      (b a : A) (xs : List A) → contains b (erase a xs) ≡ (not (e.beq a b) && contains b xs)
  unfolding contains erase
  contains-erase b a [] = ground arith
  contains-erase b a (x ∷ xs) =
      ground (arith, contains-erase b a xs, e.beq_iff x a, e.beq_iff x b, e.beq_iff a b)

  pub erase-fresh : (a : A) (xs : List A) → contains a xs ≡ false → erase a xs ≡ xs
  unfolding contains erase
  erase-fresh a [] h = refl
  erase-fresh a (x ∷ xs) h = ground (arith, erase-fresh a xs)

  erase-append_self : (a : A) (xs : List A) → contains a xs ≡ false → erase a (xs ++ a ∷ []) ≡ xs
  unfolding contains erase
  erase-append_self a [] h = rw ((e.beq_iff a a).1 refl)
  erase-append_self a (x ∷ xs) h = ground (arith, erase-append_self a xs)

  pub erase-insert : (a : A) (xs : List A) → contains a xs ≡ false → erase a (insert a xs) ≡ xs
  unfolding insert
  erase-insert a xs h = rw h (erase-append_self a xs h)

  -- No element stands twice.
  abbrev pub Distinct : List A → Type 0
  Distinct [] = Unit
  Distinct (x ∷ xs) = (contains x xs ≡ false) × Distinct xs

  append-Distinct :
      (a : A) (xs : List A) → Distinct xs → contains a xs ≡ false → Distinct (xs ++ a ∷ [])
  unfolding contains
  append-Distinct a [] d h = (refl, tt)
  append-Distinct a (x ∷ xs) d h = (
    rw contains-append (ground (arith, e.beq_iff a x, e.beq_iff x a)),
    append-Distinct a xs d.1 (ground arith),
  )

  pub insert-Distinct : (a : A) (xs : List A) → Distinct xs → Distinct (insert a xs)
  unfolding insert
  insert-Distinct a xs d = elim (Bool-cases (contains a xs)) [
    | inl old ↦ rw old d
    | inr new ↦ rw new (append-Distinct a xs d new)
  ]

  pub erase-Distinct : (a : A) (xs : List A) → Distinct xs → Distinct (erase a xs)
  unfolding erase
  erase-Distinct a [] d = tt
  erase-Distinct a (x ∷ xs) d = ground (arith, erase-Distinct a xs d.1, contains-erase x a xs)

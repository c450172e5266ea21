-- ===== src/Queue/Effects.antt =====
-- What a push and a pop that return have done to a queue.
use multi_threaded_dpi_engin.Base.{
  ◌<◌, ◌≡◌, ◌⊎◌, inl, inr, refl, sym, ap, ◌∙◌, Bool, true, false, not, ◌||◌, ltb, if◌then◌else◌,
  List, [], ◌∷◌, ◌++◌, Option, none, some, arith, length, Bool-cases,
}
use multi_threaded_dpi_engin.Queue.{Queue, push, pop_with_timeout, take_front, is_empty}

some-injective : {A : Type 0} (a b : A) → some a ≡ some b → a ≡ b
some-injective a b h = cc

none-some : {A : Type 0} {a : A} → none ≡ some a → ⊥
none-some h = cc

module _ {A : Type 0} where
  pub push-effect :
      (x : A) (q r : Queue A)
      → push x q ≡ some r
      → ((q.is_shut ≡ true) × (r ≡ q))
        ⊎ ((q.is_shut ≡ false) × (r ≡ record q { items = q.items ++ x ∷ [] }))
  unfolding push
  push-effect x q r e = by_tests (ltb (length q.items) q.max_size) q.is_shut refl e
    where
      by_tests :
          (room shut : Bool)
          → q.is_shut ≡ shut
          → (if not (room || shut)
              then none
              else if shut
              then some q
              else some (record q { items = q.items ++ x ∷ [] }))
            ≡ some r
          → ((q.is_shut ≡ true) × (r ≡ q))
            ⊎ ((q.is_shut ≡ false) × (r ≡ record q { items = q.items ++ x ∷ [] }))
      by_tests true true h f = inl (h, some-injective _ _ (sym f))
      by_tests true false h f = inr (h, some-injective _ _ (sym f))
      by_tests false true h f = inl (h, some-injective _ _ (sym f))
      by_tests false false h f = cc

  pub pop-effect :
      (q r : Queue A) (x : A)
      → pop_with_timeout q ≡ (some x, r)
      → (r ≡ record q { items = r.items }) × (q.items ≡ x ∷ r.items)
  unfolding pop_with_timeout take_front
  pop-effect q r x e = by_items q.items q.is_shut refl refl e
    where
      Popped : Type 0
      Popped = (r ≡ record q { items = r.items }) × (q.items ≡ x ∷ r.items)

      Result : Type 0
      Result = Option A × Queue A

      nothing : ◌≡◌ {A = Result} (none, q) (some x, r) → Popped
      nothing f = absurd (none-some (ap (λ p. p.0) f))

      front :
          (y : A) (ys : List A)
          → q.items ≡ y ∷ ys
          → ◌≡◌ {A = Result} (some y, record q { items = ys }) (some x, r)
          → Popped
      front y ys g f =
          let after = ap (λ p. p.1) f in
          let same = some-injective y x (ap (λ p. p.0) f) in
          let rest = ap (λ (t : Queue A). t.items) after in
          (sym after ∙ ap (λ t. record q { items = t }) rest, g ∙ rw (same, rest))

      by_items :
          (items : List A) (shut : Bool)
          → q.items ≡ items
          → q.is_shut ≡ shut
          → (if not (not (is_empty items) || shut) then (none, q) else take_front items q)
            ≡ (some x, r)
          → Popped
      by_items [] true g h f = nothing f
      by_items [] false g h f = nothing f
      by_items (y ∷ ys) true g h f = front y ys g f
      by_items (y ∷ ys) false g h f = front y ys g f

  -- A push on an empty queue with room returns, and a pop takes the first item.
  pub push-empty :
      (x : A) (q : Queue A) → q.items ≡ [] → 0 < q.max_size → (r : Queue A) × (push x q ≡ some r)
  unfolding push
  push-empty x q e room =
      let room_left : ltb (length q.items) q.max_size ≡ true = rw e (ground arith) in
      elim (Bool-cases q.is_shut) [
        | inl shut ↦ (q, rw (room_left, shut))
        | inr free ↦ (record q { items = q.items ++ x ∷ [] }, rw (room_left, free))
      ]

  pub pop-first :
      (q : Queue A) (x : A) (xs : List A)
      → q.items ≡ x ∷ xs
      → pop_with_timeout q ≡ (some x, record q { items = xs })
  unfolding pop_with_timeout take_front
  pop-first q x xs e = rw e

  pub push-max_size : (x : A) (q r : Queue A) → push x q ≡ some r → r.max_size ≡ q.max_size
  push-max_size x q r e = elim (push-effect x q r e) [
    | inl (shut, same) ↦ ap (λ (t : Queue A). t.max_size) same
    | inr (free, added) ↦ ap (λ (t : Queue A). t.max_size) added
  ]

  pub pop-max_size :
      (q r : Queue A) (x : A) → pop_with_timeout q ≡ (some x, r) → r.max_size ≡ q.max_size
  pop-max_size q r x e = ap (λ (t : Queue A). t.max_size) (pop-effect q r x e).0

  pub push-is_shut : (x : A) (q r : Queue A) → push x q ≡ some r → r.is_shut ≡ q.is_shut
  push-is_shut x q r e = elim (push-effect x q r e) [
    | inl (shut, same) ↦ ap (λ (t : Queue A). t.is_shut) same
    | inr (free, added) ↦ ap (λ (t : Queue A). t.is_shut) added
  ]

  pub pop-is_shut :
      (q r : Queue A) (x : A) → pop_with_timeout q ≡ (some x, r) → r.is_shut ≡ q.is_shut
  pop-is_shut q r x e = ap (λ (t : Queue A). t.is_shut) (pop-effect q r x e).0

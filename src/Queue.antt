-- ===== src/Queue.antt =====
-- `ThreadSafeQueue` of include/thread_safe_queue.h. The mutex guards each call, so a call is one
-- step; a call that waits for its condition is a step that is not taken, `none`.
pub mod Order
pub mod Effects
use multi_threaded_dpi_engin.Base.{
  ℕ, ◌+◌, Bool, true, false, not, ◌||◌, ltb, leb, if◌then◌else◌, List, [], ◌∷◌, ◌++◌, Option, none,
  some, length,
}

pub record Queue {ℓ} (A : Type ℓ) : Type ℓ where
  pub items : List A
  pub max_size : ℕ
  pub is_shut : Bool

module _ {ℓ} {A : Type ℓ} where
  abbrev pub new_queue : ℕ → Queue A
  new_queue max_size = record { items = []; max_size = max_size; is_shut = false }

  abbrev is_empty : List A → Bool
  is_empty [] = true
  is_empty (_ ∷ _) = false

  -- `push`: after a shutdown the item is dropped.
  unfoldable pub push : A → Queue A → Option (Queue A)
  push x q =
      if not (ltb (length q.items) q.max_size || q.is_shut)
      then none
      else if q.is_shut
      then some q
      else some (record q { items = q.items ++ x ∷ [] })

  -- `tryPush`
  unfoldable pub try_push : A → Queue A → Bool × Queue A
  try_push x q =
      if leb q.max_size (length q.items) || q.is_shut
      then (false, q)
      else (true, record q { items = q.items ++ x ∷ [] })

  take_front : List A → Queue A → Option A × Queue A
  take_front [] q = (none, q)
  take_front (x ∷ xs) q = (some x, record q { items = xs })

  -- `pop`
  unfoldable pub pop : Queue A → Option (Option A × Queue A)
  unfolding take_front
  pop q = if not (not (is_empty q.items) || q.is_shut) then none else some (take_front q.items q)

  -- `popWithTimeout`, which waits no longer than the timeout: it finds an item, or returns nothing.
  unfoldable pub pop_with_timeout : Queue A → Option A × Queue A
  unfolding take_front
  pop_with_timeout q =
      if not (not (is_empty q.items) || q.is_shut) then (none, q) else take_front q.items q

  -- `shutdown`
  unfoldable pub shutdown : Queue A → Queue A
  shutdown q = record q { is_shut = true }

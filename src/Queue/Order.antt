-- ===== src/Queue/Order.antt =====
-- Any sequence of calls on a queue hands the items out in the order in which it took them in.
use multi_threaded_dpi_engin.Base.{
  suc, ◌≤◌, ◌<◌, ◌≡◌, refl, sym, ap, ◌∙◌, Bool, true, false, not, ◌||◌, ltb, leb, if◌then◌else◌,
  List, [], ◌∷◌, ◌++◌, append_assoc, append-nil, Option, none, some, Bool-cases, inl, inr, arith,
  length, length-append,
}
use multi_threaded_dpi_engin.Queue.{
  Queue, push, try_push, pop, pop_with_timeout, shutdown, take_front, is_empty,
}

-- A call of one of the threads that share the queue.
pub data Call {ℓ} (A : Type ℓ) : Type ℓ where
  push_call try_call : A → Call A
  pop_call timeout_call shutdown_call : Call A

-- What a call took in and handed out, and the queue after it. A call that waits changes nothing.
pub record Step {ℓ} (A : Type ℓ) : Type ℓ where
  pub taken : List A
  pub handed : List A
  pub after : Queue A

module _ {ℓ} {A : Type ℓ} where
  popped : Option A × Queue A → Step A
  popped (none, q) = record { taken = []; handed = []; after = q }
  popped (some x, q) = record { taken = []; handed = x ∷ []; after = q }

  waited : Queue A → Step A
  waited q = record { taken = []; handed = []; after = q }

  pushed : A → Queue A → Option (Queue A) → Step A
  unfolding waited
  pushed x q none = waited q
  pushed x q (some after) = record {
    taken = if q.is_shut then [] else x ∷ [];
    handed = [];
    after = after;
  }

  tried : A → Bool × Queue A → Step A
  tried x (taken, q) = record { taken = if taken then x ∷ [] else []; handed = []; after = q }

  pop_or_wait : Queue A → Option (Option A × Queue A) → Step A
  unfolding popped waited
  pop_or_wait q none = waited q
  pop_or_wait q (some r) = popped r

  unfoldable pub call : Call A → Queue A → Step A
  unfolding pushed tried popped pop_or_wait waited push try_push pop pop_with_timeout shutdown
  call (push_call x) q = pushed x q (push x q)
  call (try_call x) q = tried x (try_push x q)
  call pop_call q = pop_or_wait q (pop q)
  call timeout_call q = popped (pop_with_timeout q)
  call shutdown_call q = waited (shutdown q)

  unfoldable pub calls : List (Call A) → Queue A → Step A
  unfolding call waited
  calls [] q = waited q
  calls (c ∷ cs) q =
      let first = call c q in
      let rest = calls cs first.after in
      record {
        taken = first.taken ++ rest.taken;
        handed = first.handed ++ rest.handed;
        after = rest.after;
      }

  -- What went in, after what was there, is what came out and what is there, in this order; the bound
  -- holds, and a queue that is shut takes nothing in.
  pub record InOrder (q : Queue A) (s : Step A) : Type ℓ where
    pub order : q.items ++ s.taken ≡ s.handed ++ s.after.items
    pub same_max : s.after.max_size ≡ q.max_size
    pub bound : length q.items ≤ q.max_size → length s.after.items ≤ q.max_size
    pub stays_shut : q.is_shut ≡ true → s.after.is_shut ≡ true
    pub closed : q.is_shut ≡ true → s.taken ≡ []

  same-InOrder : (q : Queue A) → InOrder q (record { taken = []; handed = []; after = q })
  same-InOrder q = record {
    order = append-nil q.items;
    same_max = refl;
    bound = λ b. b;
    stays_shut = λ e. e;
    closed = λ e. refl;
  }

  added-InOrder :
      (x : A) (q : Queue A)
      → q.is_shut ≡ false
      → length q.items < q.max_size
      → InOrder q
          (record { taken = x ∷ []; handed = []; after = record q { items = q.items ++ x ∷ [] } })
  added-InOrder x q live room = record {
    order = refl;
    same_max = refl;
    bound = λ b. omega (arith, length-append q.items (x ∷ []));
    stays_shut = λ e. e;
    closed = λ e. cc;
  }

  push-InOrder : (x : A) (q : Queue A) → InOrder q (pushed x q (push x q))
  unfolding push pushed
  push-InOrder x q = elim (Bool-cases (ltb (length q.items) q.max_size)) [
    | inl room ↦ elim (Bool-cases q.is_shut) [
      | inl shut ↦ simp (room, shut) (same-InOrder q)
      | inr live ↦ simp (room, live) (simp live at (added-InOrder x q live (ground arith)))
    ]
    | inr full ↦ elim (Bool-cases q.is_shut) [
      | inl shut ↦ simp (full, shut) (same-InOrder q)
      | inr live ↦ simp (full, live) (same-InOrder q)
    ]
  ]

  try-InOrder : (x : A) (q : Queue A) → InOrder q (tried x (try_push x q))
  unfolding try_push tried
  try-InOrder x q = elim (Bool-cases (leb q.max_size (length q.items) || q.is_shut)) [
    | inl refused ↦ rw refused (same-InOrder q)
    | inr added ↦ rw added (added-InOrder x q (ground arith) (ground arith))
  ]

  front-InOrder : (xs : List A) (q : Queue A) → q.items ≡ xs → InOrder q (popped (take_front xs q))
  unfolding take_front popped
  front-InOrder [] q e = same-InOrder q
  front-InOrder (x ∷ xs) q e = record {
    order = append-nil q.items ∙ e;
    same_max = refl;
    bound = λ b. let n : length q.items ≡ suc (length xs) = ap length e in omega arith;
    stays_shut = λ e'. e';
    closed = λ e'. refl;
  }

  call-InOrder : (c : Call A) (q : Queue A) → InOrder q (call c q)
  unfolding call pop_or_wait pop pop_with_timeout shutdown
  call-InOrder (push_call x) q = push-InOrder x q
  call-InOrder (try_call x) q = try-InOrder x q
  call-InOrder pop_call q = elim (Bool-cases (not (not (is_empty q.items) || q.is_shut))) [
    | inl wait ↦ rw wait (same-InOrder q)
    | inr go ↦ rw go (front-InOrder q.items q refl)
  ]
  call-InOrder timeout_call q = elim (Bool-cases (not (not (is_empty q.items) || q.is_shut))) [
    | inl wait ↦ rw wait (same-InOrder q)
    | inr go ↦ rw go (front-InOrder q.items q refl)
  ]
  call-InOrder shutdown_call q = record {
    order = append-nil q.items;
    same_max = refl;
    bound = λ b. b;
    stays_shut = λ e. refl;
    closed = λ e. refl;
  }

  chain :
      (before taken handed middle taken2 handed2 after : List A)
      → before ++ taken ≡ handed ++ middle
      → middle ++ taken2 ≡ handed2 ++ after
      → before ++ (taken ++ taken2) ≡ (handed ++ handed2) ++ after
  chain before taken handed middle taken2 handed2 after e f =
      sym (append_assoc before taken taken2)
      ∙ ap (λ (l : List A). l ++ taken2) e
      ∙ append_assoc handed middle taken2
      ∙ ap (λ (l : List A). handed ++ l) f
      ∙ sym (append_assoc handed handed2 after)

  -- Whatever calls the threads make, in whatever order, the items come out in the order in which
  -- they went in, none lost and none twice; a queue within its bound stays within it; and once
  -- it is shut it stays so and takes nothing in.
  pub calls-InOrder : (cs : List (Call A)) (q : Queue A) → InOrder q (calls cs q)
  unfolding calls
  calls-InOrder [] q = same-InOrder q
  calls-InOrder (c ∷ cs) q =
      let a = call-InOrder c q in
      let b = calls-InOrder cs (call c q).after in
      record {
        order = chain q.items _ _ _ _ _ _ a.order b.order;
        same_max = b.same_max ∙ a.same_max;
        bound = λ h. omega (arith, b.bound (omega (arith, a.bound h, a.same_max)), a.same_max);
        stays_shut = λ e. b.stays_shut (a.stays_shut e);
        closed = λ e. rw (a.closed e, b.closed (a.stays_shut e));
      }

-- ===== src/Engine/Order.antt =====
-- The packets of a flow stay in order on their way through the threads of src/dpi_engine.cpp.
use multi_threaded_dpi_engin.Base.{
  ℕ, ◌==◌, ◌≡◌, ◌≢◌, ◌⊎◌, inl, inr, refl, sym, ap, ◌∙◌, Bool-cases, List, [], ◌∷◌, ◌++◌,
  append_assoc, none, some, get_elem?, set, arith,
}
use multi_threaded_dpi_engin.Types.{PacketJob}
use multi_threaded_dpi_engin.Types.Flow.{FiveTuple}
use multi_threaded_dpi_engin.Queue.{Queue, push, pop_with_timeout}
use multi_threaded_dpi_engin.Queue.Effects.{push-effect, pop-effect}
use multi_threaded_dpi_engin.Engine.Pipeline.{Worker}
use multi_threaded_dpi_engin.Engine.Lines.{
  held, worker_line, line_at, line_at-get, line_at-set, line_at-set_ne, of_t, of_t-append,
  of_t-alone, Confined, Confined-set,
}

-- A thread that pops a job has the same packets as before.
pub pop-worker_line :
    (w : Worker) (job : PacketJob) (q : Queue PacketJob)
    → w.hand ≡ none
    → pop_with_timeout w.queue ≡ (some job, q)
    → worker_line (record { queue = q; hand = some job }) ≡ worker_line w
pop-worker_line w job q e k = rw (e, (pop-effect w.queue q job k).1) refl

both_empty : (xs ys : List PacketJob) → xs ++ ys ≡ [] → (xs ≡ []) × (ys ≡ [])
both_empty [] ys h = (refl, h)
both_empty (x ∷ xs) ys h = cc

module _ (t : FiveTuple) where
  -- A part of the line that is `xs` has become `ys` by a push of the job: it stands last, or is lost.
  abbrev pub Pushed : PacketJob → List PacketJob → List PacketJob → Type 0
  Pushed job xs ys = (of_t t ys ≡ of_t t xs ++ of_t t (job ∷ [])) ⊎ (of_t t ys ≡ of_t t xs)

  pub push-worker_line :
      (w : Worker) (job : PacketJob) (q : Queue PacketJob)
      → push job w.queue ≡ some q
      → Pushed job (worker_line w) (worker_line (record w { queue = q }))
  push-worker_line w job q k = elim (push-effect job w.queue q k) [
    | inl (shut, e) ↦ inr (rw e refl)
    | inr (up, e) ↦ inl (
        ap (λ (r : Queue PacketJob). of_t t (worker_line (record w { queue = r }))) e
        ∙ ap (of_t t) (sym (append_assoc (held w.hand) w.queue.items (job ∷ [])))
        ∙ of_t-append t (worker_line w) (job ∷ []))
  ]

  pub hand-worker_line :
      (w : Worker) (job : PacketJob)
      → w.hand ≡ some job
      → of_t t (worker_line w)
        ≡ of_t t (job ∷ []) ++ of_t t (worker_line (record w { hand = none }))
  hand-worker_line w job e = rw e (of_t-append t (job ∷ []) w.queue.items)

  -- The same of the thread with number `n` in a list, where the flow's packets are at `place`.
  module _ (ws : List Worker) (place n : ℕ) (w : Worker) (e : get_elem? ws n ≡ some w) where
    before : n ≡ place → line_at ws place ≡ worker_line w
    before there = ap (line_at ws) (sym there) ∙ line_at-get ws n w e

    after : (v : Worker) → n ≡ place → line_at (set ws n v) place ≡ worker_line v
    after v there = ap (line_at (set ws n v)) (sym there) ∙ line_at-set ws n w v e

    elsewhere : Confined t ws place → n ≢ place → of_t t (worker_line w) ≡ []
    elsewhere h differs = ap (of_t t) (sym (line_at-get ws n w e)) ∙ h n differs

    pub push-line_at :
        (job : PacketJob) (q : Queue PacketJob)
        → push job w.queue ≡ some q
        → (job.tuple ≡ t → n ≡ place)
        → Confined t ws place
        → Pushed job (line_at ws place) (line_at (set ws n (record w { queue = q })) place)
          × Confined t (set ws n (record w { queue = q })) place
    push-line_at job q k to_place h = (line, Confined-set t ws place n w v e h alone)
      where
        v : Worker
        v = record w { queue = q }

        alone : n ≢ place → of_t t (worker_line v) ≡ []
        alone differs =
            let none_of_it = of_t-alone t job (λ f. differs (to_place f)) in
            let free = elsewhere h differs in
            elim (push-worker_line w job q k) [
              | inl f ↦ f ∙ rw (free, none_of_it) refl
              | inr f ↦ f ∙ free
            ]

        line : Pushed job (line_at ws place) (line_at (set ws n v) place)
        line = elim (Bool-cases (n == place)) [
          | inl equal ↦
              let there : n ≡ place = ground arith in
              rw (before there, after v there) (push-worker_line w job q k)
          | inr other ↦ inr (ap (of_t t) (line_at-set_ne ws n place v (λ f. ground arith)))
        ]

    pub hand-line_at :
        (job : PacketJob)
        → w.hand ≡ some job
        → Confined t ws place
        → (of_t t (line_at ws place)
            ≡ of_t t (job ∷ []) ++ of_t t (line_at (set ws n (record w { hand = none })) place))
          × Confined t (set ws n (record w { hand = none })) place
    hand-line_at job k h = (line, Confined-set t ws place n w v e h (λ differs. (alone differs).1))
      where
        v : Worker
        v = record w { hand = none }

        alone : n ≢ place → (of_t t (job ∷ []) ≡ []) × (of_t t (worker_line v) ≡ [])
        alone differs =
            both_empty (of_t t (job ∷ [])) (of_t t (worker_line v))
              (sym (hand-worker_line w job k) ∙ elsewhere h differs)

        line : of_t t (line_at ws place) ≡ of_t t (job ∷ []) ++ of_t t (line_at (set ws n v) place)
        line = elim (Bool-cases (n == place)) [
          | inl equal ↦
              let there : n ≡ place = ground arith in
              rw (before there, after v there) (hand-worker_line w job k)
          | inr other ↦
              let differs : n ≢ place = λ f. ground arith in
              rw ((alone differs).0, line_at-set_ne ws n place v differs) refl
        ]

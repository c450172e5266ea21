-- ===== src/Engine/Moves.antt =====
-- Each step of the pipeline takes one packet on from its place, or is one of the main thread.
use multi_threaded_dpi_engin.Base.{ℕ, ◌≡◌, ◌⊎◌, inl, inr, refl, ap, none, some, arith, length-set}
use multi_threaded_dpi_engin.Types.{PacketJob}
use multi_threaded_dpi_engin.Types.Hash.{StdHash}
use multi_threaded_dpi_engin.Queue.{shutdown}
use multi_threaded_dpi_engin.Engine.Pipeline.{
  Pipeline, Step, read_step, lb_pop, lb_push, fp_pop, fp_drop, fp_forward, out_pop, out_write,
  see_lbs, see_fps, see_out, stop_lb, stop_fp, stop_out, shut_worker, lb_index, fp_index, Steps,
  done, then_step,
}
use multi_threaded_dpi_engin.Engine.Places.{
  unread, lb_queue, lb_hand, fp_queue, fp_hand, out_queue, out_hand, written, dropped, sum,
  hand_sum, worker_sum, weigh, sum-snoc, sum-set, worker_sum-shut_worker, sum-popped, Moves, Stops,
  push-Pushed, rank-pushed, get_elem?-bound,
}

module _ (h : StdHash) (num_lbs fps_per_lb : ℕ) where
  -- Every step takes one packet from its place to one further on, or is one of the main thread that moves none.
  pub step-effect : (p q : Pipeline) → Step h num_lbs fps_per_lb p q → Moves p q ⊎ Stops p q
  step-effect _ _ (read_step p job rest w q e f g) =
      let (t, which, pushed) = push-Pushed job w.queue q p.lost lb_queue g in
      inl (
        unread,
        t,
        job,
        rank-pushed t lb_queue 7 which (omega arith) (omega arith),
        omega
            (arith, length-set p.lbs (lb_index h num_lbs fps_per_lb job) (record w { queue = q })),
        λ W. omega (
          arith,
          ap (sum (W unread)) e,
          sum-set (worker_sum (W lb_queue) (W lb_hand)) p.lbs _ w (record w { queue = q }) f,
          pushed W,
        ),
      )
  step-effect _ _ (lb_pop p i w job q f e r g) = inl (
    lb_queue,
    lb_hand,
    job,
    omega arith,
    omega (arith, length-set p.lbs i (record { queue = q; hand = some job })),
    λ W. omega (
      arith,
      ap (hand_sum (W lb_hand)) e,
      sum-set (worker_sum (W lb_queue) (W lb_hand)) p.lbs i w
          (record { queue = q; hand = some job }) f,
      sum-popped (W lb_queue) w.queue q job g,
    ),
  )
  step-effect _ _ (lb_push p i w v job q f e k g) =
      let (t, which, pushed) = push-Pushed job v.queue q p.lost fp_queue g in
      inl (
        lb_hand,
        t,
        job,
        rank-pushed t fp_queue 5 which (omega arith) (omega arith),
        omega (
          arith,
          length-set p.lbs i (record w { hand = none }),
          length-set p.fps (fp_index h num_lbs fps_per_lb job) (record v { queue = q }),
        ),
        λ W. omega (
          arith,
          ap (hand_sum (W lb_hand)) e,
          sum-set (worker_sum (W lb_queue) (W lb_hand)) p.lbs i w (record w { hand = none }) f,
          sum-set (worker_sum (W fp_queue) (W fp_hand)) p.fps _ v (record v { queue = q }) k,
          pushed W,
        ),
      )
  step-effect _ _ (fp_pop p i w job q f e r g) = inl (
    fp_queue,
    fp_hand,
    job,
    omega arith,
    omega (arith, length-set p.fps i (record { queue = q; hand = some job })),
    λ W. omega (
      arith,
      ap (hand_sum (W fp_hand)) e,
      sum-set (worker_sum (W fp_queue) (W fp_hand)) p.fps i w
          (record { queue = q; hand = some job }) f,
      sum-popped (W fp_queue) w.queue q job g,
    ),
  )
  step-effect _ _ (fp_drop p i w job f e) = inl (
    fp_hand,
    dropped,
    job,
    omega arith,
    omega (arith, length-set p.fps i (record w { hand = none })),
    λ W. omega (
      arith,
      ap (hand_sum (W fp_hand)) e,
      sum-set (worker_sum (W fp_queue) (W fp_hand)) p.fps i w (record w { hand = none }) f,
      sum-snoc (W dropped) p.dropped job,
    ),
  )
  step-effect _ _ (fp_forward p i w job q f e g) =
      let (t, which, pushed) = push-Pushed job p.out.queue q p.lost out_queue g in
      inl (
        fp_hand,
        t,
        job,
        rank-pushed t out_queue 3 which (omega arith) (omega arith),
        omega (arith, length-set p.fps i (record w { hand = none })),
        λ W. omega (
          arith,
          ap (hand_sum (W fp_hand)) e,
          sum-set (worker_sum (W fp_queue) (W fp_hand)) p.fps i w (record w { hand = none }) f,
          pushed W,
        ),
      )
  step-effect _ _ (out_pop p job q e r g) = inl (
    out_queue,
    out_hand,
    job,
    omega arith,
    refl,
    λ W. omega (arith, ap (hand_sum (W out_hand)) e, sum-popped (W out_queue) p.out.queue q job g),
  )
  step-effect _ _ (out_write p job e) = inl (
    out_hand,
    written,
    job,
    omega arith,
    refl,
    λ W. omega (arith, ap (hand_sum (W out_hand)) e, sum-snoc (W written) p.written job),
  )
  step-effect _ _ (see_lbs p e k g) = inr (omega arith, λ W. refl)
  step-effect _ _ (see_fps p k g) = inr (omega arith, λ W. refl)
  step-effect _ _ (see_out p k g) = inr (omega arith, λ W. refl)
  step-effect _ _ (stop_lb p w k g e) = inr (
    omega (
      arith,
      get_elem?-bound p.lbs p.lbs_stopped w g,
      length-set p.lbs p.lbs_stopped (shut_worker w),
    ),
    λ W. omega (
      arith,
      sum-set (worker_sum (W lb_queue) (W lb_hand)) p.lbs p.lbs_stopped w (shut_worker w) g,
      worker_sum-shut_worker (W lb_queue) (W lb_hand) w,
    ),
  )
  step-effect _ _ (stop_fp p w k f g e) = inr (
    omega (
      arith,
      get_elem?-bound p.fps p.fps_stopped w g,
      length-set p.fps p.fps_stopped (shut_worker w),
    ),
    λ W. omega (
      arith,
      sum-set (worker_sum (W fp_queue) (W fp_hand)) p.fps p.fps_stopped w (shut_worker w) g,
      worker_sum-shut_worker (W fp_queue) (W fp_hand) w,
    ),
  )
  step-effect _ _ (stop_out p up e d) = inr (ground arith, λ W. (unfold shutdown in refl))

  pub steps-weight :
      (w : PacketJob → ℕ) (p q : Pipeline)
      → Steps h num_lbs fps_per_lb p q
      → weigh (λ place. w) q ≡ weigh (λ place. w) p
  steps-weight w _ _ (done p) = refl
  steps-weight w _ _ (then_step p q r s rest) = elim (step-effect p q s) [
    | inl (a, b, job, lower, same, moved) ↦
        omega (arith, moved (λ place. w), steps-weight w q r rest)
    | inr (fewer, still) ↦ omega (arith, still (λ place. w), steps-weight w q r rest)
  ]

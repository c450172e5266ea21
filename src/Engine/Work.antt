-- ===== src/Engine/Work.antt =====
-- How much the turns of src/dpi_engine.cpp, src/load_balancer.cpp and src/fast_path.cpp get done.
use multi_threaded_dpi_engin.Base.{
  ℕ, ◌+◌, ◌-◌, ◌*◌, ◌≤◌, ◌≡◌, refl, if◌then◌else◌, List, inl, inr, arith, length, length-replicate,
}
use multi_threaded_dpi_engin.Types.{PacketJob}
use multi_threaded_dpi_engin.Types.Hash.{StdHash}
use multi_threaded_dpi_engin.Engine.Pipeline.{
  Pipeline, Step, read_step, lb_pop, lb_push, fp_pop, fp_drop, fp_forward, out_pop, out_write,
  see_lbs, see_fps, see_out, stop_lb, stop_fp, stop_out, Steps,
}
use multi_threaded_dpi_engin.Engine.Places.{rank, weigh}
use multi_threaded_dpi_engin.Engine.Moves.{step-effect}
use multi_threaded_dpi_engin.Engine.Drain.{idle, start, weigh-start, sum-seven}
use multi_threaded_dpi_engin.Engine.Turns.{
  Turn, step, lb_idle, fp_idle, out_idle, lbs_busy, fps_busy, out_busy, Turns, at_rest, then_turn,
  Turns-Steps,
}

module _ (h : StdHash) (num_lbs fps_per_lb : ℕ) where
  -- One for a step that takes a packet on or tells a thread to stop, none for a test of the wait.
  abbrev pub step_work : (p q : Pipeline) → Step h num_lbs fps_per_lb p q → ℕ
  step_work _ _ (see_lbs p e k g) = 0
  step_work _ _ (see_fps p k g) = 0
  step_work _ _ (see_out p k g) = 0
  step_work _ _ _ = 1

  abbrev pub turn_work : (p q : Pipeline) → Turn h num_lbs fps_per_lb p q → ℕ
  turn_work _ _ (step p q s) = step_work p q s
  turn_work _ _ _ = 0

  -- The turns of a run that take a packet on or tell a thread to stop.
  abbrev pub work : (p q : Pipeline) → Turns h num_lbs fps_per_lb p q → ℕ
  work _ _ (at_rest p) = 0
  work _ _ (then_turn p q r s rest) = turn_work p q s + work q r rest

  step_work-seen :
      (p q : Pipeline) (s : Step h num_lbs fps_per_lb p q)
      → (q.seen + step_work p q s ≡ p.seen + 1) × (step_work p q s ≤ 1)
  step_work-seen _ _ (read_step p job rest w q e f g) = (refl, omega arith)
  step_work-seen _ _ (lb_pop p i w job q f e r g) = (refl, omega arith)
  step_work-seen _ _ (lb_push p i w v job q f e k g) = (refl, omega arith)
  step_work-seen _ _ (fp_pop p i w job q f e r g) = (refl, omega arith)
  step_work-seen _ _ (fp_drop p i w job f e) = (refl, omega arith)
  step_work-seen _ _ (fp_forward p i w job q f e g) = (refl, omega arith)
  step_work-seen _ _ (out_pop p job q e r g) = (refl, omega arith)
  step_work-seen _ _ (out_write p job e) = (refl, omega arith)
  step_work-seen _ _ (see_lbs p e k g) = (omega arith, omega arith)
  step_work-seen _ _ (see_fps p k g) = (omega arith, omega arith)
  step_work-seen _ _ (see_out p k g) = (omega arith, omega arith)
  step_work-seen _ _ (stop_lb p w k g e) = (refl, omega arith)
  step_work-seen _ _ (stop_fp p w k f g e) = (refl, omega arith)
  step_work-seen _ _ (stop_out p up e d) = (refl, omega arith)

  -- What is left to do: the ranks of all packets, and the threads to stop.
  abbrev left_over : Pipeline → ℕ
  left_over p =
      weigh (λ place job. rank place) p
      + (length p.lbs - p.lbs_stopped)
      + (length p.fps - p.fps_stopped)
      + (if p.out_running then 1 else 0)

  step_work-left_over :
      (p q : Pipeline) (s : Step h num_lbs fps_per_lb p q)
      → step_work p q s + left_over q ≤ left_over p
  step_work-left_over p q s = elim (step-effect h num_lbs fps_per_lb p q s) [
    | inl (a, b, job, lower, same, moved) ↦
        omega (arith, moved (λ place any. rank place), step_work-seen p q s)
    | inr (fewer, still) ↦ omega (arith, still (λ place any. rank place), step_work-seen p q s)
  ]

  turn_work-left_over :
      (p q : Pipeline) (s : Turn h num_lbs fps_per_lb p q)
      → turn_work p q s + left_over q ≤ left_over p
  turn_work-left_over _ _ (step p q s) = step_work-left_over p q s
  turn_work-left_over _ _ (lb_idle p i w f e r g) = omega arith
  turn_work-left_over _ _ (fp_idle p i w f e r g) = omega arith
  turn_work-left_over _ _ (out_idle p e r g) = omega arith
  turn_work-left_over _ _ (lbs_busy p e k g) = omega arith
  turn_work-left_over _ _ (fps_busy p k g) = omega arith
  turn_work-left_over _ _ (out_busy p k g) = omega arith

  work-left_over :
      (p q : Pipeline) (run : Turns h num_lbs fps_per_lb p q)
      → work p q run + left_over q ≤ left_over p
  work-left_over _ _ (at_rest p) = omega arith
  work-left_over _ _ (then_turn p q r s rest) =
      omega (arith, turn_work-left_over p q s, work-left_over q r rest)

-- However often the threads find their queues empty and the wait starts over in between, the threads
-- reach only what the steps without these turns reach, and their work is bounded: for `n` packets,
-- `l` balancers and `f` fast paths to each, `7 * n + l + l * f + 1` turns at most take a packet on
-- or tell a thread to stop. The turns that find nothing and the tests of the wait are not counted.
pub work-Bounded :
    (h : StdHash) (l f size : ℕ) (jobs : List PacketJob) (q : Pipeline)
    (run : Turns h l f (start l f size jobs) q)
    → Steps h l f (start l f size jobs) q
      × (work h l f (start l f size jobs) q run ≤ 7 * length jobs + l + l * f + 1)
work-Bounded h l f size jobs q run = (
  Turns-Steps h l f size jobs q run,
  omega (
    arith,
    work-left_over h l f (start l f size jobs) q run,
    weigh-start (λ place job. rank place) l f size jobs,
    sum-seven jobs,
    length-replicate l (idle size),
    length-replicate (l * f) (idle size),
  ),
)

-- ===== src/Engine/Turns.antt =====
-- All turns of the loops of src/dpi_engine.cpp, src/load_balancer.cpp and src/fast_path.cpp: the steps
-- of the pipeline, and the turns after which the pipeline is as before, those of a thread whose
-- `popWithTimeout` returns nothing (the fast path's cleanup is on its own table) and those of the main
-- thread's wait that find a queue with items and start over. The source goes through all three tests
-- before it starts over; here a test that fails ends the turn.
use multi_threaded_dpi_engin.Base.{
  ℕ, ◌≤◌, ◌≡◌, ◌⊎◌, refl, sym, subst, true, false, not, ◌||◌, List, [], none, some, inl, inr, arith,
  get_elem?,
}
use multi_threaded_dpi_engin.Types.{PacketJob}
use multi_threaded_dpi_engin.Types.Hash.{StdHash}
use multi_threaded_dpi_engin.Queue.{pop_with_timeout}
use multi_threaded_dpi_engin.Engine.Pipeline.{
  Worker, Pipeline, no_items, queues_empty, Step, read_step, lb_pop, lb_push, fp_pop, fp_drop,
  fp_forward, out_pop, out_write, see_lbs, see_fps, see_out, stop_lb, stop_fp, stop_out, Steps,
  done, then_step,
}
use multi_threaded_dpi_engin.Engine.Drain.{start}
use multi_threaded_dpi_engin.Engine.Stopping.{steps-append}

module _ (h : StdHash) (num_lbs fps_per_lb : ℕ) where
  pub data Turn : Pipeline → Pipeline → Type 0 where
    step : (p q : Pipeline) → Step h num_lbs fps_per_lb p q → Turn p q
    -- A thread that runs finds nothing in its queue in time.
    lb_idle :
        (p : Pipeline) (i : ℕ) (w : Worker)
        → get_elem? p.lbs i ≡ some w
        → w.hand ≡ none
        → p.lbs_stopped ≤ i
        → pop_with_timeout w.queue ≡ (none, w.queue)
        → Turn p p
    fp_idle :
        (p : Pipeline) (i : ℕ) (w : Worker)
        → get_elem? p.fps i ≡ some w
        → w.hand ≡ none
        → p.fps_stopped ≤ i
        → pop_with_timeout w.queue ≡ (none, w.queue)
        → Turn p p
    out_idle :
        (p : Pipeline)
        → p.out.hand ≡ none
        → (p.out_running || not (no_items p.out.queue)) ≡ true
        → pop_with_timeout p.out.queue ≡ (none, p.out.queue)
        → Turn p p
    -- The main thread's wait finds items, and starts over.
    lbs_busy :
        (p : Pipeline)
        → p.unread ≡ []
        → p.seen ≡ 0
        → queues_empty p.lbs ≡ false
        → Turn p (record p { seen = 0 })
    fps_busy :
        (p : Pipeline) → p.seen ≡ 1 → queues_empty p.fps ≡ false → Turn p (record p { seen = 0 })
    out_busy :
        (p : Pipeline) → p.seen ≡ 2 → no_items p.out.queue ≡ false → Turn p (record p { seen = 0 })

  -- Any number of turns.
  pub data Turns : Pipeline → Pipeline → Type 0 where
    at_rest : (p : Pipeline) → Turns p p
    then_turn : (p q r : Pipeline) → Turn p q → Turns q r → Turns p r

  -- The pipeline with the tests of the wait still to be made.
  abbrev unseen : Pipeline → Pipeline
  unseen p = record p { seen = 0 }

  -- A step that is none of the wait is possible before the wait too.
  unseen_step :
      (p q : Pipeline)
      → Step h num_lbs fps_per_lb p q
      → q.seen ≤ 2
      → (p.seen ≤ 2) × ((unseen q ≡ unseen p) ⊎ Step h num_lbs fps_per_lb (unseen p) (unseen q))
  unseen_step _ _ (read_step p job rest w q e f g) le =
      (le, inr (read_step (unseen p) job rest w q e f g))
  unseen_step _ _ (lb_pop p i w job q f e r g) le = (le, inr (lb_pop (unseen p) i w job q f e r g))
  unseen_step _ _ (lb_push p i w v job q f e k g) le =
      (le, inr (lb_push (unseen p) i w v job q f e k g))
  unseen_step _ _ (fp_pop p i w job q f e r g) le = (le, inr (fp_pop (unseen p) i w job q f e r g))
  unseen_step _ _ (fp_drop p i w job f e) le = (le, inr (fp_drop (unseen p) i w job f e))
  unseen_step _ _ (fp_forward p i w job q f e g) le =
      (le, inr (fp_forward (unseen p) i w job q f e g))
  unseen_step _ _ (out_pop p job q e r g) le = (le, inr (out_pop (unseen p) job q e r g))
  unseen_step _ _ (out_write p job e) le = (le, inr (out_write (unseen p) job e))
  unseen_step _ _ (see_lbs p e k g) le = (omega arith, inl refl)
  unseen_step _ _ (see_fps p k g) le = (omega arith, inl refl)
  unseen_step _ _ (see_out p k g) le = (omega arith, inl refl)
  unseen_step _ _ (stop_lb p w k g e) le = absurd (omega arith)
  unseen_step _ _ (stop_fp p w k f g e) le = (le, inr (stop_fp (unseen p) w k f g e))
  unseen_step _ _ (stop_out p up e d) le = (le, inr (stop_out (unseen p) up e d))

  -- Steps reach a pipeline, and reach it before the wait too where the wait is not over.
  record Reached (o p : Pipeline) : Type 0 where
    now : Steps h num_lbs fps_per_lb o p
    before : p.seen ≤ 2 → Steps h num_lbs fps_per_lb o (unseen p)

  step-Reached : (o p q : Pipeline) → Step h num_lbs fps_per_lb p q → Reached o p → Reached o q
  step-Reached o p q s k = record {
    now = steps-append h num_lbs fps_per_lb o p q k.now (then_step p q q s (done q));
    before = λ le.
        let (early, next) = unseen_step p q s le in
        elim next [
          | inl same ↦ subst (Steps h num_lbs fps_per_lb o) (sym same) (k.before early)
          | inr t ↦
              steps-append h num_lbs fps_per_lb o (unseen p) (unseen q) (k.before early)
                (then_step (unseen p) (unseen q) (unseen q) t (done (unseen q)))
        ];
  }

  -- The wait starts over.
  again : (o p : Pipeline) → p.seen ≤ 2 → Reached o p → Reached o (unseen p)
  again o p le k = record { now = k.before le; before = λ any. k.before le }

  Turn-Reached : (o p q : Pipeline) → Turn p q → Reached o p → Reached o q
  Turn-Reached o _ _ (step p q s) k = step-Reached o p q s k
  Turn-Reached o _ _ (lb_idle p i w f e r g) k = k
  Turn-Reached o _ _ (fp_idle p i w f e r g) k = k
  Turn-Reached o _ _ (out_idle p e r g) k = k
  Turn-Reached o _ _ (lbs_busy p e t g) k = again o p (omega arith) k
  Turn-Reached o _ _ (fps_busy p t g) k = again o p (omega arith) k
  Turn-Reached o _ _ (out_busy p t g) k = again o p (omega arith) k

  Turns-Reached : (o p q : Pipeline) → Turns p q → Reached o p → Reached o q
  Turns-Reached o _ _ (at_rest p) k = k
  Turns-Reached o _ _ (then_turn p q r s rest) k = Turns-Reached o q r rest (Turn-Reached o p q s k)

-- What turns reach from the start, steps reach too.
pub Turns-Steps :
    (h : StdHash) (l f size : ℕ) (jobs : List PacketJob) (q : Pipeline)
    → Turns h l f (start l f size jobs) q
    → Steps h l f (start l f size jobs) q
Turns-Steps h l f size jobs q run =
    let o : Pipeline = start l f size jobs in
    let first : Reached h l f o o = record { now = done o; before = λ le. done o } in
    (Turns-Reached h l f o o q run first).now

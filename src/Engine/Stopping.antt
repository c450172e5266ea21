-- ===== src/Engine/Stopping.antt =====
-- How the main thread of `processFile` in src/dpi_engine.cpp stops threads that hold nothing.
use multi_threaded_dpi_engin.Base.{
  ℕ, zero, suc, ◌+◌, ◌≡◌, ◌≢◌, inl, inr, ◌==◌, Bool-cases, length-set, get_elem?-set_ne, sym, ap,
  ◌∙◌, Bool, true, false, not, ◌||◌, List, [], ◌∷◌, Option, none, some, get_elem?, set, arith,
  length, get_elem?-set_self,
}
use multi_threaded_dpi_engin.Types.{PacketJob}
use multi_threaded_dpi_engin.Types.Hash.{StdHash}
use multi_threaded_dpi_engin.Queue.{shutdown}
use multi_threaded_dpi_engin.Engine.Pipeline.{
  Worker, Pipeline, HandsFree, no_items, Step, read_step, lb_pop, lb_push, fp_pop, fp_drop,
  fp_forward, out_pop, out_write, see_lbs, see_fps, see_out, stop_lb, stop_fp, stop_out,
  shut_worker, Steps, done, then_step,
}
use multi_threaded_dpi_engin.Engine.Places.{get_elem?-bound}
use multi_threaded_dpi_engin.Engine.Workers.{HandsFree-get, HandsFree-set}
use multi_threaded_dpi_engin.Engine.Finding.{get_elem?-some, HandsFree-take}

pub some_inj : (v w : Worker) → some v ≡ some w → v ≡ w
some_inj v w e = cc

-- Nothing more happens.
abbrev pub Final : StdHash → ℕ → ℕ → Pipeline → Type 0
Final h l f q = (r : Pipeline) → Step h l f q r → ⊥

-- The packet is in the queue of its fast path.
abbrev pub Waits : List Worker → ℕ → PacketJob → Type 0
Waits ws k job = (u : Worker) × (get_elem? ws k ≡ some u) × (u.queue.items ≡ job ∷ [])

clash_hand : (a : Option PacketJob) (job : PacketJob) → a ≡ none → a ≡ some job → ⊥
clash_hand a job e f = cc

clash_flag : (b : Bool) → b ≡ true → b ≡ false → ⊥
clash_flag b e f = cc

clash_rest : (xs ys : List PacketJob) (job : PacketJob) → xs ≡ [] → xs ≡ job ∷ ys → ⊥
clash_rest xs ys job e f = cc

-- All threads have been stopped and hold nothing.
pub record Over (q : Pipeline) : Type 0 where
  pub none_left : q.unread ≡ []
  pub waited : q.seen ≡ 3
  pub lbs_all : q.lbs_stopped ≡ length q.lbs
  pub fps_all : q.fps_stopped ≡ length q.fps
  pub out_down : q.out_running ≡ false
  pub lbs_free : HandsFree q.lbs
  pub fps_free : HandsFree q.fps
  pub quiet : q.out.queue.items ≡ []
  pub out_free : q.out.hand ≡ none

pub Over-no_step : (h : StdHash) (l f : ℕ) (q r : Pipeline) → Step h l f q r → Over q → ⊥
Over-no_step h l f _ _ (read_step p job rest w q e g k) o =
    clash_rest p.unread rest job o.none_left e
Over-no_step h l f _ _ (lb_pop p i w job q g e on k) o =
    omega (arith, o.lbs_all, get_elem?-bound p.lbs i w g)
Over-no_step h l f _ _ (lb_push p i w v job q g e n k) o =
    clash_hand w.hand job (HandsFree-get p.lbs i w o.lbs_free g) e
Over-no_step h l f _ _ (fp_pop p i w job q g e on k) o =
    omega (arith, o.fps_all, get_elem?-bound p.fps i w g)
Over-no_step h l f _ _ (fp_drop p i w job g e) o =
    clash_hand w.hand job (HandsFree-get p.fps i w o.fps_free g) e
Over-no_step h l f _ _ (fp_forward p i w job q g e k) o =
    clash_hand w.hand job (HandsFree-get p.fps i w o.fps_free g) e
Over-no_step h l f _ _ (out_pop p job q e going k) o =
    clash_flag (p.out_running || not (no_items p.out.queue)) going
      (unfold no_items in rw (o.out_down, o.quiet))
Over-no_step h l f _ _ (out_write p job e) o = clash_hand p.out.hand job o.out_free e
Over-no_step h l f _ _ (see_lbs p e k g) o = omega (arith, o.waited)
Over-no_step h l f _ _ (see_fps p k g) o = omega (arith, o.waited)
Over-no_step h l f _ _ (see_out p k g) o = omega (arith, o.waited)
Over-no_step h l f _ _ (stop_lb p w k g e) o =
    omega (arith, o.lbs_all, get_elem?-bound p.lbs p.lbs_stopped w g)
Over-no_step h l f _ _ (stop_fp p w n a g e) o =
    omega (arith, o.fps_all, get_elem?-bound p.fps p.fps_stopped w g)
Over-no_step h l f _ _ (stop_out p up n a) o = clash_flag p.out_running up o.out_down

Waits-set :
    (ws : List Worker) (j k : ℕ) (w : Worker) (job : PacketJob)
    → get_elem? ws j ≡ some w
    → Waits ws k job
    → Waits (set ws j (shut_worker w)) k job
Waits-set ws j k w job e (u, there, items) = elim (Bool-cases (j == k)) [
  | inl same ↦
      let equal : j ≡ k = ground arith in
      let w_is_u = some_inj w u (sym e ∙ ap (get_elem? ws) equal ∙ there) in
      (
        shut_worker w,
        ap (get_elem? (set ws j (shut_worker w))) (sym equal)
            ∙ get_elem?-set_self ws j (shut_worker w) (get_elem?-bound ws j w e),
        (unfold shutdown in ap (λ (t : Worker). t.queue.items) w_is_u ∙ items),
      )
  | inr other ↦
      let differs : j ≢ k = λ e2. ground arith in
      (u, get_elem?-set_ne ws (shut_worker w) differs ∙ there, items)
]

module _ (h : StdHash) (l f : ℕ) where
  pub steps-append : (p q r : Pipeline) → Steps h l f p q → Steps h l f q r → Steps h l f p r
  steps-append _ _ r (done p) rest = rest
  steps-append _ _ r (then_step p q u s steps) rest =
      then_step p q r s (steps-append q u r steps rest)

  -- The main thread stops the balancers, all of which hold nothing, and then the fast paths.
  pub stop_lbs-run :
      (n : ℕ) (p : Pipeline)
      → p.lbs_stopped + n ≡ length p.lbs
      → p.seen ≡ 3
      → HandsFree p.lbs
      → (ws : List Worker) × (m : ℕ) × Steps h l f p (record p { lbs = ws; lbs_stopped = m })
        × (m ≡ length ws)
        × HandsFree ws
  stop_lbs-run zero p e waited free = (p.lbs, p.lbs_stopped, done p, omega arith, free)
  stop_lbs-run (suc n) p e waited free =
      let (w, there) = get_elem?-some p.lbs p.lbs_stopped (omega arith) in
      let after : Pipeline = record p {
        lbs = set p.lbs p.lbs_stopped (shut_worker w);
        lbs_stopped = suc p.lbs_stopped;
      } in
      let (ws, m, steps, all, free_after) =
        stop_lbs-run n after (omega (arith, length-set p.lbs p.lbs_stopped (shut_worker w))) waited
          (HandsFree-set p.lbs p.lbs_stopped (shut_worker w) free
            (HandsFree-get p.lbs _ w free there)) in
      (
        ws,
        m,
        then_step p after _ (stop_lb p w waited there (HandsFree-take _ p.lbs free)) steps,
        all,
        free_after,
      )

  pub stop_fps-run :
      (n : ℕ) (p : Pipeline) (k : ℕ) (job : PacketJob)
      → p.fps_stopped + n ≡ length p.fps
      → p.lbs_stopped ≡ length p.lbs
      → HandsFree p.lbs
      → HandsFree p.fps
      → Waits p.fps k job
      → (ws : List Worker) × (m : ℕ) × Steps h l f p (record p { fps = ws; fps_stopped = m })
        × (m ≡ length ws)
        × HandsFree ws
        × Waits ws k job
  stop_fps-run zero p k job e lbs_all lbs_free free waits =
      (p.fps, p.fps_stopped, done p, omega arith, free, waits)
  stop_fps-run (suc n) p k job e lbs_all lbs_free free waits =
      let (w, there) = get_elem?-some p.fps p.fps_stopped (omega arith) in
      let after : Pipeline = record p {
        fps = set p.fps p.fps_stopped (shut_worker w);
        fps_stopped = suc p.fps_stopped;
      } in
      let (ws, m, steps, all, free_after, waits_after) =
        stop_fps-run n after k job (omega (arith, length-set p.fps p.fps_stopped (shut_worker w)))
          lbs_all lbs_free
          (HandsFree-set p.fps p.fps_stopped (shut_worker w) free
            (HandsFree-get p.fps _ w free there))
          (Waits-set p.fps p.fps_stopped k w job there waits) in
      (
        ws,
        m,
        then_step p after _ (stop_fp p w lbs_all lbs_free there (HandsFree-take _ p.fps free))
            steps,
        all,
        free_after,
        waits_after,
      )

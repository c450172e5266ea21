-- ===== src/Engine/Shutdown.antt =====
-- The order in which the threads are stopped: no push meets a queue that was shut down.
use multi_threaded_dpi_engin.Base.{
  ℕ, zero, suc, arith, ◌*◌, ◌<◌, ◌≡◌, refl, ◌∙◌, Bool, true, false, List, [], ◌∷◌, some, get_elem?,
  set, replicate,
}
use multi_threaded_dpi_engin.Types.{PacketJob}
use multi_threaded_dpi_engin.Types.Hash.{StdHash}
use multi_threaded_dpi_engin.Queue.{Queue}
use multi_threaded_dpi_engin.Queue.Effects.{push-is_shut, pop-is_shut}
use multi_threaded_dpi_engin.Engine.Pipeline.{
  Worker, Pipeline, lose, Step, read_step, lb_pop, lb_push, fp_pop, fp_drop, fp_forward, out_pop,
  out_write, see_lbs, see_fps, see_out, stop_lb, stop_fp, stop_out, Steps, done, then_step,
}
use multi_threaded_dpi_engin.Engine.Drain.{idle, start}
use multi_threaded_dpi_engin.Engine.Phases.{
  Phases, step-Phases, start-Phases, no_hand, no_rest, on_off,
}
use multi_threaded_dpi_engin.Engine.Workers.{HandsFree-get}

abbrev AllOpen : List Worker → Type 0
AllOpen [] = Unit
AllOpen (w ∷ ws) = (w.queue.is_shut ≡ false) × AllOpen ws

AllOpen-get :
    (ws : List Worker) (i : ℕ) (w : Worker)
    → AllOpen ws
    → get_elem? ws i ≡ some w
    → w.queue.is_shut ≡ false
AllOpen-get [] i w h e = cc
AllOpen-get (v ∷ ws) zero w h e = open_cong v w e h.0
  where
    open_cong : (a b : Worker) → some a ≡ some b → a.queue.is_shut ≡ false → b.queue.is_shut ≡ false
    open_cong a b g k = cc
AllOpen-get (v ∷ ws) (suc i) w h e = AllOpen-get ws i w h.1 e

AllOpen-set :
    (ws : List Worker) (i : ℕ) (w : Worker)
    → AllOpen ws
    → w.queue.is_shut ≡ false
    → AllOpen (set ws i w)
AllOpen-set [] i w h k = tt
AllOpen-set (v ∷ ws) zero w h k = (k, h.1)
AllOpen-set (v ∷ ws) (suc i) w h k = (h.0, AllOpen-set ws i w h.1 k)

-- Nothing was lost, and the queues are open until the first of their threads is stopped.
record Kept (p : Pipeline) : Type 0 where
  pub none_lost : p.lost ≡ []
  pub lbs_open : p.lbs_stopped ≡ 0 → AllOpen p.lbs
  pub fps_open : p.fps_stopped ≡ 0 → AllOpen p.fps
  pub out_open : p.out_running ≡ true → p.out.queue.is_shut ≡ false

-- A flag that cannot be off is on.
is_on : (b : Bool) → (b ≡ false → ⊥) → b ≡ true
is_on true h = refl
is_on false h = absurd (h refl)

is_zero : (n : ℕ) → (0 < n → ⊥) → n ≡ 0
is_zero zero h = refl
is_zero (suc n) h = absurd (h (omega arith))

not_lost :
    (job : PacketJob) (q : Queue PacketJob) (jobs : List PacketJob)
    → jobs ≡ []
    → q.is_shut ≡ false
    → lose job q jobs ≡ []
not_lost job q jobs e h = rw h e

module _ (h : StdHash) (l f : ℕ) where
  -- With packets to read, or in a balancer's hand, nothing behind has been stopped.
  reader_on :
      (p : Pipeline) (job : PacketJob) (rest : List PacketJob)
      → Phases l f p
      → p.unread ≡ job ∷ rest
      → p.lbs_stopped ≡ 0
  reader_on p job rest v e =
      is_zero p.lbs_stopped (λ b. no_rest (v.seen_after (omega (arith, v.lbs_after b))) e)

  step-Kept : (p q : Pipeline) → Step h l f p q → Phases l f p → Kept p → Kept q
  step-Kept _ _ (read_step p job rest w q e g k) v a =
      let on = reader_on p job rest v e in
      let free = AllOpen-get p.lbs _ w (a.lbs_open on) g in
      record {
        none_lost = not_lost job w.queue p.lost a.none_lost free;
        lbs_open = λ b. AllOpen-set p.lbs _ _ (a.lbs_open on) (push-is_shut job w.queue q k ∙ free);
        fps_open = a.fps_open;
        out_open = a.out_open;
      }
  step-Kept _ _ (lb_pop p i w job q g e r k) v a = record {
    none_lost = a.none_lost;
    lbs_open = λ b.
        AllOpen-set p.lbs i _ (a.lbs_open b)
          (pop-is_shut w.queue q job k ∙ AllOpen-get p.lbs i w (a.lbs_open b) g);
    fps_open = a.fps_open;
    out_open = a.out_open;
  }
  step-Kept _ _ (lb_push p i w u job q g e n k) v a =
      let on =
        is_zero p.fps_stopped (λ b. no_hand (HandsFree-get p.lbs i w (v.fps_after b).1 g) e) in
      let free = AllOpen-get p.fps _ u (a.fps_open on) n in
      record {
        none_lost = not_lost job u.queue p.lost a.none_lost free;
        lbs_open =
            λ b. AllOpen-set p.lbs i _ (a.lbs_open b) (AllOpen-get p.lbs i w (a.lbs_open b) g);
        fps_open = λ b. AllOpen-set p.fps _ _ (a.fps_open on) (push-is_shut job u.queue q k ∙ free);
        out_open = a.out_open;
      }
  step-Kept _ _ (fp_pop p i w job q g e r k) v a = record {
    none_lost = a.none_lost;
    lbs_open = a.lbs_open;
    fps_open = λ b.
        AllOpen-set p.fps i _ (a.fps_open b)
          (pop-is_shut w.queue q job k ∙ AllOpen-get p.fps i w (a.fps_open b) g);
    out_open = a.out_open;
  }
  step-Kept _ _ (fp_drop p i w job g e) v a = record {
    none_lost = a.none_lost;
    lbs_open = a.lbs_open;
    fps_open = λ b. AllOpen-set p.fps i _ (a.fps_open b) (AllOpen-get p.fps i w (a.fps_open b) g);
    out_open = a.out_open;
  }
  step-Kept _ _ (fp_forward p i w job q g e k) v a =
      let up = is_on p.out_running (λ b. no_hand (HandsFree-get p.fps i w (v.out_after b).1 g) e) in
      record {
        none_lost = not_lost job p.out.queue p.lost a.none_lost (a.out_open up);
        lbs_open = a.lbs_open;
        fps_open =
            λ b. AllOpen-set p.fps i _ (a.fps_open b) (AllOpen-get p.fps i w (a.fps_open b) g);
        out_open = λ b. push-is_shut job p.out.queue q k ∙ a.out_open b;
      }
  step-Kept _ _ (out_pop p job q e r k) v a = record {
    none_lost = a.none_lost;
    lbs_open = a.lbs_open;
    fps_open = a.fps_open;
    out_open = λ b. pop-is_shut p.out.queue q job k ∙ a.out_open b;
  }
  step-Kept _ _ (out_write p job e) v a = record {
    none_lost = a.none_lost;
    lbs_open = a.lbs_open;
    fps_open = a.fps_open;
    out_open = a.out_open;
  }
  step-Kept _ _ (see_lbs p e k g) v a = record {
    none_lost = a.none_lost;
    lbs_open = a.lbs_open;
    fps_open = a.fps_open;
    out_open = a.out_open;
  }
  step-Kept _ _ (see_fps p k g) v a = record {
    none_lost = a.none_lost;
    lbs_open = a.lbs_open;
    fps_open = a.fps_open;
    out_open = a.out_open;
  }
  step-Kept _ _ (see_out p k g) v a = record {
    none_lost = a.none_lost;
    lbs_open = a.lbs_open;
    fps_open = a.fps_open;
    out_open = a.out_open;
  }
  step-Kept _ _ (stop_lb p w k g e) v a = record {
    none_lost = a.none_lost;
    lbs_open = λ b. absurd (omega arith);
    fps_open = a.fps_open;
    out_open = a.out_open;
  }
  step-Kept _ _ (stop_fp p w n c g e) v a = record {
    none_lost = a.none_lost;
    lbs_open = a.lbs_open;
    fps_open = λ b. absurd (omega arith);
    out_open = a.out_open;
  }
  step-Kept _ _ (stop_out p up n c) v a = record {
    none_lost = a.none_lost;
    lbs_open = a.lbs_open;
    fps_open = a.fps_open;
    out_open = λ b. absurd (on_off b refl);
  }

  steps-Kept : (p q : Pipeline) → Steps h l f p q → Phases l f p → Kept p → Kept q
  steps-Kept _ _ (done p) v a = a
  steps-Kept _ _ (then_step p q r s rest) v a =
      steps-Kept q r rest (step-Phases h l f p q s v) (step-Kept p q s v a)

AllOpen-replicate : (n size : ℕ) → AllOpen (replicate n (idle size))
AllOpen-replicate zero size = tt
AllOpen-replicate (suc n) size = (refl, AllOpen-replicate n size)

-- The order of the shutdown is right for the pushes: on queues of any size above zero, and
-- whatever the threads do, no packet is ever lost by a push on a queue that was shut down.
pub steps-NoneLost :
    (h : StdHash) (l f size : ℕ) (jobs : List PacketJob) (q : Pipeline)
    → 0 < size
    → Steps h l f (start l f size jobs) q
    → q.lost ≡ []
steps-NoneLost h l f size jobs q room run =
    (steps-Kept h l f (start l f size jobs) q run (start-Phases l f size jobs room) begin).none_lost
  where
    begin : Kept (start l f size jobs)
    begin = record {
      none_lost = refl;
      lbs_open = λ b. AllOpen-replicate l size;
      fps_open = λ b. AllOpen-replicate (l * f) size;
      out_open = λ b. refl;
    }

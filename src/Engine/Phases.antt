-- ===== src/Engine/Phases.antt =====
-- What holds of the pipeline at every time: its threads are told to stop and end in order.
use multi_threaded_dpi_engin.Base.{
  ℕ, ◌*◌, ◌≤◌, ◌<◌, ◌≡◌, refl, ◌∙◌, Bool, true, false, List, [], ◌∷◌, Option, none, some, get_elem?,
  arith,
}
use multi_threaded_dpi_engin.Types.{PacketJob}
use multi_threaded_dpi_engin.Types.Hash.{StdHash}
use multi_threaded_dpi_engin.Engine.Pipeline.{
  Worker, Pipeline, HandsFree, Step, read_step, lb_pop, lb_push, fp_pop, fp_drop, fp_forward,
  out_pop, out_write, see_lbs, see_fps, see_out, stop_lb, stop_fp, stop_out, Steps, done, then_step,
}
use multi_threaded_dpi_engin.Engine.Places.{get_elem?-bound}
use multi_threaded_dpi_engin.Engine.Drain.{start}
use multi_threaded_dpi_engin.Engine.Sizes.{Sized, step-Sized, start-Sized}
use multi_threaded_dpi_engin.Engine.Workers.{HandsFree-get}

-- The main thread's progress: what it has waited for and which threads have ended.
pub record Phases (l f : ℕ) (p : Pipeline) : Type 0 where
  pub sized : Sized l f p
  pub seen_after : 0 < p.seen → p.unread ≡ []
  pub seen_most : p.seen ≤ 3
  pub lbs_after : 0 < p.lbs_stopped → p.seen ≡ 3
  pub lbs_most : p.lbs_stopped ≤ l
  pub fps_after : 0 < p.fps_stopped → (p.lbs_stopped ≡ l) × HandsFree p.lbs
  pub fps_most : p.fps_stopped ≤ l * f
  pub out_after : p.out_running ≡ false → (p.fps_stopped ≡ l * f) × HandsFree p.fps

pub no_hand : {a : Option PacketJob} {job : PacketJob} → a ≡ none → a ≡ some job → ⊥
no_hand e f = cc

pub no_rest : {xs ys : List PacketJob} {job : PacketJob} → xs ≡ [] → xs ≡ job ∷ ys → ⊥
no_rest e f = cc

pub on_off : {b : Bool} → b ≡ true → b ≡ false → ⊥
on_off e f = cc

module _ (h : StdHash) (l f : ℕ) where
  -- Of two cases below: a fast path was stopped after all balancers, so there is one.
  some_fp :
      (p : Pipeline) (i : ℕ) (w : Worker)
      → Phases l f p
      → get_elem? p.fps i ≡ some w
      → p.fps_stopped ≡ l * f
      → 0 < p.fps_stopped
  some_fp p i w v g e = omega (arith, v.sized.fps_length, get_elem?-bound p.fps i w g)

  pub step-Phases : (p q : Pipeline) → Step h l f p q → Phases l f p → Phases l f q
  step-Phases _ _ (read_step p job rest w q e g k) v = record {
    sized = step-Sized h l f _ _ (read_step p job rest w q e g k) v.sized;
    seen_after = λ b. absurd (no_rest (v.seen_after b) e);
    seen_most = v.seen_most;
    lbs_after = v.lbs_after;
    lbs_most = v.lbs_most;
    fps_after = λ b. absurd (
        no_rest
          (v.seen_after (
            omega (
              arith,
              v.lbs_after (
                  omega
                    (arith, (v.fps_after b).0, v.sized.lbs_length, get_elem?-bound p.lbs _ w g)),
            )))
          e);
    fps_most = v.fps_most;
    out_after = v.out_after;
  }
  step-Phases _ _ (lb_pop p i w job q g e r k) v = record {
    sized = step-Sized h l f _ _ (lb_pop p i w job q g e r k) v.sized;
    seen_after = v.seen_after;
    seen_most = v.seen_most;
    lbs_after = v.lbs_after;
    lbs_most = v.lbs_most;
    fps_after = λ b.
        absurd (omega (arith, (v.fps_after b).0, v.sized.lbs_length, get_elem?-bound p.lbs i w g));
    fps_most = v.fps_most;
    out_after = v.out_after;
  }
  step-Phases _ _ (lb_push p i w u job q g e n k) v = record {
    sized = step-Sized h l f _ _ (lb_push p i w u job q g e n k) v.sized;
    seen_after = v.seen_after;
    seen_most = v.seen_most;
    lbs_after = v.lbs_after;
    lbs_most = v.lbs_most;
    fps_after = λ b. absurd (no_hand (HandsFree-get p.lbs i w (v.fps_after b).1 g) e);
    fps_most = v.fps_most;
    out_after = λ b. absurd (
        no_hand (HandsFree-get p.lbs i w (v.fps_after (some_fp p _ u v n (v.out_after b).0)).1 g)
          e);
  }
  step-Phases _ _ (fp_pop p i w job q g e r k) v = record {
    sized = step-Sized h l f _ _ (fp_pop p i w job q g e r k) v.sized;
    seen_after = v.seen_after;
    seen_most = v.seen_most;
    lbs_after = v.lbs_after;
    lbs_most = v.lbs_most;
    fps_after = v.fps_after;
    fps_most = v.fps_most;
    out_after = λ b.
        absurd (omega (arith, (v.out_after b).0, v.sized.fps_length, get_elem?-bound p.fps i w g));
  }
  step-Phases _ _ (fp_drop p i w job g e) v = record {
    sized = step-Sized h l f _ _ (fp_drop p i w job g e) v.sized;
    seen_after = v.seen_after;
    seen_most = v.seen_most;
    lbs_after = v.lbs_after;
    lbs_most = v.lbs_most;
    fps_after = v.fps_after;
    fps_most = v.fps_most;
    out_after = λ b. absurd (no_hand (HandsFree-get p.fps i w (v.out_after b).1 g) e);
  }
  step-Phases _ _ (fp_forward p i w job q g e k) v = record {
    sized = step-Sized h l f _ _ (fp_forward p i w job q g e k) v.sized;
    seen_after = v.seen_after;
    seen_most = v.seen_most;
    lbs_after = v.lbs_after;
    lbs_most = v.lbs_most;
    fps_after = v.fps_after;
    fps_most = v.fps_most;
    out_after = λ b. absurd (no_hand (HandsFree-get p.fps i w (v.out_after b).1 g) e);
  }
  step-Phases _ _ (out_pop p job q e r k) v = record {
    sized = step-Sized h l f _ _ (out_pop p job q e r k) v.sized;
    seen_after = v.seen_after;
    seen_most = v.seen_most;
    lbs_after = v.lbs_after;
    lbs_most = v.lbs_most;
    fps_after = v.fps_after;
    fps_most = v.fps_most;
    out_after = v.out_after;
  }
  step-Phases _ _ (out_write p job e) v = record {
    sized = step-Sized h l f _ _ (out_write p job e) v.sized;
    seen_after = v.seen_after;
    seen_most = v.seen_most;
    lbs_after = v.lbs_after;
    lbs_most = v.lbs_most;
    fps_after = v.fps_after;
    fps_most = v.fps_most;
    out_after = v.out_after;
  }
  step-Phases _ _ (see_lbs p e k g) v = record {
    sized = step-Sized h l f _ _ (see_lbs p e k g) v.sized;
    seen_after = λ b. e;
    seen_most = omega arith;
    lbs_after = λ b. absurd (omega (arith, v.lbs_after b));
    lbs_most = v.lbs_most;
    fps_after = v.fps_after;
    fps_most = v.fps_most;
    out_after = v.out_after;
  }
  step-Phases _ _ (see_fps p k g) v = record {
    sized = step-Sized h l f _ _ (see_fps p k g) v.sized;
    seen_after = λ b. v.seen_after (omega arith);
    seen_most = omega arith;
    lbs_after = λ b. absurd (omega (arith, v.lbs_after b));
    lbs_most = v.lbs_most;
    fps_after = v.fps_after;
    fps_most = v.fps_most;
    out_after = v.out_after;
  }
  step-Phases _ _ (see_out p k g) v = record {
    sized = step-Sized h l f _ _ (see_out p k g) v.sized;
    seen_after = λ b. v.seen_after (omega arith);
    seen_most = omega arith;
    lbs_after = λ b. refl;
    lbs_most = v.lbs_most;
    fps_after = v.fps_after;
    fps_most = v.fps_most;
    out_after = v.out_after;
  }
  step-Phases _ _ (stop_lb p w k g e) v = record {
    sized = step-Sized h l f _ _ (stop_lb p w k g e) v.sized;
    seen_after = v.seen_after;
    seen_most = v.seen_most;
    lbs_after = λ b. k;
    lbs_most = omega (arith, v.sized.lbs_length, get_elem?-bound p.lbs _ w g);
    fps_after = λ b.
        absurd (omega (arith, (v.fps_after b).0, v.sized.lbs_length, get_elem?-bound p.lbs _ w g));
    fps_most = v.fps_most;
    out_after = v.out_after;
  }
  step-Phases _ _ (stop_fp p w n a g e) v = record {
    sized = step-Sized h l f _ _ (stop_fp p w n a g e) v.sized;
    seen_after = v.seen_after;
    seen_most = v.seen_most;
    lbs_after = v.lbs_after;
    lbs_most = v.lbs_most;
    fps_after = λ b. (n ∙ v.sized.lbs_length, a);
    fps_most = omega (arith, v.sized.fps_length, get_elem?-bound p.fps _ w g);
    out_after = λ b.
        absurd (omega (arith, (v.out_after b).0, v.sized.fps_length, get_elem?-bound p.fps _ w g));
  }
  step-Phases _ _ (stop_out p up n a) v = record {
    sized = step-Sized h l f _ _ (stop_out p up n a) v.sized;
    seen_after = v.seen_after;
    seen_most = v.seen_most;
    lbs_after = v.lbs_after;
    lbs_most = v.lbs_most;
    fps_after = v.fps_after;
    fps_most = v.fps_most;
    out_after = λ b. (n ∙ v.sized.fps_length, a);
  }

  pub steps-Phases : (p q : Pipeline) → Steps h l f p q → Phases l f p → Phases l f q
  steps-Phases _ _ (done p) v = v
  steps-Phases _ _ (then_step p q r s rest) v = steps-Phases q r rest (step-Phases p q s v)

pub start-Phases :
    (l f size : ℕ) (jobs : List PacketJob) → 0 < size → Phases l f (start l f size jobs)
start-Phases l f size jobs room = record {
  sized = start-Sized l f size jobs room;
  seen_after = λ b. absurd (omega arith);
  seen_most = omega arith;
  lbs_after = λ b. absurd (omega arith);
  lbs_most = omega arith;
  fps_after = λ b. absurd (omega arith);
  fps_most = omega arith;
  out_after = λ b. absurd (on_off refl b);
}

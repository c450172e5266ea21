-- ===== src/Engine/Sizes.antt =====
-- How many threads the pipeline has, and that their queues have room for a packet.
use multi_threaded_dpi_engin.Base.{
  ℕ, zero, suc, ◌*◌, ◌<◌, ◌≡◌, ◌∙◌, List, arith, length, length-set, length-replicate, replicate,
}
use multi_threaded_dpi_engin.Types.{PacketJob}
use multi_threaded_dpi_engin.Types.Hash.{StdHash}
use multi_threaded_dpi_engin.Queue.{shutdown}
use multi_threaded_dpi_engin.Queue.Effects.{push-max_size, pop-max_size}
use multi_threaded_dpi_engin.Engine.Pipeline.{
  Pipeline, Step, read_step, lb_pop, lb_push, fp_pop, fp_drop, fp_forward, out_pop, out_write,
  see_lbs, see_fps, see_out, stop_lb, stop_fp, stop_out,
}
use multi_threaded_dpi_engin.Engine.Drain.{idle, start}
use multi_threaded_dpi_engin.Engine.Workers.{AllRoom, AllRoom-get, AllRoom-set}

pub record Sized (l f : ℕ) (p : Pipeline) : Type 0 where
  pub lbs_length : length p.lbs ≡ l
  pub fps_length : length p.fps ≡ l * f
  pub lbs_room : AllRoom p.lbs
  pub fps_room : AllRoom p.fps
  pub out_room : 0 < p.out.queue.max_size

module _ (h : StdHash) (l f : ℕ) where
  pub step-Sized : (p q : Pipeline) → Step h l f p q → Sized l f p → Sized l f q
  step-Sized _ _ (read_step p job rest w q e g k) v = record {
    lbs_length = length-set p.lbs _ _ ∙ v.lbs_length;
    fps_length = v.fps_length;
    lbs_room =
        AllRoom-set p.lbs _ _ v.lbs_room
          (omega (arith, AllRoom-get p.lbs _ w v.lbs_room g, push-max_size job w.queue q k));
    fps_room = v.fps_room;
    out_room = v.out_room;
  }
  step-Sized _ _ (lb_pop p i w job q g e r k) v = record {
    lbs_length = length-set p.lbs i _ ∙ v.lbs_length;
    fps_length = v.fps_length;
    lbs_room =
        AllRoom-set p.lbs i _ v.lbs_room
          (omega (arith, AllRoom-get p.lbs i w v.lbs_room g, pop-max_size w.queue q job k));
    fps_room = v.fps_room;
    out_room = v.out_room;
  }
  step-Sized _ _ (lb_push p i w u job q g e n k) v = record {
    lbs_length = length-set p.lbs i _ ∙ v.lbs_length;
    fps_length = length-set p.fps _ _ ∙ v.fps_length;
    lbs_room = AllRoom-set p.lbs i _ v.lbs_room (AllRoom-get p.lbs i w v.lbs_room g);
    fps_room =
        AllRoom-set p.fps _ _ v.fps_room
          (omega (arith, AllRoom-get p.fps _ u v.fps_room n, push-max_size job u.queue q k));
    out_room = v.out_room;
  }
  step-Sized _ _ (fp_pop p i w job q g e r k) v = record {
    lbs_length = v.lbs_length;
    fps_length = length-set p.fps i _ ∙ v.fps_length;
    lbs_room = v.lbs_room;
    fps_room =
        AllRoom-set p.fps i _ v.fps_room
          (omega (arith, AllRoom-get p.fps i w v.fps_room g, pop-max_size w.queue q job k));
    out_room = v.out_room;
  }
  step-Sized _ _ (fp_drop p i w job g e) v = record {
    lbs_length = v.lbs_length;
    fps_length = length-set p.fps i _ ∙ v.fps_length;
    lbs_room = v.lbs_room;
    fps_room = AllRoom-set p.fps i _ v.fps_room (AllRoom-get p.fps i w v.fps_room g);
    out_room = v.out_room;
  }
  step-Sized _ _ (fp_forward p i w job q g e k) v = record {
    lbs_length = v.lbs_length;
    fps_length = length-set p.fps i _ ∙ v.fps_length;
    lbs_room = v.lbs_room;
    fps_room = AllRoom-set p.fps i _ v.fps_room (AllRoom-get p.fps i w v.fps_room g);
    out_room = omega (arith, v.out_room, push-max_size job p.out.queue q k);
  }
  step-Sized _ _ (out_pop p job q e r k) v = record {
    lbs_length = v.lbs_length;
    fps_length = v.fps_length;
    lbs_room = v.lbs_room;
    fps_room = v.fps_room;
    out_room = omega (arith, v.out_room, pop-max_size p.out.queue q job k);
  }
  step-Sized _ _ (out_write p job e) v = record {
    lbs_length = v.lbs_length;
    fps_length = v.fps_length;
    lbs_room = v.lbs_room;
    fps_room = v.fps_room;
    out_room = v.out_room;
  }
  step-Sized _ _ (see_lbs p e k g) v = record {
    lbs_length = v.lbs_length;
    fps_length = v.fps_length;
    lbs_room = v.lbs_room;
    fps_room = v.fps_room;
    out_room = v.out_room;
  }
  step-Sized _ _ (see_fps p k g) v = record {
    lbs_length = v.lbs_length;
    fps_length = v.fps_length;
    lbs_room = v.lbs_room;
    fps_room = v.fps_room;
    out_room = v.out_room;
  }
  step-Sized _ _ (see_out p k g) v = record {
    lbs_length = v.lbs_length;
    fps_length = v.fps_length;
    lbs_room = v.lbs_room;
    fps_room = v.fps_room;
    out_room = v.out_room;
  }
  step-Sized _ _ (stop_lb p w k g e) v = record {
    lbs_length = length-set p.lbs _ _ ∙ v.lbs_length;
    fps_length = v.fps_length;
    lbs_room =
        AllRoom-set p.lbs _ _ v.lbs_room (unfold shutdown in AllRoom-get p.lbs _ w v.lbs_room g);
    fps_room = v.fps_room;
    out_room = v.out_room;
  }
  step-Sized _ _ (stop_fp p w n a g e) v = record {
    lbs_length = v.lbs_length;
    fps_length = length-set p.fps _ _ ∙ v.fps_length;
    lbs_room = v.lbs_room;
    fps_room =
        AllRoom-set p.fps _ _ v.fps_room (unfold shutdown in AllRoom-get p.fps _ w v.fps_room g);
    out_room = v.out_room;
  }
  step-Sized _ _ (stop_out p up n a) v = record {
    lbs_length = v.lbs_length;
    fps_length = v.fps_length;
    lbs_room = v.lbs_room;
    fps_room = v.fps_room;
    out_room = unfold shutdown in v.out_room;
  }

AllRoom-replicate : (n size : ℕ) → 0 < size → AllRoom (replicate n (idle size))
AllRoom-replicate zero size h = tt
AllRoom-replicate (suc n) size h = (h, AllRoom-replicate n size h)

pub start-Sized :
    (l f size : ℕ) (jobs : List PacketJob) → 0 < size → Sized l f (start l f size jobs)
start-Sized l f size jobs room = record {
  lbs_length = length-replicate l (idle size);
  fps_length = length-replicate (l * f) (idle size);
  lbs_room = AllRoom-replicate l size room;
  fps_room = AllRoom-replicate (l * f) size room;
  out_room = room;
}

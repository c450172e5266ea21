-- ===== src/Engine/Drain.antt =====
-- Whole runs of the pipeline, from the start of the threads on.
use multi_threaded_dpi_engin.Base.{
  ℕ, zero, suc, ◌*◌, ◌≡◌, refl, true, List, [], ◌∷◌, none, arith, length, replicate,
}
use multi_threaded_dpi_engin.Types.{PacketJob}
use multi_threaded_dpi_engin.Types.Hash.{StdHash}
use multi_threaded_dpi_engin.Queue.{new_queue}
use multi_threaded_dpi_engin.Engine.Pipeline.{Worker, Pipeline, Steps}
use multi_threaded_dpi_engin.Engine.Places.{
  Place, unread, lb_queue, lb_hand, fp_queue, fp_hand, sum, worker_sum, weigh,
}
use multi_threaded_dpi_engin.Engine.Moves.{steps-weight}

-- A thread that was just started, on a queue of this size.
abbrev pub idle : ℕ → Worker
idle size = record { queue = new_queue size; hand = none }

-- `initialize` and `start`, with the jobs that the reader is to make.
abbrev pub start : ℕ → ℕ → ℕ → List PacketJob → Pipeline
start num_lbs fps_per_lb size jobs = record {
  unread = jobs;
  lbs = replicate num_lbs (idle size);
  fps = replicate (num_lbs * fps_per_lb) (idle size);
  out = idle size;
  written = [];
  dropped = [];
  lost = [];
  seen = 0;
  lbs_stopped = 0;
  fps_stopped = 0;
  out_running = true;
}

sum-idle : (a b : PacketJob → ℕ) (n size : ℕ) → sum (worker_sum a b) (replicate n (idle size)) ≡ 0
sum-idle a b zero size = refl
sum-idle a b (suc n) size = omega (arith, sum-idle a b n size)

pub weigh-start :
    (W : Place → PacketJob → ℕ) (l f size : ℕ) (jobs : List PacketJob)
    → weigh W (start l f size jobs) ≡ sum (W unread) jobs
weigh-start W l f size jobs = omega (
  arith,
  sum-idle (W lb_queue) (W lb_hand) l size,
  sum-idle (W fp_queue) (W fp_hand) (l * f) size,
)

pub sum-seven : (jobs : List PacketJob) → sum (λ job. 7) jobs ≡ 7 * length jobs
sum-seven [] = refl
sum-seven (job ∷ jobs) = omega (arith, sum-seven jobs)

-- Whatever the threads do and in whatever order, no packet is duplicated or vanishes: with any
-- weight of packets, such as one for one packet and zero for all others, the packets still to be
-- read, in the queues, in the hands of threads, written, dropped and lost together weigh at every
-- time as much as all the packets of the capture.
pub steps-Conserve :
    (h : StdHash) (l f size : ℕ) (jobs : List PacketJob) (q : Pipeline) (w : PacketJob → ℕ)
    → Steps h l f (start l f size jobs) q
    → weigh (λ place. w) q ≡ sum w jobs
steps-Conserve h l f size jobs q w run = omega (
  arith,
  steps-weight h l f w (start l f size jobs) q run,
  weigh-start (λ place. w) l f size jobs,
)

-- ===== src/Engine/Pipeline.antt =====
-- The threads of `DPIEngine::processFile` of src/dpi_engine.cpp on their queues, as a step relation:
-- the reader, the balancers, the fast paths, the output thread, and the main thread that stops them.
-- A thread's body runs from one call of a queue to the next, so that a packet that was popped is in
-- the thread's hand until it is pushed on; a test of `running_` is one step with the pop behind it.
-- Which packets the fast paths drop is left open here. Turns of a loop in which `popWithTimeout` returns
-- nothing, and tests of the main thread's wait that fail, are not among the steps; Turns adds them.
use multi_threaded_dpi_engin.Base.{
  ℕ, suc, ◌≤◌, length, take, ◌%◌, ◌≡◌, Bool, true, false, not, ◌&&◌, ◌||◌, if◌then◌else◌, List, [],
  ◌∷◌, ◌++◌, Option, none, some, get_elem?, set,
}
use multi_threaded_dpi_engin.Types.{PacketJob}
use multi_threaded_dpi_engin.Types.Hash.{StdHash, tuple_hash}
use multi_threaded_dpi_engin.Queue.{Queue, push, pop_with_timeout, shutdown}
use multi_threaded_dpi_engin.Balancer.Routing.{fp_of}

-- A thread with its input queue, and the packet that it has popped and not handed on.
pub record Worker : Type 0 where
  pub queue : Queue PacketJob
  pub hand : Option PacketJob

-- What the reader has still to push, the threads, the packets written and dropped, those that a
-- push after a shutdown has lost; and of the main thread, how many tests of its wait have passed in
-- a row, and how many balancers and fast paths it has told to stop, in the order of their numbers.
pub record Pipeline : Type 0 where
  pub unread : List PacketJob
  pub lbs : List Worker
  pub fps : List Worker
  pub out : Worker
  pub written : List PacketJob
  pub dropped : List PacketJob
  pub lost : List PacketJob
  pub seen : ℕ
  pub lbs_stopped : ℕ
  pub fps_stopped : ℕ
  pub out_running : Bool

-- `empty`
unfoldable pub no_items : Queue PacketJob → Bool
no_items q = elim q.items [ [] ↦ true | _ ∷ _ ↦ false ]

-- `LBManager::queuesEmpty` and `FPManager::queuesEmpty`, which lock one queue after the other; here
-- they see all queues at one time.
unfoldable pub queues_empty : List Worker → Bool
unfolding no_items
queues_empty [] = true
queues_empty (w ∷ ws) = no_items w.queue && queues_empty ws

-- The tests that end the main thread's wait for the pipeline, all at one time.
unfoldable pub drained : Pipeline → Bool
unfolding queues_empty
drained p = queues_empty p.lbs && queues_empty p.fps && no_items p.out.queue

-- No thread of these has a packet in its hand, so that all have left their bodies.
abbrev pub HandsFree : List Worker → Type 0
HandsFree [] = Unit
HandsFree (w ∷ ws) = (w.hand ≡ none) × HandsFree ws

-- `running_ = false` and `shutdown` of the input queue.
abbrev pub shut_worker : Worker → Worker
shut_worker w = record w { queue = shutdown w.queue }

-- A push onto a queue that was shut down returns without the packet.
abbrev pub lose : PacketJob → Queue PacketJob → List PacketJob → List PacketJob
lose job q lost = if q.is_shut then job ∷ lost else lost

module _ (h : StdHash) (num_lbs fps_per_lb : ℕ) where
  -- The balancer and the fast path of a packet.
  abbrev pub lb_index : PacketJob → ℕ
  lb_index job = tuple_hash h job.tuple % num_lbs

  abbrev pub fp_index : PacketJob → ℕ
  fp_index job = fp_of h num_lbs fps_per_lb job.tuple

  pub data Step : Pipeline → Pipeline → Type 0 where
    -- The reader pushes its next job.
    read_step :
        (p : Pipeline) (job : PacketJob) (rest : List PacketJob) (w : Worker) (q : Queue PacketJob)
        → p.unread ≡ job ∷ rest
        → get_elem? p.lbs (lb_index job) ≡ some w
        → push job w.queue ≡ some q
        → Step p (record p {
          unread = rest;
          lbs = set p.lbs (lb_index job) (record w { queue = q });
          lost = lose job w.queue p.lost;
        })
    -- A balancer pops a job, and pushes it to its fast path.
    lb_pop :
        (p : Pipeline) (i : ℕ) (w : Worker) (job : PacketJob) (q : Queue PacketJob)
        → get_elem? p.lbs i ≡ some w
        → w.hand ≡ none
        → p.lbs_stopped ≤ i
        → pop_with_timeout w.queue ≡ (some job, q)
        → Step p (record p { lbs = set p.lbs i (record { queue = q; hand = some job }) })
    lb_push :
        (p : Pipeline) (i : ℕ) (w v : Worker) (job : PacketJob) (q : Queue PacketJob)
        → get_elem? p.lbs i ≡ some w
        → w.hand ≡ some job
        → get_elem? p.fps (fp_index job) ≡ some v
        → push job v.queue ≡ some q
        → Step p (record p {
          lbs = set p.lbs i (record w { hand = none });
          fps = set p.fps (fp_index job) (record v { queue = q });
          lost = lose job v.queue p.lost;
        })
    -- A fast path pops a job, and drops it or pushes it to the output.
    fp_pop :
        (p : Pipeline) (i : ℕ) (w : Worker) (job : PacketJob) (q : Queue PacketJob)
        → get_elem? p.fps i ≡ some w
        → w.hand ≡ none
        → p.fps_stopped ≤ i
        → pop_with_timeout w.queue ≡ (some job, q)
        → Step p (record p { fps = set p.fps i (record { queue = q; hand = some job }) })
    fp_drop :
        (p : Pipeline) (i : ℕ) (w : Worker) (job : PacketJob)
        → get_elem? p.fps i ≡ some w
        → w.hand ≡ some job
        → Step p (record p {
          fps = set p.fps i (record w { hand = none });
          dropped = p.dropped ++ job ∷ [];
        })
    fp_forward :
        (p : Pipeline) (i : ℕ) (w : Worker) (job : PacketJob) (q : Queue PacketJob)
        → get_elem? p.fps i ≡ some w
        → w.hand ≡ some job
        → push job p.out.queue ≡ some q
        → Step p (record p {
          fps = set p.fps i (record w { hand = none });
          out = record p.out { queue = q };
          lost = lose job p.out.queue p.lost;
        })
    -- The output thread pops a job, while the engine runs or the queue has items, and writes it.
    out_pop :
        (p : Pipeline) (job : PacketJob) (q : Queue PacketJob)
        → p.out.hand ≡ none
        → (p.out_running || not (no_items p.out.queue)) ≡ true
        → pop_with_timeout p.out.queue ≡ (some job, q)
        → Step p (record p { out = record { queue = q; hand = some job } })
    out_write :
        (p : Pipeline) (job : PacketJob)
        → p.out.hand ≡ some job
        → Step p (record p { out = record p.out { hand = none }; written = p.written ++ job ∷ [] })
    -- The main thread waits, behind the reader's end, until one test after the other passes.
    see_lbs :
        (p : Pipeline)
        → p.unread ≡ []
        → p.seen ≡ 0
        → queues_empty p.lbs ≡ true
        → Step p (record p { seen = 1 })
    see_fps :
        (p : Pipeline) → p.seen ≡ 1 → queues_empty p.fps ≡ true → Step p (record p { seen = 2 })
    see_out :
        (p : Pipeline) → p.seen ≡ 2 → no_items p.out.queue ≡ true → Step p (record p { seen = 3 })
    -- It stops each balancer when those before it have ended, then each fast path, then the output.
    stop_lb :
        (p : Pipeline) (w : Worker)
        → p.seen ≡ 3
        → get_elem? p.lbs p.lbs_stopped ≡ some w
        → HandsFree (take p.lbs_stopped p.lbs)
        → Step p (record p {
          lbs = set p.lbs p.lbs_stopped (shut_worker w);
          lbs_stopped = suc p.lbs_stopped;
        })
    stop_fp :
        (p : Pipeline) (w : Worker)
        → p.lbs_stopped ≡ length p.lbs
        → HandsFree p.lbs
        → get_elem? p.fps p.fps_stopped ≡ some w
        → HandsFree (take p.fps_stopped p.fps)
        → Step p (record p {
          fps = set p.fps p.fps_stopped (shut_worker w);
          fps_stopped = suc p.fps_stopped;
        })
    stop_out :
        (p : Pipeline)
        → p.out_running ≡ true
        → p.fps_stopped ≡ length p.fps
        → HandsFree p.fps
        → Step p
            (record p { out = record p.out { queue = shutdown p.out.queue }; out_running = false })

  -- Any number of steps.
  pub data Steps : Pipeline → Pipeline → Type 0 where
    done : (p : Pipeline) → Steps p p
    then_step : (p q r : Pipeline) → Step p q → Steps q r → Steps p r

-- ===== src/Engine/Stranded.antt =====
-- The wait for the pipeline in `processFile` of src/dpi_engine.cpp looks at the queues only.
use multi_threaded_dpi_engin.Base.{
  ℕ, zero, suc, ◌≡◌, refl, sym, ap, ◌∙◌, true, false, ◌&&◌, List, [], ◌∷◌, ◌++◌, ltb, none, some,
  get_elem?, set, arith, length, get_elem?-set_self,
}
use multi_threaded_dpi_engin.Types.{PacketJob}
use multi_threaded_dpi_engin.Types.Hash.{StdHash}
use multi_threaded_dpi_engin.Queue.{Queue, push, shutdown}
use multi_threaded_dpi_engin.Engine.Pipeline.{
  Worker, Pipeline, HandsFree, no_items, queues_empty, drained, lose, fp_index, Step, lb_push,
  see_lbs, see_fps, see_out, stop_out, Steps, done, then_step,
}
use multi_threaded_dpi_engin.Engine.Places.{get_elem?-bound}
use multi_threaded_dpi_engin.Engine.Phases.{Phases}
use multi_threaded_dpi_engin.Engine.Workers.{AllRoom-get, HandsFree-get, HandsFree-set}
use multi_threaded_dpi_engin.Engine.Stopping.{
  some_inj, Final, Waits, Over, Over-no_step, steps-append, stop_lbs-run, stop_fps-run,
}

no_items_lem :
    (q : Queue PacketJob) (xs : List PacketJob) → q.items ≡ xs → no_items q ≡ true → xs ≡ []
unfolding no_items
no_items_lem q [] e h = refl
no_items_lem q (x ∷ xs) e h = absurd (clash (sym (rw e) ∙ h))
  where
    clash : false ≡ true → ⊥
    clash g = cc

queues_empty-get :
    (ws : List Worker) (i : ℕ) (w : Worker)
    → queues_empty ws ≡ true
    → get_elem? ws i ≡ some w
    → w.queue.items ≡ []
unfolding queues_empty
queues_empty-get [] i w h e = cc
queues_empty-get (v ∷ ws) zero w h e =
    let same = some_inj v w e in
    no_items_lem w.queue w.queue.items refl
      (ap (λ (t : Worker). no_items t.queue) (sym same) ∙ ground arith)
queues_empty-get (v ∷ ws) (suc i) w h e = queues_empty-get ws i w (ground arith) e

-- The reader has ended and all queues are empty, while one balancer has popped a packet that it
-- has not pushed on yet; no other thread holds one, and the main thread has not begun its tests.
pub record InFlight (h : StdHash) (l f : ℕ) (p : Pipeline) (i : ℕ) (w fp : Worker) (job : PacketJob)
    : Type 0 where
  pub read_all : p.unread ≡ []
  pub dry : drained p ≡ true
  pub waiting : p.seen ≡ 0
  pub lbs_up : p.lbs_stopped ≡ 0
  pub fps_up : p.fps_stopped ≡ 0
  pub out_up : p.out_running ≡ true
  pub balancer : get_elem? p.lbs i ≡ some w
  pub held : w.hand ≡ some job
  pub only : HandsFree (set p.lbs i (record w { hand = none }))
  pub fps_free : HandsFree p.fps
  pub out_free : p.out.hand ≡ none
  pub its_fp : get_elem? p.fps (fp_index h l f job) ≡ some fp
  pub still_on : fp.queue.is_shut ≡ false

-- The packet is in the queue of its fast path, and neither written nor dropped.
abbrev pub Left : StdHash → ℕ → ℕ → Pipeline → PacketJob → Pipeline → Type 0
Left h l f p job q =
    Waits q.fps (fp_index h l f job) job × (q.written ≡ p.written) × (q.dropped ≡ p.dropped)

-- A packet in flight can be left behind: at any time when the reader has ended, the wait's tests
-- of the queues all pass, and a balancer has just popped a packet, with no other packet in a
-- thread's hand, the threads can go on so that the engine stops with this packet in the queue of its
-- fast path, neither written nor dropped; no thread takes a step from there on.
pub steps-Left :
    (h : StdHash) (l f : ℕ) (p : Pipeline) (i : ℕ) (w fp : Worker) (job : PacketJob)
    → Phases l f p
    → InFlight h l f p i w fp job
    → (q : Pipeline) × Steps h l f p q × Final h l f q × Left h l f p job q
steps-Left h l f p i w fp job v facts =
    let (lbs, m, stops, lbs_all, lbs_free) =
      stop_lbs-run h l f (length p4.lbs) p4 (omega (arith, facts.lbs_up)) refl p4_free in
    let p5 : Pipeline = record p4 { lbs = lbs; lbs_stopped = m } in
    let (fps, n, ends, fps_all, fps_free, waits) =
      stop_fps-run h l f (length p5.fps) p5 k job (omega (arith, facts.fps_up)) lbs_all lbs_free
        p4_fps_free p4_waits in
    let p6 : Pipeline = record p5 { fps = fps; fps_stopped = n } in
    let p7 : Pipeline = record p6 {
      out = record p6.out { queue = shutdown p6.out.queue };
      out_running = false;
    } in
    let over : Over p7 = record {
      none_left = facts.read_all;
      waited = refl;
      lbs_all = lbs_all;
      fps_all = fps_all;
      out_down = refl;
      lbs_free = lbs_free;
      fps_free = fps_free;
      quiet = unfold shutdown in no_items_lem p.out.queue p.out.queue.items refl tests.2;
      out_free = facts.out_free;
    } in
    (
      p7,
      then_step p p1 p7 (see_lbs p facts.read_all facts.waiting tests.0) (
          then_step p1 p2 p7 (see_fps p1 refl tests.1) (
            then_step p2 p3 p7 (see_out p2 refl tests.2) (
              then_step p3 p4 p7 pushes (
                steps-append h l f p4 p5 p7 stops (
                  steps-append h l f p5 p6 p7 ends
                    (then_step p6 p7 p7 (stop_out p6 facts.out_up fps_all fps_free) (done p7))))))),
      (λ r s. Over-no_step h l f p7 r s over),
      (waits, refl, refl),
    )
  where
    k : ℕ
    k = fp_index h l f job

    three :
        (queues_empty p.lbs && queues_empty p.fps && no_items p.out.queue) ≡ true
        → (queues_empty p.lbs ≡ true) × (queues_empty p.fps ≡ true) × (no_items p.out.queue ≡ true)
    three e = ground arith

    tests :
        (queues_empty p.lbs ≡ true) × (queues_empty p.fps ≡ true) × (no_items p.out.queue ≡ true)
    tests = three (unfold drained in facts.dry)

    p1 : Pipeline
    p1 = record p { seen = 1 }

    p2 : Pipeline
    p2 = record p { seen = 2 }

    p3 : Pipeline
    p3 = record p { seen = 3 }

    q : Queue PacketJob
    q = record fp.queue { items = fp.queue.items ++ job ∷ [] }

    p4 : Pipeline
    p4 = record p3 {
      lbs = set p.lbs i (record w { hand = none });
      fps = set p.fps k (record fp { queue = q });
      lost = lose job fp.queue p.lost;
    }

    empty : fp.queue.items ≡ []
    empty = queues_empty-get p.fps k fp tests.1 facts.its_fp

    room_left : ltb 0 fp.queue.max_size ≡ true
    room_left = ground (arith, AllRoom-get p.fps k fp v.sized.fps_room facts.its_fp)

    pushed : push job fp.queue ≡ some q
    pushed = unfold push in rw (empty, facts.still_on, room_left)

    pushes : Step h l f p3 p4
    pushes = lb_push p3 i w fp job q facts.balancer facts.held facts.its_fp pushed

    p4_free : HandsFree p4.lbs
    p4_free = facts.only

    p4_fps_free : HandsFree p4.fps
    p4_fps_free =
        HandsFree-set p.fps k (record fp { queue = q }) facts.fps_free
          (HandsFree-get p.fps k fp facts.fps_free facts.its_fp)

    p4_waits : Waits p4.fps k job
    p4_waits = (
      record fp { queue = q },
      get_elem?-set_self p.fps k (record fp { queue = q })
          (get_elem?-bound p.fps k fp facts.its_fp),
      rw empty,
    )

-- ===== src/Tests/Threads.antt =====
-- The pipeline with one balancer, one fast path and one packet.
use multi_threaded_dpi_engin.Base.{◌+◌, ◌*◌, ◌≤◌, ◌≡◌, ◌⊎◌, refl, false, [], ◌∷◌, none, some, arith}
use mathlib.Core.List.{Sublist}
use multi_threaded_dpi_engin.Types.{PacketJob}
use multi_threaded_dpi_engin.Types.Cut.{of_flow}
use multi_threaded_dpi_engin.Types.Hash.{StdHash, tuple_hash}
use multi_threaded_dpi_engin.Queue.{Queue, push, pop_with_timeout}
use multi_threaded_dpi_engin.Engine.Pipeline.{
  Worker, Pipeline, queues_empty, drained, Step, read_step, lb_pop, lb_push, fp_pop, fp_forward,
  out_pop, out_write, Steps, done, then_step,
}
use multi_threaded_dpi_engin.Engine.Places.{sum, weigh}
use multi_threaded_dpi_engin.Engine.Drain.{idle, start, steps-Conserve}
use multi_threaded_dpi_engin.Engine.Turns.{step, lb_idle, lbs_busy, Turns, at_rest, then_turn}
use multi_threaded_dpi_engin.Engine.Work.{work, work-Bounded}
use multi_threaded_dpi_engin.Engine.Phases.{steps-Phases, start-Phases}
use multi_threaded_dpi_engin.Engine.Progress.{Ended, steps-NeverStuck}
use multi_threaded_dpi_engin.Engine.FlowOrder.{steps-InFlowOrder}
use multi_threaded_dpi_engin.Engine.Shutdown.{steps-NoneLost}
use multi_threaded_dpi_engin.Engine.Stopping.{Final}
use multi_threaded_dpi_engin.Engine.Stranded.{InFlight, Left, steps-Left}
use multi_threaded_dpi_engin.Tests.{flow, hello_packet}

abbrev zero_hash : StdHash
zero_hash = record { hash32 = λ n. 0; hash16 = λ n. 0; hash8 = λ n. 0 }

abbrev started : Pipeline
started = start 1 1 10 (hello_packet ∷ [])

abbrev holding : Queue PacketJob
holding = record { items = hello_packet ∷ []; max_size = 10; is_shut = false }

abbrev pushed : Pipeline
pushed = record started { unread = []; lbs = record { queue = holding; hand = none } ∷ [] }

-- The balancer has popped the packet.
abbrev busy : Worker
busy = record (idle 10) { hand = some hello_packet }

abbrev popped : Pipeline
popped = record started { unread = []; lbs = busy ∷ [] }

read_first : Step zero_hash 1 1 started pushed
unfolding push tuple_hash
read_first = read_step started hello_packet [] (idle 10) holding refl refl refl

pop_first : Step zero_hash 1 1 pushed popped
unfolding pop_with_timeout
pop_first =
    lb_pop pushed 0 (record { queue = holding; hand = none }) hello_packet (idle 10).queue refl refl
      (omega arith) refl

two_steps : Steps zero_hash 1 1 started popped
two_steps =
    then_step started pushed popped read_first
      (then_step pushed popped popped pop_first (done popped))

steps-Conserve_example : weigh (λ place job. 1) popped ≡ sum (λ job. 1) (hello_packet ∷ [])
steps-Conserve_example =
    steps-Conserve zero_hash 1 1 10 (hello_packet ∷ []) popped (λ job. 1) two_steps

-- The balancer waits in vain, and the main thread tests the queues while the packet is in one.
four_turns : Turns zero_hash 1 1 started popped
unfolding pop_with_timeout queues_empty
four_turns =
    then_turn started started popped (lb_idle started 0 (idle 10) refl refl (omega arith) refl) (
      then_turn started pushed popped (step started pushed read_first) (
        then_turn pushed pushed popped (lbs_busy pushed refl refl refl)
          (then_turn pushed popped popped (step pushed popped pop_first) (at_rest popped))))

work-Bounded_example :
    Steps zero_hash 1 1 started popped
    × (work zero_hash 1 1 started popped four_turns ≤ 7 * 1 + 1 + 1 * 1 + 1)
work-Bounded_example = work-Bounded zero_hash 1 1 10 (hello_packet ∷ []) popped four_turns

work_two : work zero_hash 1 1 started popped four_turns ≡ 2
unfolding four_turns read_first pop_first
work_two = refl

steps-NeverStuck_example : ((q : Pipeline) × Step zero_hash 1 1 popped q) ⊎ Ended 1 1 popped
steps-NeverStuck_example =
    steps-NeverStuck zero_hash 1 1 10 (hello_packet ∷ []) popped (omega arith) (omega arith)
      (omega arith) two_steps

steps-NoneLost_example : popped.lost ≡ []
steps-NoneLost_example =
    steps-NoneLost zero_hash 1 1 10 (hello_packet ∷ []) popped (omega arith) two_steps

in_flight : InFlight zero_hash 1 1 popped 0 busy (idle 10) hello_packet
unfolding drained tuple_hash
in_flight = record {
  read_all = refl;
  dry = refl;
  waiting = refl;
  lbs_up = refl;
  fps_up = refl;
  out_up = refl;
  balancer = refl;
  held = refl;
  only = (refl, tt);
  fps_free = (refl, tt);
  out_free = refl;
  its_fp = refl;
  still_on = refl;
}

steps-Left_example :
    (q : Pipeline) × Steps zero_hash 1 1 popped q
    × Final zero_hash 1 1 q
    × Left zero_hash 1 1 popped hello_packet q
steps-Left_example =
    steps-Left zero_hash 1 1 popped 0 busy (idle 10) hello_packet
      (steps-Phases zero_hash 1 1 started popped two_steps
        (start-Phases 1 1 10 (hello_packet ∷ []) (omega arith)))
      in_flight

abbrev full : Worker
full = record { queue = holding; hand = none }

-- The packet on its way: at the fast path, in its hand, at the output, in its hand, and written.
abbrev sent_on : Pipeline
sent_on = record started { unread = []; fps = full ∷ [] }

abbrev inspected : Pipeline
inspected = record started { unread = []; fps = busy ∷ [] }

abbrev passed : Pipeline
passed = record started { unread = []; out = full }

abbrev leaving : Pipeline
leaving = record started { unread = []; out = busy }

abbrev finished : Pipeline
finished = record started { unread = []; written = hello_packet ∷ [] }

last_steps : Steps zero_hash 1 1 popped finished
unfolding push pop_with_timeout tuple_hash
last_steps =
    then_step popped sent_on finished
      (lb_push popped 0 busy (idle 10) hello_packet holding refl refl refl refl)
      (then_step sent_on inspected finished
        (fp_pop sent_on 0 full hello_packet (idle 10).queue refl refl (omega arith) refl)
        (then_step inspected passed finished
          (fp_forward inspected 0 busy hello_packet holding refl refl refl)
          (then_step passed leaving finished
            (out_pop passed hello_packet (idle 10).queue refl refl refl)
            (then_step leaving finished finished (out_write leaving hello_packet refl)
              (done finished)))))

steps-InFlowOrder_example :
    Sublist
      (of_flow (λ (job : PacketJob). job.tuple) flow finished.written)
      (of_flow (λ (job : PacketJob). job.tuple) flow (hello_packet ∷ []))
steps-InFlowOrder_example = steps-InFlowOrder zero_hash 1 1 10 (hello_packet ∷ []) finished flow (
    then_step started pushed finished read_first
      (then_step pushed popped finished pop_first last_steps))

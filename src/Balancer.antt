-- ===== src/Balancer.antt =====
-- src/load_balancer.cpp: the choice of the balancer and of its fast path, and the topology that
-- `LBManager` builds. A queue of a fast path is known by the fast path's number.
pub mod Routing
pub mod Totals
use multi_threaded_dpi_engin.Base.{
  ℕ, zero, suc, ◌+◌, ◌*◌, ◌%◌, ◌<◌, Bool, true, false, ◌==◌, ltb, leb, if◌then◌else◌, List, [], ◌∷◌,
  ◌++◌, Option, none, some, ◌>>=◌, length, get_elem?, set,
}
use multi_threaded_dpi_engin.Types.Flow.{FiveTuple}
use multi_threaded_dpi_engin.Types.Hash.{StdHash, tuple_hash}
use multi_threaded_dpi_engin.Types.{PacketJob}

-- `LoadBalancer::selectFP`; `none` is -1.
unfoldable pub select_fp : StdHash → ℕ → FiveTuple → Option ℕ
select_fp h num_fps tuple = if leb num_fps 0 then none else some (tuple_hash h tuple % num_fps)

-- The fields of `LoadBalancer`. A null queue pointer is `none`.
pub record LoadBalancer : Type 0 where
  pub lb_id : ℕ
  pub fp_start_id : ℕ
  pub fp_queues : List (Option ℕ)
  pub packets_received : ℕ
  pub packets_dispatched : ℕ
  pub per_fp_counts : List ℕ

abbrev pub zeros : List (Option ℕ) → List ℕ
zeros [] = []
zeros (_ ∷ qs) = 0 ∷ zeros qs

-- The constructor.
unfoldable pub new_balancer : ℕ → List (Option ℕ) → ℕ → LoadBalancer
new_balancer lb_id fp_queues fp_start_id = record {
  lb_id = lb_id;
  fp_start_id = fp_start_id;
  fp_queues = fp_queues;
  packets_received = 0;
  packets_dispatched = 0;
  per_fp_counts = zeros fp_queues;
}

add_one : List ℕ → ℕ → List ℕ
add_one [] i = []
add_one (n ∷ ns) zero = suc n ∷ ns
add_one (n ∷ ns) (suc i) = n ∷ add_one ns i

sent : LoadBalancer → ℕ → Option ℕ → Option ℕ × LoadBalancer
unfolding add_one
sent lb idx none = (none, lb)
sent lb idx (some queue) = (
  some queue,
  record lb {
    packets_dispatched = lb.packets_dispatched + 1;
    per_fp_counts = add_one lb.per_fp_counts idx;
  },
)

dispatch : LoadBalancer → Option ℕ → Option ℕ × LoadBalancer
unfolding sent
dispatch lb none = (none, lb)
dispatch lb (some idx) =
    if leb (length lb.fp_queues) idx
    then (none, lb)
    else if leb (length lb.per_fp_counts) idx
    then (none, lb)
    else sent lb idx (get_elem? lb.fp_queues idx >>= λ queue. queue)

-- One round of `LoadBalancer::run` with a packet: the queue that it is pushed to, or `none` where
-- the packet is skipped.
unfoldable pub run_packet : StdHash → FiveTuple → LoadBalancer → Option ℕ × LoadBalancer
unfolding dispatch
run_packet h tuple lb =
    dispatch (record lb { packets_received = lb.packets_received + 1 })
      (select_fp h (length lb.fp_queues) tuple)

-- What the constructor of `LBManager` throws.
pub data TopologyError : Type 0 where
  no_lbs no_fps too_few_queues index_out_of_range null_queue : TopologyError

pub data Built {ℓ} (A : Type ℓ) : Type ℓ where
  ok : A → Built A
  err : TopologyError → Built A

module _ {ℓ κ} {A : Type ℓ} {B : Type κ} where
  abbrev then_build : Built A → (A → Built B) → Built B
  then_build (ok a) f = f a
  then_build (err e) f = err e

-- The inner loop: the queues of one balancer, `n` of them from `fp_index` on.
pick : Option (Option ℕ) → Built (Option ℕ)
pick none = err index_out_of_range
pick (some none) = err null_queue
pick (some (some queue)) = ok (some queue)

take_queues : ℕ → ℕ → List (Option ℕ) → Built (List (Option ℕ))
unfolding pick
take_queues zero fp_index queues = ok []
take_queues (suc n) fp_index queues =
    then_build (pick (get_elem? queues fp_index))
      λ queue. then_build (take_queues n (fp_index + 1) queues) λ rest. ok (queue ∷ rest)

-- The outer loop: `n` balancers from number `lb_id` on.
build_lbs : ℕ → ℕ → ℕ → List (Option ℕ) → Built (List LoadBalancer)
unfolding take_queues new_balancer
build_lbs zero lb_id fps_per_lb queues = ok []
build_lbs (suc n) lb_id fps_per_lb queues =
    then_build (take_queues fps_per_lb (lb_id * fps_per_lb) queues) λ own.
      then_build (build_lbs n (lb_id + 1) fps_per_lb queues)
        λ rest. ok (new_balancer lb_id own (lb_id * fps_per_lb) ∷ rest)

-- The constructor of `LBManager`.
unfoldable pub new_manager : ℕ → ℕ → List (Option ℕ) → Built (List LoadBalancer)
unfolding build_lbs
new_manager num_lbs fps_per_lb queues =
    if leb num_lbs 0
    then err no_lbs
    else if leb fps_per_lb 0
    then err no_fps
    else if ltb (length queues) (num_lbs * fps_per_lb)
    then err too_few_queues
    else build_lbs num_lbs 0 fps_per_lb queues

-- `getLBForPacket`; `none` is the exception for a manager without balancers.
unfoldable pub get_lb_for_packet : StdHash → List LoadBalancer → FiveTuple → Option LoadBalancer
get_lb_for_packet h [] tuple = none
get_lb_for_packet h (lb ∷ lbs) tuple = get_elem? (lb ∷ lbs) (tuple_hash h tuple % length (lb ∷ lbs))

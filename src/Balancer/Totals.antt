-- ===== src/Balancer/Totals.antt =====
-- The counters of the load balancers and their sums: `getStats` and
-- `LBManager::getAggregatedStats` of src/load_balancer.cpp.
use multi_threaded_dpi_engin.Base.{
  ℕ, zero, suc, ◌+◌, ◌≤◌, ◌<◌, leb, List, [], ◌∷◌, Option, none, some, ◌>>=◌, get_elem?, length,
  ◌≡◌, refl, arith, Bool-cases, inl, inr,
}
use multi_threaded_dpi_engin.Types.Flow.{FiveTuple}
use multi_threaded_dpi_engin.Types.Hash.{StdHash}
use multi_threaded_dpi_engin.Balancer.{
  LoadBalancer, zeros, new_balancer, add_one, sent, dispatch, select_fp, run_packet,
}

pub record LbStats : Type 0 where
  pub packets_received : ℕ
  pub packets_dispatched : ℕ
  pub per_fp_packets : List ℕ

-- `getStats`
unfoldable pub get_lb_stats : LoadBalancer → LbStats
get_lb_stats lb = record {
  packets_received = lb.packets_received;
  packets_dispatched = lb.packets_dispatched;
  per_fp_packets = lb.per_fp_counts;
}

pub record LbTotals : Type 0 where
  pub total_received : ℕ
  pub total_dispatched : ℕ

-- The loop.
unfoldable pub sum_lb_stats : List LoadBalancer → LbTotals → LbTotals
unfolding get_lb_stats
sum_lb_stats [] sums = sums
sum_lb_stats (lb ∷ lbs) sums =
    let lb_stats = get_lb_stats lb in
    sum_lb_stats lbs (record {
      total_received = sums.total_received + lb_stats.packets_received;
      total_dispatched = sums.total_dispatched + lb_stats.packets_dispatched;
    })

-- `LBManager::getAggregatedStats`
unfoldable pub lb_totals : List LoadBalancer → LbTotals
unfolding sum_lb_stats
lb_totals lbs = sum_lb_stats lbs (record { total_received = 0; total_dispatched = 0 })

abbrev pub sum : List ℕ → ℕ
sum [] = 0
sum (n ∷ ns) = n + sum ns

-- What is counted per fast path adds up to what was dispatched.
pub record IsCounted (lb : LoadBalancer) : Type 0 where
  pub counts : length lb.per_fp_counts ≡ length lb.fp_queues
  pub added : sum lb.per_fp_counts ≡ lb.packets_dispatched
  pub received : lb.packets_dispatched ≤ lb.packets_received

sum-zeros : (qs : List (Option ℕ)) → sum (zeros qs) ≡ 0
sum-zeros [] = refl
sum-zeros (q ∷ qs) = omega (arith, sum-zeros qs)

length-zeros : (qs : List (Option ℕ)) → length (zeros qs) ≡ length qs
length-zeros [] = refl
length-zeros (q ∷ qs) = omega (arith, length-zeros qs)

pub new_balancer-IsCounted :
    (lb_id fp_start_id : ℕ) (qs : List (Option ℕ)) → IsCounted (new_balancer lb_id qs fp_start_id)
unfolding new_balancer
new_balancer-IsCounted lb_id fp_start_id qs = record {
  counts = length-zeros qs;
  added = sum-zeros qs;
  received = omega arith;
}

sum-add_one : (ns : List ℕ) (i : ℕ) → i < length ns → sum (add_one ns i) ≡ sum ns + 1
unfolding add_one
sum-add_one [] i h = ground arith
sum-add_one (n ∷ ns) zero h = omega arith
sum-add_one (n ∷ ns) (suc i) h = omega (arith, sum-add_one ns i (omega arith))

length-add_one : (ns : List ℕ) (i : ℕ) → length (add_one ns i) ≡ length ns
unfolding add_one
length-add_one [] i = refl
length-add_one (n ∷ ns) zero = refl
length-add_one (n ∷ ns) (suc i) = omega (arith, length-add_one ns i)

sent-IsCounted :
    (lb : LoadBalancer) (idx : ℕ) (q : Option ℕ)
    → IsCounted lb
    → lb.packets_dispatched < lb.packets_received
    → idx < length lb.per_fp_counts
    → IsCounted (sent lb idx q).1
unfolding sent
sent-IsCounted lb idx none h more within = h
sent-IsCounted lb idx (some queue) h more within = record {
  counts = omega (arith, length-add_one lb.per_fp_counts idx, h.counts);
  added = omega (arith, sum-add_one lb.per_fp_counts idx within, h.added);
  received = omega (arith, more);
}

dispatch-IsCounted :
    (lb : LoadBalancer) (o : Option ℕ)
    → IsCounted lb
    → lb.packets_dispatched < lb.packets_received
    → IsCounted (dispatch lb o).1
unfolding dispatch
dispatch-IsCounted lb none h more = h
dispatch-IsCounted lb (some idx) h more = elim (Bool-cases (leb (length lb.fp_queues) idx)) [
  | inl out ↦ rw out h
  | inr within ↦ elim (Bool-cases (leb (length lb.per_fp_counts) idx)) [
    | inl out ↦ rw (within, out) h
    | inr inside ↦
        rw (within, inside)
          (sent-IsCounted lb idx (get_elem? lb.fp_queues idx >>= λ queue. queue) h more
            (ground arith))
  ]
]

-- A round with a packet keeps the counters consistent.
pub run_packet-IsCounted :
    (h : StdHash) (tuple : FiveTuple) (lb : LoadBalancer)
    → IsCounted lb
    → IsCounted (run_packet h tuple lb).1
unfolding run_packet
run_packet-IsCounted h tuple lb c =
    dispatch-IsCounted _ (select_fp h (length lb.fp_queues) tuple)
      (record { counts = c.counts; added = c.added; received = omega (arith, c.received) })
      (omega (arith, c.received))

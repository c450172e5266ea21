-- ===== src/Balancer/Routing.antt =====
-- Where `LBManager` and its balancers send a packet.
use multi_threaded_dpi_engin.Base.{
  ℕ, zero, suc, ◌+◌, ◌*◌, ◌%◌, ◌≤◌, ◌<◌, ◌≡◌, refl, ap, ◌∙◌, List, [], ◌∷◌, Option, none, some,
  ◌>>=◌, arith, length, get_elem?,
}
use multi_threaded_dpi_engin.Types.Flow.{FiveTuple}
use multi_threaded_dpi_engin.Types.Hash.{StdHash, tuple_hash}
use multi_threaded_dpi_engin.Balancer.{
  LoadBalancer, zeros, new_balancer, select_fp, sent, dispatch, run_packet, Built, ok, err,
  take_queues, build_lbs, new_manager, get_lb_for_packet,
}

-- The queues of the fast paths number `start` to `start + n - 1`, none of them null.
abbrev pub fp_queues : ℕ → ℕ → List (Option ℕ)
fp_queues zero start = []
fp_queues (suc n) start = some start ∷ fp_queues n (start + 1)

fp_queues-get : (n start i : ℕ) → i < n → get_elem? (fp_queues n start) i ≡ some (some (start + i))
fp_queues-get zero start i h = elim h [ ]
fp_queues-get (suc n) start zero h =
    let e : start ≡ start + 0 = omega arith in ap (λ (k : ℕ). some (some k)) e
fp_queues-get (suc n) start (suc i) h =
    let e : start + 1 + i ≡ start + suc i = omega arith in
    fp_queues-get n (start + 1) i (omega arith) ∙ ap (λ (k : ℕ). some (some k)) e

fp_queues-length : (n start : ℕ) → length (fp_queues n start) ≡ n
fp_queues-length zero start = refl
fp_queues-length (suc n) start = ap suc (fp_queues-length n (start + 1))

zeros-length : (qs : List (Option ℕ)) → length (zeros qs) ≡ length qs
zeros-length [] = refl
zeros-length (q ∷ qs) = ap suc (zeros-length qs)

take_queues-fp_queues :
    (total n i : ℕ) → i + n ≤ total → take_queues n i (fp_queues total 0) ≡ ok (fp_queues n i)
unfolding take_queues
take_queues-fp_queues total zero i h = refl
take_queues-fp_queues total (suc n) i h =
    let e : 0 + i ≡ i = omega arith in
    rw (fp_queues-get total 0 i (omega arith)) (
      rw (take_queues-fp_queues total n (i + 1) (omega arith))
        (ap (λ (k : ℕ). ok (some k ∷ fp_queues n (i + 1))) e))

-- Balancer `id` of a manager with `f` fast paths each.
abbrev balancer : ℕ → ℕ → LoadBalancer
balancer f id = new_balancer id (fp_queues f (id * f)) (id * f)

abbrev balancers : ℕ → ℕ → ℕ → List LoadBalancer
balancers f zero id = []
balancers f (suc n) id = balancer f id ∷ balancers f n (id + 1)

balancers-get : (f n id i : ℕ) → i < n → get_elem? (balancers f n id) i ≡ some (balancer f (id + i))
balancers-get f zero id i h = elim h [ ]
balancers-get f (suc n) id zero h =
    let e : id ≡ id + 0 = omega arith in ap (λ (k : ℕ). some (balancer f k)) e
balancers-get f (suc n) id (suc i) h =
    let e : id + 1 + i ≡ id + suc i = omega arith in
    balancers-get f n (id + 1) i (omega arith) ∙ ap (λ (k : ℕ). some (balancer f k)) e

balancers-length : (f n id : ℕ) → length (balancers f n id) ≡ n
balancers-length f zero id = refl
balancers-length f (suc n) id = ap suc (balancers-length f n (id + 1))

build_lbs-balancers :
    (total n id f : ℕ)
    → (id + n) * f ≤ total
    → build_lbs n id f (fp_queues total 0) ≡ ok (balancers f n id)
unfolding build_lbs
build_lbs-balancers total zero id f h = refl
build_lbs-balancers total (suc n) id f h =
    rw (take_queues-fp_queues total f (id * f) (grind arith))
      (rw (build_lbs-balancers total n (id + 1) f (grind arith)))

new_manager-balancers :
    (l f : ℕ) → 0 < l → 0 < f → new_manager l f (fp_queues (l * f) 0) ≡ ok (balancers f l 0)
unfolding new_manager
new_manager-balancers l f hl hf =
    ground (arith, fp_queues-length (l * f) 0, build_lbs-balancers (l * f) l 0 f (grind arith))

-- The fast path that serves a packet, by its number among all.
abbrev pub fp_of : StdHash → ℕ → ℕ → FiveTuple → ℕ
fp_of h l f t = tuple_hash h t % l * f + tuple_hash h t % f

row_bound : (a l b f : ℕ) → a < l → b < f → a * f + b < l * f
row_bound a l b f ha hb =
    let e : (a + 1) * f ≤ l * f = native.Mathlib.Nat.mul-le-mul_right f (omega arith) in grind arith

pub fp_of-bound : (h : StdHash) (t : FiveTuple) (l f : ℕ) → 0 < l → 0 < f → fp_of h l f t < l * f
fp_of-bound h t l f hl hf =
    let a : tuple_hash h t % l < l = grind arith in
    let b : tuple_hash h t % f < f = grind arith in
    row_bound (tuple_hash h t % l) l (tuple_hash h t % f) f a b

get_lb-balancers :
    (h : StdHash) (t : FiveTuple) (f n : ℕ)
    → 0 < n
    → get_lb_for_packet h (balancers f n 0) t ≡ some (balancer f (tuple_hash h t % n))
unfolding get_lb_for_packet
get_lb-balancers h t f zero pos = elim pos [ ]
get_lb-balancers h t f (suc n) pos =
    let within : tuple_hash h t % suc n < suc n = omega arith in
    let e : 0 + tuple_hash h t % suc n ≡ tuple_hash h t % suc n = omega arith in
    rw (balancers-length f n 1) (
      balancers-get f (suc n) 0 (tuple_hash h t % suc n) within
      ∙ ap (λ (k : ℕ). some (balancer f k)) e)

run_packet-balancer :
    (h : StdHash) (t : FiveTuple) (f id : ℕ)
    → 0 < f
    → (run_packet h t (balancer f id)).0 ≡ some (id * f + tuple_hash h t % f)
unfolding run_packet select_fp new_balancer dispatch sent
run_packet-balancer h t f id pos =
    let own : List (Option ℕ) = fp_queues f (id * f) in
    let within : tuple_hash h t % f < f = grind arith in
    ground (
      arith,
      fp_queues-length f (id * f),
      zeros-length (fp_queues f (id * f)),
      fp_queues-get f (id * f) (tuple_hash h t % f) within,
    )

-- The queue that a packet reaches: the manager chooses the balancer, the balancer the queue.
abbrev pub served : StdHash → FiveTuple → Built (List LoadBalancer) → Option ℕ
served h t (ok lbs) = get_lb_for_packet h lbs t >>= λ lb. (run_packet h t lb).0
served h t (err e) = none

-- A manager of `l` balancers, at least one, with `f` fast paths each, at least one, over as many
-- queues as it needs, sends every packet of a tuple to one queue, which exists: number
-- `hash % l * f + hash % f`.
pub new_manager-served :
    (h : StdHash) (t : FiveTuple) (l f : ℕ)
    → 0 < l
    → 0 < f
    → (served h t (new_manager l f (fp_queues (l * f) 0)) ≡ some (fp_of h l f t))
      × (fp_of h l f t < l * f)
new_manager-served h t l f hl hf = (
  rw (new_manager-balancers l f hl hf)
      (rw (get_lb-balancers h t f l hl) (run_packet-balancer h t f (tuple_hash h t % l) hf)),
  fp_of-bound h t l f hl hf,
)

-- With as many fast paths to a balancer as there are balancers, at least one, every packet
-- reaches a queue of which the number is `k * (n + 1)` for a `k` below `n`: of the `n * n` fast
-- paths, at most `n` ever see a packet.
pub new_manager-diagonal :
    (h : StdHash) (t : FiveTuple) (n : ℕ)
    → 0 < n
    → (k : ℕ) × (k < n) × (served h t (new_manager n n (fp_queues (n * n) 0)) ≡ some (k * (n + 1)))
new_manager-diagonal h t n pos =
    let e : fp_of h n n t ≡ tuple_hash h t % n * (n + 1) = grind arith in
    let within : tuple_hash h t % n < n = grind arith in
    (tuple_hash h t % n, within, (new_manager-served h t n n pos pos).0 ∙ ap some e)

-- ===== src/Engine/Places.antt =====
-- Where the packets of the pipeline are. A weight of packets and places is summed over the pipeline;
-- with the weight that singles out one packet the sum counts its copies.
use multi_threaded_dpi_engin.Base.{
  length, ℕ, zero, suc, ◌+◌, ◌-◌, ◌<◌, ◌≡◌, ◌⊎◌, inl, inr, refl, ap, true, false, if◌then◌else◌,
  List, [], ◌∷◌, ◌++◌, Option, none, some, get_elem?, set, arith,
}
use multi_threaded_dpi_engin.Types.{PacketJob}
use multi_threaded_dpi_engin.Queue.{Queue, push, pop_with_timeout, shutdown}
use multi_threaded_dpi_engin.Queue.Effects.{push-effect, pop-effect}
use multi_threaded_dpi_engin.Engine.Pipeline.{Worker, Pipeline, shut_worker, lose}

pub data Place : Type 0 where
  unread lb_queue lb_hand fp_queue fp_hand out_queue out_hand written dropped lost : Place

-- How many steps a packet is from its end at most.
abbrev pub rank : Place → ℕ
rank unread = 7
rank lb_queue = 6
rank lb_hand = 5
rank fp_queue = 4
rank fp_hand = 3
rank out_queue = 2
rank out_hand = 1
rank written = 0
rank dropped = 0
rank lost = 0

abbrev pub sum {ℓ} : {A : Type ℓ} → (A → ℕ) → List A → ℕ
sum w [] = 0
sum w (x ∷ xs) = w x + sum w xs

abbrev pub hand_sum : (PacketJob → ℕ) → Option PacketJob → ℕ
hand_sum w none = 0
hand_sum w (some job) = w job

abbrev pub worker_sum : (PacketJob → ℕ) → (PacketJob → ℕ) → Worker → ℕ
worker_sum queued held w = sum queued w.queue.items + hand_sum held w.hand

abbrev pub weigh : (Place → PacketJob → ℕ) → Pipeline → ℕ
weigh W p =
    sum (W unread) p.unread
    + sum (worker_sum (W lb_queue) (W lb_hand)) p.lbs
    + sum (worker_sum (W fp_queue) (W fp_hand)) p.fps
    + worker_sum (W out_queue) (W out_hand) p.out
    + sum (W written) p.written
    + sum (W dropped) p.dropped
    + sum (W lost) p.lost

pub sum-snoc {ℓ} :
    {A : Type ℓ} (w : A → ℕ) (xs : List A) (x : A) → sum w (xs ++ x ∷ []) ≡ sum w xs + w x
sum-snoc w [] x = omega arith
sum-snoc w (y ∷ xs) x = omega (arith, sum-snoc w xs x)

some_cong {ℓ} : {A : Type ℓ} (w : A → ℕ) (a b : A) → some a ≡ some b → w a ≡ w b
some_cong w a b h = cc

pub sum-set {ℓ} :
    {A : Type ℓ} (w : A → ℕ) (xs : List A) (i : ℕ) (x y : A)
    → get_elem? xs i ≡ some x
    → sum w (set xs i y) + w x ≡ sum w xs + w y
sum-set w [] i x y e = cc
sum-set w (z ∷ xs) zero x y e = omega (arith, some_cong w z x e)
sum-set w (z ∷ xs) (suc i) x y e = omega (arith, sum-set w xs i x y e)

sum-lose-true :
    (w : PacketJob → ℕ) (job : PacketJob) (q : Queue PacketJob) (jobs : List PacketJob)
    → q.is_shut ≡ true
    → sum w (lose job q jobs) ≡ w job + sum w jobs
sum-lose-true w job q jobs shut = rw shut

sum-lose-false :
    (w : PacketJob → ℕ) (job : PacketJob) (q : Queue PacketJob) (jobs : List PacketJob)
    → q.is_shut ≡ false
    → sum w (lose job q jobs) ≡ sum w jobs
sum-lose-false w job q jobs free = rw free

pub get_elem?-bound :
    (ws : List Worker) (i : ℕ) (w : Worker) → get_elem? ws i ≡ some w → i < length ws
get_elem?-bound [] i w e = cc
get_elem?-bound (v ∷ ws) zero w e = omega arith
get_elem?-bound (v ∷ ws) (suc i) w e = omega (arith, get_elem?-bound ws i w e)

-- A thread that is told to stop keeps its packets.
pub worker_sum-shut_worker :
    (a b : PacketJob → ℕ) (w : Worker) → worker_sum a b (shut_worker w) ≡ worker_sum a b w
unfolding shutdown
worker_sum-shut_worker a b w = refl

-- The main thread's steps that are left.
abbrev pub flags : Pipeline → ℕ
flags p =
    (3 - p.seen)
    + (length p.lbs - p.lbs_stopped)
    + (length p.fps - p.fps_stopped)
    + (if p.out_running then 1 else 0)

-- One packet goes on from its place to another, with all other packets where they were.
abbrev pub Moves : Pipeline → Pipeline → Type 0
Moves p q =
    (s : Place) × (t : Place) × (job : PacketJob) × (rank t < rank s)
    × (flags q ≡ flags p)
    × ((W : Place → PacketJob → ℕ) → weigh W p + W t job ≡ weigh W q + W s job)

-- The main thread goes on, and no packet moves.
abbrev pub Stops : Pipeline → Pipeline → Type 0
Stops p q = (flags q < flags p) × ((W : Place → PacketJob → ℕ) → weigh W q ≡ weigh W p)

-- A push, by what it did to the queue: the packet is in the queue, or lost.
module _ (job : PacketJob) (q r : Queue PacketJob) (jobs : List PacketJob) where
  abbrev pub Pushed : Place → Type 0
  Pushed place =
      (t : Place) × ((t ≡ place) ⊎ (t ≡ lost))
      × ((W : Place → PacketJob → ℕ)
          → sum (W place) r.items + sum (W lost) (lose job q jobs)
            ≡ sum (W place) q.items + sum (W lost) jobs + W t job)

  pub push-Pushed : (place : Place) → push job q ≡ some r → Pushed place
  push-Pushed place e = elim (push-effect job q r e) [
    | inl (shut, same) ↦ (
      lost,
      inr refl,
      λ W. omega (
        arith,
        sum-lose-true (W lost) job q jobs shut,
        ap (λ (u : Queue PacketJob). sum (W place) u.items) same,
      ),
    )
    | inr (free, added) ↦ (
      place,
      inl refl,
      λ W. omega (
        arith,
        sum-lose-false (W lost) job q jobs free,
        ap (λ (u : Queue PacketJob). sum (W place) u.items) added,
        sum-snoc (W place) q.items job,
      ),
    )
  ]

pub rank-pushed :
    (t place : Place) (n : ℕ) → (t ≡ place) ⊎ (t ≡ lost) → rank place < n → 0 < n → rank t < n
rank-pushed t place n (inl e) h pos = omega (arith, ap rank e)
rank-pushed t place n (inr e) h pos = omega (arith, ap rank e)

-- A pop takes the first item.
pub sum-popped :
    (w : PacketJob → ℕ) (q r : Queue PacketJob) (job : PacketJob)
    → pop_with_timeout q ≡ (some job, r)
    → sum w q.items ≡ w job + sum w r.items
sum-popped w q r job e = ap (sum w) (pop-effect q r job e).1

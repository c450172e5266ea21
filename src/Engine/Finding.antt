-- ===== src/Engine/Finding.antt =====
-- A search of threads for one that has a packet in its hand or in its queue.
use multi_threaded_dpi_engin.Base.{
  take, ℕ, zero, suc, ◌<◌, ◌≡◌, ◌⊎◌, inl, inr, refl, true, List, [], ◌∷◌, some, get_elem?, arith,
  length, Option-cases,
}
use multi_threaded_dpi_engin.Types.{PacketJob}
use multi_threaded_dpi_engin.Engine.Pipeline.{Worker, HandsFree, queues_empty}

-- A thread with a packet in its hand, or none.
abbrev pub Holder : List Worker → Type 0
Holder ws =
    (i : ℕ) × (w : Worker) × (job : PacketJob) × (get_elem? ws i ≡ some w) × (w.hand ≡ some job)

pub find_hand : (ws : List Worker) → HandsFree ws ⊎ Holder ws
find_hand [] = inl tt
find_hand (w ∷ ws) = elim (Option-cases w.hand) [
  | inr (job, e) ↦ inr (0, w, job, refl, e)
  | inl free ↦ elim (find_hand ws) [
    | inl all ↦ inl (free, all)
    | inr (i, v, job, e, f) ↦ inr (suc i, v, job, e, f)
  ]
]

abbrev pub AllEmpty : List Worker → Type 0
AllEmpty [] = Unit
AllEmpty (w ∷ ws) = (w.queue.items ≡ []) × AllEmpty ws

-- A thread with a packet in its queue, or none.
abbrev pub Waiting : List Worker → Type 0
Waiting ws =
    (i : ℕ) × (w : Worker) × (job : PacketJob) × (rest : List PacketJob) × (get_elem? ws i ≡ some w)
    × (w.queue.items ≡ job ∷ rest)

pub items_cases :
    (xs : List PacketJob)
    → (xs ≡ []) ⊎ ((job : PacketJob) × (rest : List PacketJob) × (xs ≡ job ∷ rest))
items_cases [] = inl refl
items_cases (job ∷ rest) = inr (job, rest, refl)

pub find_item : (ws : List Worker) → AllEmpty ws ⊎ Waiting ws
find_item [] = inl tt
find_item (w ∷ ws) = elim (items_cases w.queue.items) [
  | inr (job, rest, e) ↦ inr (0, w, job, rest, refl, e)
  | inl none_here ↦ elim (find_item ws) [
    | inl all ↦ inl (none_here, all)
    | inr (i, v, job, rest, e, f) ↦ inr (suc i, v, job, rest, e, f)
  ]
]

pub AllEmpty-get :
    (ws : List Worker) (i : ℕ) (w : Worker)
    → AllEmpty ws
    → get_elem? ws i ≡ some w
    → w.queue.items ≡ []
AllEmpty-get [] i w h e = cc
AllEmpty-get (v ∷ ws) zero w h e = items_cong v w e h.0
  where
    items_cong : (a b : Worker) → some a ≡ some b → a.queue.items ≡ [] → b.queue.items ≡ []
    items_cong a b g k = cc
AllEmpty-get (v ∷ ws) (suc i) w h e = AllEmpty-get ws i w h.1 e

pub queues_empty-all : (ws : List Worker) → AllEmpty ws → queues_empty ws ≡ true
unfolding queues_empty
queues_empty-all [] h = refl
queues_empty-all (w ∷ ws) h = rw (h.0, queues_empty-all ws h.1)

pub get_elem?-some :
    (ws : List Worker) (i : ℕ) → i < length ws → (w : Worker) × (get_elem? ws i ≡ some w)
get_elem?-some [] i h = elim h [ ]
get_elem?-some (w ∷ ws) zero h = (w, refl)
get_elem?-some (w ∷ ws) (suc i) h = get_elem?-some ws i (omega arith)

pub HandsFree-take : (n : ℕ) (ws : List Worker) → HandsFree ws → HandsFree (take n ws)
HandsFree-take zero ws h = tt
HandsFree-take (suc n) [] h = tt
HandsFree-take (suc n) (w ∷ ws) h = (h.0, HandsFree-take n ws h.1)

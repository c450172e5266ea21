-- ===== src/Engine/Workers.antt =====
-- Lists of threads of the pipeline, of which one takes a step.
use multi_threaded_dpi_engin.Base.{
  ℕ, zero, suc, ◌<◌, ◌≡◌, List, [], ◌∷◌, none, some, get_elem?, set, arith,
}
use multi_threaded_dpi_engin.Engine.Pipeline.{Worker, HandsFree}

-- Each queue can hold a packet.
abbrev pub AllRoom : List Worker → Type 0
AllRoom [] = Unit
AllRoom (w ∷ ws) = (0 < w.queue.max_size) × AllRoom ws

pub AllRoom-get :
    (ws : List Worker) (i : ℕ) (w : Worker)
    → AllRoom ws
    → get_elem? ws i ≡ some w
    → 0 < w.queue.max_size
AllRoom-get [] i w h e = cc
AllRoom-get (v ∷ ws) zero w h e = omega (arith, h.0, room_cong v w e)
  where
    room_cong : (a b : Worker) → some a ≡ some b → a.queue.max_size ≡ b.queue.max_size
    room_cong a b g = cc
AllRoom-get (v ∷ ws) (suc i) w h e = AllRoom-get ws i w h.1 e

pub AllRoom-set :
    (ws : List Worker) (i : ℕ) (w : Worker)
    → AllRoom ws
    → 0 < w.queue.max_size
    → AllRoom (set ws i w)
AllRoom-set [] i w h k = tt
AllRoom-set (v ∷ ws) zero w h k = (k, h.1)
AllRoom-set (v ∷ ws) (suc i) w h k = (h.0, AllRoom-set ws i w h.1 k)

pub HandsFree-get :
    (ws : List Worker) (i : ℕ) (w : Worker) → HandsFree ws → get_elem? ws i ≡ some w → w.hand ≡ none
HandsFree-get [] i w h e = cc
HandsFree-get (v ∷ ws) zero w h e = hand_cong v w e h.0
  where
    hand_cong : (a b : Worker) → some a ≡ some b → a.hand ≡ none → b.hand ≡ none
    hand_cong a b g k = cc
HandsFree-get (v ∷ ws) (suc i) w h e = HandsFree-get ws i w h.1 e

pub HandsFree-set :
    (ws : List Worker) (i : ℕ) (w : Worker) → HandsFree ws → w.hand ≡ none → HandsFree (set ws i w)
HandsFree-set [] i w h k = tt
HandsFree-set (v ∷ ws) zero w h k = (k, h.1)
HandsFree-set (v ∷ ws) (suc i) w h k = (h.0, HandsFree-set ws i w h.1 k)

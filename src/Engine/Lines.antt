-- ===== src/Engine/Lines.antt =====
-- The packets of one flow on their way through the threads of src/dpi_engine.cpp, in line.
use multi_threaded_dpi_engin.Base.{
  ℕ, zero, suc, ◌==◌, ◌≡◌, ◌≢◌, ◌⊎◌, inl, inr, refl, sym, ap, ◌∙◌, Bool-cases, List, [], ◌∷◌, ◌++◌,
  append_assoc, Option, none, some, get_elem?, set, arith,
}
use mathlib.Core.List.Sublist
use mathlib.Core.List.{Sublist, sublist-append_right}
use multi_threaded_dpi_engin.Types.{PacketJob}
use multi_threaded_dpi_engin.Types.Flow.{FiveTuple, tuple_eq, tuple_eq_iff}
use multi_threaded_dpi_engin.Types.Cut.{of_flow, of_flow-append}
use multi_threaded_dpi_engin.Engine.Pipeline.{Worker}

-- A part of a line goes on to the place before, or out of the line.
pub Sublist-moved {ℓ} :
    {A : Type ℓ}
    → (part a b c a2 b2 : List A) → b ≡ part ++ b2
    → (a2 ≡ a ++ part) ⊎ (a2 ≡ a)
    → Sublist (a2 ++ (b2 ++ c)) (a ++ (b ++ c))
Sublist-moved part a b c a2 b2 e (inl f) =
    rw (e, f) (rw (append_assoc a part (b2 ++ c), append_assoc part b2 c) (Sublist.refl _))
Sublist-moved part a b c a2 b2 e (inr f) =
    rw (e, f, append_assoc part b2 c)
      (Sublist.append (Sublist.refl a) (sublist-append_right part (b2 ++ c)))

abbrev pub held : Option PacketJob → List PacketJob
held none = []
held (some job) = job ∷ []

-- The packets that a thread has, the one that it took first in front.
abbrev pub worker_line : Worker → List PacketJob
worker_line w = held w.hand ++ w.queue.items

abbrev pub line_at : List Worker → ℕ → List PacketJob
line_at [] n = []
line_at (w ∷ ws) zero = worker_line w
line_at (w ∷ ws) (suc n) = line_at ws n

pub line_at-get :
    (ws : List Worker) (n : ℕ) (w : Worker) → get_elem? ws n ≡ some w → line_at ws n ≡ worker_line w
line_at-get [] n w e = cc
line_at-get (v ∷ ws) zero w e = ap worker_line (some_inj v w e)
  where
    some_inj : (a b : Worker) → some a ≡ some b → a ≡ b
    some_inj a b h = cc
line_at-get (v ∷ ws) (suc n) w e = line_at-get ws n w e

pub line_at-set :
    (ws : List Worker) (n : ℕ) (w v : Worker)
    → get_elem? ws n ≡ some w
    → line_at (set ws n v) n ≡ worker_line v
line_at-set [] n w v e = cc
line_at-set (u ∷ ws) zero w v e = refl
line_at-set (u ∷ ws) (suc n) w v e = line_at-set ws n w v e

pub line_at-set_ne :
    (ws : List Worker) (n m : ℕ) (v : Worker) → n ≢ m → line_at (set ws n v) m ≡ line_at ws m
line_at-set_ne [] n m v h = refl
line_at-set_ne (u ∷ ws) zero zero v h = absurd (h refl)
line_at-set_ne (u ∷ ws) zero (suc m) v h = refl
line_at-set_ne (u ∷ ws) (suc n) zero v h = refl
line_at-set_ne (u ∷ ws) (suc n) (suc m) v h = line_at-set_ne ws n m v (λ e. h (ap suc e))

-- A thread in the list is replaced by one with the same packets.
pub line_at-same :
    (ws : List Worker) (n m : ℕ) (w v : Worker)
    → get_elem? ws n ≡ some w
    → worker_line v ≡ worker_line w
    → line_at (set ws n v) m ≡ line_at ws m
line_at-same ws n m w v e same = elim (Bool-cases (n == m)) [
  | inl equal ↦
      let there : n ≡ m = ground arith in
      ap (line_at (set ws n v)) (sym there)
      ∙ line_at-set ws n w v e
      ∙ same
      ∙ sym (line_at-get ws n w e)
      ∙ ap (line_at ws) there
  | inr other ↦ line_at-set_ne ws n m v (λ e. ground arith)
]

-- The flow `t`.
module _ (t : FiveTuple) where
  abbrev pub of_t : List PacketJob → List PacketJob
  of_t = of_flow (λ (job : PacketJob). job.tuple) t

  pub of_t-append : (xs ys : List PacketJob) → of_t (xs ++ ys) ≡ of_t xs ++ of_t ys
  of_t-append = of_flow-append (λ (job : PacketJob). job.tuple) t

  -- Only the thread with this number has packets of the flow.
  abbrev pub Confined : List Worker → ℕ → Type 0
  Confined ws place = (n : ℕ) → n ≢ place → of_t (line_at ws n) ≡ []

  pub Confined-set :
      (ws : List Worker) (place n : ℕ) (w v : Worker)
      → get_elem? ws n ≡ some w
      → Confined ws place
      → (n ≢ place → of_t (worker_line v) ≡ [])
      → Confined (set ws n v) place
  Confined-set ws place n w v e h k m differs = elim (Bool-cases (n == m)) [
    | inl equal ↦
        let there : n ≡ m = ground arith in
        ap (λ i. of_t (line_at (set ws n v) i)) (sym there)
        ∙ ap of_t (line_at-set ws n w v e)
        ∙ k (λ f. differs (sym there ∙ f))
    | inr other ↦ ap of_t (line_at-set_ne ws n m v (λ f. ground arith)) ∙ h m differs
  ]

  -- A job that is not of the flow adds nothing.
  pub of_t-alone : (job : PacketJob) → (job.tuple ≡ t → ⊥) → of_t (job ∷ []) ≡ []
  of_t-alone job differs = elim (Bool-cases (tuple_eq job.tuple t)) [
    | inl same ↦ absurd (differs ((tuple_eq_iff job.tuple t).0 same))
    | inr other ↦ rw other
  ]

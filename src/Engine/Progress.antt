-- ===== src/Engine/Progress.antt =====
-- The pipeline never gets stuck: some thread can take a step until all have ended.
use multi_threaded_dpi_engin.Base.{
  ◌≤◌, ◌*◌, ℕ, zero, suc, ◌<◌, ◌≡◌, ◌⊎◌, inl, inr, refl, sym, ◌∙◌, Bool, true, false, not, ◌||◌,
  List, [], ◌∷◌, none, arith, length, Bool-cases, Option-cases,
}
use multi_threaded_dpi_engin.Types.{PacketJob}
use multi_threaded_dpi_engin.Types.Hash.{StdHash}
use multi_threaded_dpi_engin.Queue.Effects.{push-empty, pop-first}
use multi_threaded_dpi_engin.Balancer.Routing.{fp_of-bound}
use multi_threaded_dpi_engin.Engine.Pipeline.{
  Pipeline, HandsFree, no_items, lb_index, fp_index, Step, read_step, lb_pop, lb_push, fp_pop,
  fp_forward, out_pop, out_write, see_lbs, see_fps, see_out, stop_lb, stop_fp, stop_out, Steps,
}
use multi_threaded_dpi_engin.Engine.Drain.{start}
use multi_threaded_dpi_engin.Engine.Phases.{Phases, steps-Phases, start-Phases}
use multi_threaded_dpi_engin.Engine.Workers.{AllRoom-get, HandsFree-get}
use multi_threaded_dpi_engin.Engine.Finding.{
  Holder, find_hand, AllEmpty, items_cases, find_item, AllEmpty-get, queues_empty-all,
  get_elem?-some, HandsFree-take,
}

-- All threads have ended, the output thread with nothing left to write.
abbrev pub Ended : ℕ → ℕ → Pipeline → Type 0
Ended l f p =
    (p.lbs_stopped ≡ l)
    × (p.fps_stopped ≡ l * f)
    × (p.out_running ≡ false)
    × HandsFree p.lbs
    × HandsFree p.fps
    × (p.out.queue.items ≡ [])
    × (p.out.hand ≡ none)

zero_or : (n : ℕ) → (n ≡ 0) ⊎ (0 < n)
zero_or zero = inl refl
zero_or (suc n) = inr (omega arith)

less_or : (n m : ℕ) → n ≤ m → (n ≡ m) ⊎ (n < m)
less_or n m h = ground arith

module _ (h : StdHash) (l f : ℕ) (pos_l : 0 < l) (pos_f : 0 < f) (p : Pipeline)
    (v : Phases l f p) where
  abbrev Next : Type 0
  Next = (q : Pipeline) × Step h l f p q

  -- Where the fast paths' queues are empty, a balancer can push.
  balancer_pushes : AllEmpty p.fps → Holder p.lbs → Next
  balancer_pushes empty (i, w, job, e, g) =
      let within : fp_index h l f job < length p.fps =
        omega (arith, fp_of-bound h job.tuple l f pos_l pos_f, v.sized.fps_length) in
      let (u, there) = get_elem?-some p.fps (fp_index h l f job) within in
      let (q, pushed) =
        push-empty job u.queue (AllEmpty-get p.fps _ u empty there)
          (AllRoom-get p.fps _ u v.sized.fps_room there) in
      (_, lb_push p i w u job q e g there pushed)

  -- Where the balancers' queues are empty, the reader can push.
  reader_pushes :
      (job : PacketJob) (rest : List PacketJob) → p.unread ≡ job ∷ rest → AllEmpty p.lbs → Next
  reader_pushes job rest e empty =
      let within : lb_index h l f job < length p.lbs = grind (arith, v.sized.lbs_length) in
      let (w, there) = get_elem?-some p.lbs (lb_index h l f job) within in
      let (q, pushed) =
        push-empty job w.queue (AllEmpty-get p.lbs _ w empty there)
          (AllRoom-get p.lbs _ w v.sized.lbs_room there) in
      (_, read_step p job rest w q e there pushed)

  -- The next balancer is stopped, or after the last the next fast path.
  next_stop : p.seen ≡ 3 → HandsFree p.lbs → HandsFree p.fps → p.fps_stopped < l * f → Next
  next_stop waited free fps_free more = elim (less_or p.lbs_stopped l v.lbs_most) [
    | inl all ↦
        let (w, there) = get_elem?-some p.fps p.fps_stopped (omega (arith, v.sized.fps_length)) in
        (
          _,
          stop_fp p w (omega (arith, v.sized.lbs_length)) free there
              (HandsFree-take _ p.fps fps_free),
        )
    | inr some_left ↦
        let (w, there) = get_elem?-some p.lbs p.lbs_stopped (omega (arith, v.sized.lbs_length)) in
        (_, stop_lb p w waited there (HandsFree-take _ p.lbs free))
  ]

  -- With all queues empty and all hands free, behind the reader's end.
  main_goes :
      p.unread ≡ []
      → AllEmpty p.lbs
      → AllEmpty p.fps
      → p.out.queue.items ≡ []
      → HandsFree p.lbs
      → HandsFree p.fps
      → p.fps_stopped < l * f
      → Next
  main_goes none_left lbs fps quiet free fps_free more = tests p.seen refl
    where
      tests : (n : ℕ) → p.seen ≡ n → Next
      tests zero e = (_, see_lbs p none_left e (queues_empty-all p.lbs lbs))
      tests (suc zero) e = (_, see_fps p e (queues_empty-all p.fps fps))
      tests (suc (suc zero)) e = (_, see_out p e (unfold no_items in rw quiet))
      tests (suc (suc (suc zero))) e = next_stop e free fps_free more
      tests (suc (suc (suc (suc n)))) e = absurd (omega (arith, v.seen_most))

  -- With the fast paths idle and not stopped.
  balancers_go :
      p.fps_stopped ≡ 0 → AllEmpty p.fps → HandsFree p.fps → p.out.queue.items ≡ [] → Next
  balancers_go up empty fps_free quiet =
      let more : p.fps_stopped < l * f = grind arith in
      elim (find_hand p.lbs) [
        | inr holder ↦ balancer_pushes empty holder
        | inl free ↦ elim (zero_or p.lbs_stopped) [
          | inr stopping ↦ next_stop (v.lbs_after stopping) free fps_free more
          | inl going ↦ elim (find_item p.lbs) [
            | inr (i, w, job, rest, e, g) ↦ (
              _,
              lb_pop p i w job _ e (HandsFree-get p.lbs i w free e) (omega arith)
                  (pop-first w.queue job rest g),
            )
            | inl none_left ↦ elim (items_cases p.unread) [
              | inr (job, rest, e) ↦ reader_pushes job rest e none_left
              | inl over ↦ main_goes over none_left empty quiet free fps_free more
            ]
          ]
        ]
      ]

  -- With the output thread idle.
  fast_paths_go : p.out.hand ≡ none → p.out.queue.items ≡ [] → Next ⊎ Ended l f p
  fast_paths_go idle_hand quiet = elim (find_hand p.fps) [
    | inr (i, w, job, e, g) ↦
        let (q, pushed) = push-empty job p.out.queue quiet v.sized.out_room in
        inl (_, fp_forward p i w job q e g pushed)
    | inl free ↦ elim (zero_or p.fps_stopped) [
      | inl up ↦ elim (find_item p.fps) [
        | inr (i, w, job, rest, e, g) ↦ inl (
          _,
          fp_pop p i w job _ e (HandsFree-get p.fps i w free e) (omega arith)
              (pop-first w.queue job rest g),
        )
        | inl empty ↦ inl (balancers_go up empty free quiet)
      ]
      | inr stopping ↦
          let (all, lbs_free) = v.fps_after stopping in
          elim (less_or p.fps_stopped (l * f) v.fps_most) [
            | inr more ↦ inl (next_stop (v.lbs_after (omega arith)) lbs_free free more)
            | inl every ↦ elim (Bool-cases p.out_running) [
              | inl up ↦ inl (_, stop_out p up (every ∙ sym v.sized.fps_length) free)
              | inr over ↦ inr (all, every, over, lbs_free, free, quiet, idle_hand)
            ]
          ]
    ]
  ]

  step-or_Ended : Next ⊎ Ended l f p
  step-or_Ended = elim (Option-cases p.out.hand) [
    | inr (job, e) ↦ inl (_, out_write p job e)
    | inl free ↦ elim (items_cases p.out.queue.items) [
      | inr (job, rest, e) ↦
          inl (_, out_pop p job _ free (more job rest e) (pop-first p.out.queue job rest e))
      | inl quiet ↦ fast_paths_go free quiet
    ]
  ]
    where
      more :
          (job : PacketJob) (rest : List PacketJob)
          → p.out.queue.items ≡ job ∷ rest
          → (p.out_running || not (no_items p.out.queue)) ≡ true
      more job rest e = unfold no_items in rw e (or_true p.out_running)
        where
          or_true : (b : Bool) → (b || true) ≡ true
          or_true true = refl
          or_true false = refl

-- The pipeline has no deadlock, on queues of any size above zero: at every time after the start
-- of at least one balancer with at least one fast path each, either some thread can take its next
-- step, or all threads have ended, with nothing in their hands and the output queue written out.
pub steps-NeverStuck :
    (h : StdHash) (l f size : ℕ) (jobs : List PacketJob) (p : Pipeline)
    → 0 < l
    → 0 < f
    → 0 < size
    → Steps h l f (start l f size jobs) p
    → ((q : Pipeline) × Step h l f p q) ⊎ Ended l f p
steps-NeverStuck h l f size jobs p pos_l pos_f room run =
    step-or_Ended h l f pos_l pos_f p
      (steps-Phases h l f (start l f size jobs) p run (start-Phases l f size jobs room))

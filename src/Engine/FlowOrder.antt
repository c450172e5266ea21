-- ===== src/Engine/FlowOrder.antt =====
-- No flow of src/dpi_engine.cpp is reordered on its way from the capture to the output.
use multi_threaded_dpi_engin.Base.{
  ℕ, zero, suc, ◌*◌, ◌%◌, ◌≡◌, inl, inr, refl, ap, subst, ◌∙◌, List, [], ◌∷◌, ◌++◌, append-nil,
  replicate,
}
use mathlib.Core.List.Sublist
use mathlib.Core.List.{Sublist, sublist-append_left}
use multi_threaded_dpi_engin.Types.{PacketJob}
use multi_threaded_dpi_engin.Types.Flow.{FiveTuple}
use multi_threaded_dpi_engin.Types.Hash.{StdHash, tuple_hash}
use multi_threaded_dpi_engin.Types.Cut.{of_flow}
use multi_threaded_dpi_engin.Balancer.Routing.{fp_of}
use multi_threaded_dpi_engin.Queue.{shutdown}
use multi_threaded_dpi_engin.Engine.Pipeline.{
  Worker, Pipeline, Step, read_step, lb_pop, lb_push, fp_pop, fp_drop, fp_forward, out_pop,
  out_write, see_lbs, see_fps, see_out, stop_lb, stop_fp, stop_out, shut_worker, Steps, done,
  then_step,
}
use multi_threaded_dpi_engin.Engine.Drain.{idle, start}
use multi_threaded_dpi_engin.Engine.Lines.{
  Sublist-moved, worker_line, line_at, line_at-same, of_t, of_t-append, Confined,
}
use multi_threaded_dpi_engin.Engine.Order.{
  pop-worker_line, push-worker_line, hand-worker_line, push-line_at, hand-line_at,
}

module _ (h : StdHash) (l f : ℕ) (t : FiveTuple) where
  -- The balancer and the fast path of the flow.
  abbrev lb_place : ℕ
  lb_place = tuple_hash h t % l

  abbrev fp_place : ℕ
  fp_place = fp_of h l f t

  -- The flow's packets from the output back to the capture.
  abbrev line : Pipeline → List PacketJob
  line p =
      of_t t p.written
      ++ (of_t t (worker_line p.out)
          ++ (of_t t (line_at p.fps fp_place)
              ++ (of_t t (line_at p.lbs lb_place) ++ (of_t t p.unread ++ []))))

  abbrev Routed : Pipeline → Type 0
  Routed p = Confined t p.lbs lb_place × Confined t p.fps fp_place

  -- What a step leaves: the line less a packet, or all of it.
  abbrev After : Pipeline → Pipeline → Type 0
  After p q = Routed q × Sublist (line q) (line p)

  to_lb : (job : PacketJob) → job.tuple ≡ t → tuple_hash h job.tuple % l ≡ lb_place
  to_lb job e = ap (λ u. tuple_hash h u % l) e

  to_fp : (job : PacketJob) → job.tuple ≡ t → fp_of h l f job.tuple ≡ fp_place
  to_fp job e = ap (fp_of h l f) e

  behind : (xs ys zs : List PacketJob) → Sublist ys zs → Sublist (xs ++ ys) (xs ++ zs)
  behind xs ys zs s = Sublist.append (Sublist.refl xs) s

  Sublist-same : (xs ys : List PacketJob) → xs ≡ ys → Sublist xs ys
  Sublist-same xs ys e = rw e (Sublist.refl ys)

  -- A step that leaves the packets of each balancer, or of each fast path, where they are.
  lbs-same :
      (p : Pipeline) (ws : List Worker)
      → ((m : ℕ) → line_at ws m ≡ line_at p.lbs m)
      → Routed p
      → Routed (record p { lbs = ws }) × Sublist (line (record p { lbs = ws })) (line p)
  lbs-same p ws same (lbs, fps) = (
    ((λ n d. ap (of_t t) (same n) ∙ lbs n d), fps),
    behind (of_t t p.written) _ _ (
        behind (of_t t (worker_line p.out)) _ _ (
          behind (of_t t (line_at p.fps fp_place)) _ _
            (Sublist-same _ _ (ap (λ xs. of_t t xs ++ (of_t t p.unread ++ [])) (same lb_place))))),
  )

  fps-same :
      (p : Pipeline) (ws : List Worker)
      → ((m : ℕ) → line_at ws m ≡ line_at p.fps m)
      → Routed p
      → Routed (record p { fps = ws }) × Sublist (line (record p { fps = ws })) (line p)
  fps-same p ws same (lbs, fps) = (
    (lbs, (λ n d. ap (of_t t) (same n) ∙ fps n d)),
    behind (of_t t p.written) _ _ (
        behind (of_t t (worker_line p.out)) _ _ (
          Sublist-same _ _ (
            ap (λ xs. of_t t xs ++ (of_t t (line_at p.lbs lb_place) ++ (of_t t p.unread ++ [])))
              (same fp_place)))),
  )

  step-After : (p q : Pipeline) → Step h l f p q → Routed p → After p q
  step-After _ _ (read_step p job rest w q e g k) (lbs, fps) =
      let (pushed, routed) =
        push-line_at t p.lbs lb_place (tuple_hash h job.tuple % l) w g job q k (to_lb job) lbs in
      (
        (routed, fps),
        behind (of_t t p.written) _ _ (
            behind (of_t t (worker_line p.out)) _ _ (
              behind (of_t t (line_at p.fps fp_place)) _ _ (
                Sublist-moved (of_t t (job ∷ [])) _ _ [] _ (of_t t rest)
                  (ap (of_t t) e ∙ of_t-append t (job ∷ []) rest) pushed))),
      )
  step-After _ _ (lb_pop p i w job q g e r k) routed =
      lbs-same p _ (λ m. line_at-same p.lbs i m w _ g (pop-worker_line w job q e k)) routed
  step-After _ _ (lb_push p i w u job q g e n k) (lbs, fps) =
      let (left, routed_lbs) = hand-line_at t p.lbs lb_place i w g job e lbs in
      let (pushed, routed_fps) =
        push-line_at t p.fps fp_place (fp_of h l f job.tuple) u n job q k (to_fp job) fps in
      (
        (routed_lbs, routed_fps),
        behind (of_t t p.written) _ _ (
            behind (of_t t (worker_line p.out)) _ _
              (Sublist-moved (of_t t (job ∷ [])) _ _ _ _ _ left pushed)),
      )
  step-After _ _ (fp_pop p i w job q g e r k) routed =
      fps-same p _ (λ m. line_at-same p.fps i m w _ g (pop-worker_line w job q e k)) routed
  step-After _ _ (fp_drop p i w job g e) (lbs, fps) =
      let (left, routed) = hand-line_at t p.fps fp_place i w g job e fps in
      (
        (lbs, routed),
        behind (of_t t p.written) _ _ (Sublist-moved (of_t t (job ∷ [])) _ _ _ _ _ left (inr refl)),
      )
  step-After _ _ (fp_forward p i w job q g e k) (lbs, fps) =
      let (left, routed) = hand-line_at t p.fps fp_place i w g job e fps in
      (
        (lbs, routed),
        behind (of_t t p.written) _ _
            (Sublist-moved (of_t t (job ∷ [])) _ _ _ _ _ left (push-worker_line t p.out job q k)),
      )
  step-After _ _ (out_pop p job q e going k) (lbs, fps) = (
    (lbs, fps),
    behind (of_t t p.written) _ _ (
        Sublist-same _ _ (
          ap
            (λ xs.
              of_t t xs
              ++ (of_t t (line_at p.fps fp_place)
                  ++ (of_t t (line_at p.lbs lb_place) ++ (of_t t p.unread ++ []))))
            (pop-worker_line p.out job q e k))),
  )
  step-After _ _ (out_write p job e) (lbs, fps) = (
    (lbs, fps),
    Sublist-moved (of_t t (job ∷ [])) _ _ _ _ _ (hand-worker_line t p.out job e)
        (inl (of_t-append t p.written (job ∷ []))),
  )
  step-After _ _ (see_lbs p e k g) routed = (routed, Sublist.refl _)
  step-After _ _ (see_fps p k g) routed = (routed, Sublist.refl _)
  step-After _ _ (see_out p k g) routed = (routed, Sublist.refl _)
  step-After _ _ (stop_lb p w k g e) routed =
      lbs-same p _
        (λ m. line_at-same p.lbs p.lbs_stopped m w (shut_worker w) g (unfold shutdown in refl))
        routed
  step-After _ _ (stop_fp p w n c g e) routed =
      fps-same p _
        (λ m. line_at-same p.fps p.fps_stopped m w (shut_worker w) g (unfold shutdown in refl))
        routed
  step-After _ _ (stop_out p up n c) routed = (routed, (unfold shutdown in Sublist.refl _))

  steps-After : (p q : Pipeline) → Steps h l f p q → Routed p → Sublist (line q) (line p)
  steps-After _ _ (done p) routed = Sublist.refl _
  steps-After _ _ (then_step p q r s rest) routed =
      let (next, fewer) = step-After p q s routed in Sublist.trans (steps-After q r rest next) fewer

line_at-idle : (n size m : ℕ) → line_at (replicate n (idle size)) m ≡ []
line_at-idle zero size m = refl
line_at-idle (suc n) size zero = refl
line_at-idle (suc n) size (suc m) = line_at-idle n size m

line-start :
    (h : StdHash) (l f size : ℕ) (jobs : List PacketJob) (t : FiveTuple)
    → line h l f t (start l f size jobs) ≡ of_t t jobs
line-start h l f size jobs t =
    rw
      (
        line_at-idle (l * f) size (fp_place h l f t),
        line_at-idle l size (lb_place h l f t),
        append-nil,
      )
      refl

-- However the threads are scheduled, the packets of each flow leave the engine in the order in which
-- they stand in the capture: at every time, of each flow those written are some of the flow's packets
-- that the reader has made jobs of, each once and in their order.
pub steps-InFlowOrder :
    (h : StdHash) (l f size : ℕ) (jobs : List PacketJob) (q : Pipeline) (t : FiveTuple)
    → Steps h l f (start l f size jobs) q
    → Sublist
        (of_flow (λ (job : PacketJob). job.tuple) t q.written)
        (of_flow (λ (job : PacketJob). job.tuple) t jobs)
steps-InFlowOrder h l f size jobs q t run =
    Sublist.trans (sublist-append_left (of_t t q.written) _) (
      subst (Sublist (line h l f t q)) (line-start h l f size jobs t) (
        steps-After h l f t (start l f size jobs) q run (
          (λ n d. ap (of_t t) (line_at-idle l size n)),
          (λ n d. ap (of_t t) (line_at-idle (l * f) size n)),
        )))

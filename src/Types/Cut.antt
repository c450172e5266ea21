-- ===== src/Types/Cut.antt =====
-- Loops that let packets of flows pass until a flow is blocked, and from then on none of them.
use multi_threaded_dpi_engin.Base.{
  ◌≡◌, ◌≢◌, refl, sym, ap, ◌∙◌, Bool, true, false, not, if◌then◌else◌, List, [], ◌∷◌, ◌++◌, inl,
  inr, Bool-cases, arith,
}
use multi_threaded_dpi_engin.Types.Flow.{FiveTuple, tuple_eq, tuple_eq_iff}

module _ {A : Type 0} (key : A → FiveTuple) where
  -- The packets of one flow, in order.
  abbrev pub of_flow : FiveTuple → List A → List A
  of_flow t [] = []
  of_flow t (a ∷ xs) = if tuple_eq (key a) t then a ∷ of_flow t xs else of_flow t xs

  of_flow-other :
      (t : FiveTuple) (a : A) (passed : Bool) (out : List A)
      → tuple_eq (key a) t ≡ false
      → of_flow t (if passed then a ∷ out else out) ≡ of_flow t out
  of_flow-other t a true out h = rw h
  of_flow-other t a false out h = refl

  pub of_flow-append :
      (t : FiveTuple) (xs ys : List A) → of_flow t (xs ++ ys) ≡ of_flow t xs ++ of_flow t ys
  of_flow-append t [] ys = refl
  of_flow-append t (x ∷ xs) ys = elim (Bool-cases (tuple_eq (key x) t)) [
    | inl same ↦ rw (same, of_flow-append t xs ys)
    | inr other ↦ rw (other, of_flow-append t xs ys)
  ]

  module _ {S : Type 0} (blocked : FiveTuple → S → Bool) where
    -- What one round leaves of the flows' blocks.
    pub record Judged (a : A) (passed : Bool) (s u : S) : Type 0 where
      pub after : blocked (key a) u ≡ not passed
      pub keeps : blocked (key a) s ≡ true → passed ≡ false
      pub others : (t : FiveTuple) → key a ≢ t → blocked t u ≡ blocked t s

    -- Of the flow's packets those that passed are the first ones, and none passed if it was blocked.
    abbrev pub Orderly : FiveTuple → S → List A → List A → S → Type 0
    Orderly t s xs out u =
        ((rest : List A) × (of_flow t xs ≡ of_flow t out ++ rest))
        × (blocked t s ≡ true → (of_flow t out ≡ []) × (blocked t u ≡ true))

    module _ (t : FiveTuple) (a : A) (xs out : List A) (s u v : S) where
      abbrev Later : Bool → Type 0
      Later passed = Orderly t s (a ∷ xs) (if passed then a ∷ out else out) v

      same-Orderly :
          (passed : Bool)
          → Judged a passed s u
          → tuple_eq (key a) t ≡ true
          → Orderly t u xs out v
          → Later passed
      same-Orderly true did same ((rest, e), shut) = (
        (rest, rw (same, e)),
        (λ b. absurd (wrong (did.keeps (ap (λ k. blocked k s) equal ∙ b)))),
      )
        where
          equal : key a ≡ t
          equal = (tuple_eq_iff (key a) t).0 same

          wrong : true ≡ false → ⊥
          wrong e = cc
      same-Orderly false did same ((rest, e), shut) =
          let equal = (tuple_eq_iff (key a) t).0 same in
          let now = shut (ap (λ k. blocked k u) (sym equal) ∙ did.after) in
          ((of_flow t (a ∷ xs), rw now.0), (λ _. now))

      other-Orderly :
          (passed : Bool)
          → Judged a passed s u
          → tuple_eq (key a) t ≡ false
          → Orderly t u xs out v
          → Later passed
      other-Orderly passed did other ((rest, e), shut) =
          let differs : key a ≢ t = λ e. ground (arith, (tuple_eq_iff (key a) t).1 e) in
          let skipped = of_flow-other t a passed out other in
          (
            (rest, rw (other, skipped) e),
            (λ b.
                let (none_out, still) = shut (did.others t differs ∙ b) in
                (skipped ∙ none_out, still)),
          )

      -- A round in front of a loop that is orderly.
      pub round-Orderly :
          (passed : Bool) → Judged a passed s u → Orderly t u xs out v → Later passed
      round-Orderly passed did rest = elim (Bool-cases (tuple_eq (key a) t)) [
        | inl same ↦ same-Orderly passed did same rest
        | inr other ↦ other-Orderly passed did other rest
      ]

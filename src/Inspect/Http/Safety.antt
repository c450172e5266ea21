-- ===== src/Inspect/Http/Safety.antt =====
-- `HTTPHostExtractor::extract` stays within the payload on every input.
use multi_threaded_dpi_engin.Base.{
  ℕ, zero, suc, ◌+◌, ◌-◌, ◌≤◌, ◌<◌, ◌≡◌, refl, ap, ◌∙◌, Bool, false, not, ◌&&◌, ◌||◌, [], ◌∷◌,
  Option, none, some, ◌>>=◌, Ensures, bind-Ensures, if-Ensures, Ensures-some, leb, ltb, ◌==◌, arith,
  Bytes, length, take, drop,
}
use multi_threaded_dpi_engin.Base.Eq.{nat_eq, contains}
use multi_threaded_dpi_engin.Inspect.Memory.{read, slice, read-Ensures, slice-Ensures, StandsIn}
use multi_threaded_dpi_engin.Inspect.Http.{
  is_http_request, is_host_header, skip_blanks, find_line_end, before_colon, read_host, or_else,
  find_host, extract,
}

abbrev Any {ℓ} : {A : Type ℓ} → A → Type 0
Any _ = Unit {0}

-- A name that is returned stands in the payload and has no colon.
abbrev pub Host : Bytes → ℕ → ℕ → Option Bytes → Type 0
Host mem p n none = Unit
Host mem p n (some host) = StandsIn mem p n host × (contains b':' host ≡ false)

before_colon-clean : (s : Bytes) → contains b':' (before_colon s) ≡ false
unfolding before_colon contains
before_colon-clean [] = refl
before_colon-clean (c ∷ cs) = ground (arith, before_colon-clean cs)

before_colon-take :
    (s : Bytes)
    → (length (before_colon s) ≤ length s) × (before_colon s ≡ take (length (before_colon s)) s)
unfolding before_colon
before_colon-take [] = (omega arith, refl)
before_colon-take (c ∷ cs) = ground (arith, before_colon-take cs)

take-take : (k n : ℕ) (s : Bytes) → k ≤ n → take k (take n s) ≡ take k s
take-take zero n s h = refl
take-take (suc k) zero s h = absurd (omega arith)
take-take (suc k) (suc n) [] h = refl
take-take (suc k) (suc n) (c ∷ s) h = ap (◌∷◌ c) (take-take k n s (omega arith))

-- The payload is `n` bytes of the buffer at `p`.
module _ (mem : Bytes) (p n : ℕ) (inside : p + n ≤ length mem) where
  after_read {ℓ} :
      {B : Type ℓ} (Q : B → Type 0) (i : ℕ) (f : ℕ → Option B)
      → i < n
      → ((b : ℕ) → Ensures Q (f b))
      → Ensures Q (read mem (p + i) >>= f)
  after_read Q i f h k =
      bind-Ensures Any Q (read mem (p + i)) f (read-Ensures mem (p + i) (omega arith)) λ b _. k b

  is_http_request-Ensures : Ensures Any (is_http_request mem p n)
  unfolding is_http_request
  is_http_request-Ensures =
      if-Ensures Any (ltb n 4) _ _ (λ _. tt)
        λ four.
          bind-Ensures (λ head. (length head ≡ 4) × (head ≡ take 4 (drop p mem))) Any
            (slice mem p 4) _ (slice-Ensures mem p 4 (ground arith)) λ _ _. tt

  is_host_header-Ensures : (i : ℕ) → i + 5 ≤ n → Ensures Any (is_host_header mem (p + i))
  unfolding is_host_header
  is_host_header-Ensures i h = after_read Any i _ (omega arith) λ c0.
      if-Ensures Any (not (c0 == b'H' || c0 == b'h')) _ _ (λ _. tt)
        λ _. next 1 (omega arith) _ λ c1.
          if-Ensures Any (not (c1 == b'o' || c1 == b'O')) _ _ (λ _. tt)
            λ _. next 2 (omega arith) _ λ c2.
              if-Ensures Any (not (c2 == b's' || c2 == b'S')) _ _ (λ _. tt)
                λ _. next 3 (omega arith) _ λ c3.
                  if-Ensures Any (not (c3 == b't' || c3 == b'T')) _ _ (λ _. tt)
                    λ _. next 4 (omega arith) _ λ c4. tt
    where
      next :
          (k : ℕ)
          → k < 5
          → (f : ℕ → Option Bool) → ((b : ℕ) → Ensures Any (f b))
          → Ensures Any (read mem (p + i + k) >>= f)
      next k l f g =
          bind-Ensures Any Any (read mem (p + i + k)) f (read-Ensures mem (p + i + k) (omega arith))
            λ b _. g b

  skip_blanks-Ensures :
      (fuel start : ℕ)
      → n < start + fuel
      → start ≤ n
      → Ensures (λ q. (start ≤ q) × (q ≤ n)) (skip_blanks fuel mem p n start)
  unfolding skip_blanks
  skip_blanks-Ensures zero start h l = absurd (omega arith)
  skip_blanks-Ensures (suc fuel) start h l =
      if-Ensures Q (leb n start) _ _ (λ _. (omega arith, l))
        λ more. after_read Q start _ (ground arith) λ c.
          if-Ensures Q (c == b' ' || c == b'\t') _ _
            (λ _.
              weaken (skip_blanks fuel mem p n (start + 1))
                (skip_blanks-Ensures fuel (start + 1) (omega arith) (ground arith)))
            λ _. (omega arith, l)
    where
      Q : ℕ → Type 0
      Q q = (start ≤ q) × (q ≤ n)

      weaken : (m : Option ℕ) → Ensures (λ q. (start + 1 ≤ q) × (q ≤ n)) m → Ensures Q m
      weaken none e = e
      weaken (some q) e = omega arith

  find_line_end-Ensures :
      (fuel last : ℕ)
      → n < last + fuel
      → last ≤ n
      → Ensures (λ q. q ≤ n) (find_line_end fuel mem p n last)
  unfolding find_line_end
  find_line_end-Ensures zero last h l = absurd (omega arith)
  find_line_end-Ensures (suc fuel) last h l =
      if-Ensures (λ q. q ≤ n) (leb n last) _ _ (λ _. l)
        λ more.
          after_read (λ q. q ≤ n) last _ (ground arith)
            λ c.
              if-Ensures (λ q. q ≤ n) (not (c == b'\r') && not (c == b'\n')) _ _
                (λ _. find_line_end-Ensures fuel (last + 1) (omega arith) (ground arith)) λ _. l

  host-StandsIn :
      (o k : ℕ) (text : Bytes)
      → o + k ≤ n
      → length text ≡ k
      → text ≡ take k (drop (p + o) mem)
      → StandsIn mem p n (before_colon text)
  host-StandsIn o k text h e t = (
    o,
    omega (arith, before_colon-take text),
    (before_colon-take text).1
        ∙ ap (take (length (before_colon text))) t
        ∙ take-take (length (before_colon text)) k (drop (p + o) mem)
            (omega (arith, before_colon-take text)),
  )

  read_host-Ensures : (i : ℕ) → i + 5 ≤ n → Ensures (Host mem p n) (read_host mem p n i)
  unfolding read_host
  read_host-Ensures i h =
      bind-Ensures (λ q. (i + 5 ≤ q) × (q ≤ n)) (Host mem p n) (skip_blanks (suc n) mem p n (i + 5))
        _ (skip_blanks-Ensures (suc n) (i + 5) (omega arith) h)
        λ start s.
          bind-Ensures (λ q. q ≤ n) (Host mem p n) (find_line_end (suc n) mem p n start) _
            (find_line_end-Ensures (suc n) start (omega arith) s.1)
            λ last l.
              if-Ensures (Host mem p n) (leb last start) _ _ (λ _. tt)
                λ some_text.
                  let gap : start + (last - start) ≤ n = ground arith in
                  bind-Ensures
                    (λ text.
                      (length text ≡ last - start)
                      × (text ≡ take (last - start) (drop (p + start) mem)))
                    (Host mem p n) (slice mem (p + start) (last - start)) _
                    (slice-Ensures mem (p + start) (last - start) (omega arith))
                    λ text t.
                      (host-StandsIn start (last - start) text gap t.0 t.1, before_colon-clean text)

  or_else-Ensures :
      (r : Option Bytes) (m : Option (Option Bytes))
      → Host mem p n r
      → Ensures (Host mem p n) m
      → Ensures (Host mem p n) (or_else r m)
  unfolding or_else
  or_else-Ensures none m h k = k
  or_else-Ensures (some s) m h k = h

  find_host-Ensures :
      (fuel i : ℕ) → n < i + fuel → 0 < fuel → Ensures (Host mem p n) (find_host fuel mem p n i)
  unfolding find_host
  find_host-Ensures zero i h pos = absurd (omega arith)
  find_host-Ensures (suc fuel) i h pos =
      if-Ensures (Host mem p n) (leb n (i + 6)) _ _ (λ _. tt)
        λ more.
          let after = find_host-Ensures fuel (i + 1) (omega arith) (ground arith) in
          bind-Ensures Any (Host mem p n) (is_host_header mem (p + i)) _
            (is_host_header-Ensures i (ground arith))
            λ header _.
              if-Ensures (Host mem p n) (not header) _ _ (λ _. after)
                λ _.
                  bind-Ensures (Host mem p n) (Host mem p n) (read_host mem p n i) _
                    (read_host-Ensures i (ground arith)) λ r k. or_else-Ensures r _ k after

  extract-Ensures : Ensures (Host mem p n) (extract mem p n)
  unfolding extract
  extract-Ensures =
      bind-Ensures Any (Host mem p n) (is_http_request mem p n) _ is_http_request-Ensures
        λ request _.
          if-Ensures (Host mem p n) (not request) _ _ (λ _. tt)
            λ _. find_host-Ensures (suc n) 0 (omega arith) (omega arith)

  -- On every payload that lies in its buffer the extraction reads inside the buffer only and
  -- ends, and a host that it returns is a run of the payload's bytes without a colon.
  pub extract_http_inside : (r : Option Bytes) × (extract mem p n ≡ some r) × Host mem p n r
  extract_http_inside = Ensures-some (Host mem p n) (extract mem p n) extract-Ensures

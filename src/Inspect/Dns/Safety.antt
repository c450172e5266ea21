-- ===== src/Inspect/Dns/Safety.antt =====
-- `DNSExtractor::extractQuery` stays within the payload on every input.
use multi_threaded_dpi_engin.Base.{
  ℕ, zero, suc, ◌+◌, ◌≤◌, ◌<◌, ◌≡◌, Bool, true, not, Option, none, some, ◌>>=◌, Ensures,
  bind-Ensures, if-Ensures, Ensures-some, leb, ltb, ◌==◌, arith, Bytes, length, length-append, take,
  drop, bit_and, [], ◌∷◌,
}
use multi_threaded_dpi_engin.Inspect.Memory.{read, slice, read-Ensures, slice-Ensures}
use multi_threaded_dpi_engin.Inspect.Dns.{
  is_dns_query, add_label, read_labels, non_empty, extract_query,
}

abbrev Any {ℓ} : {A : Type ℓ} → A → Type 0
Any _ = Unit {0}

-- A domain that is returned is not empty and no longer than what follows the header.
abbrev pub Domain : ℕ → Option Bytes → Type 0
Domain n none = Unit
Domain n (some domain) = (0 < length domain) × (length domain + 12 ≤ n)

add_label-length : (d label : Bytes) → length (add_label d label) ≤ length d + 1 + length label
unfolding add_label
add_label-length [] label = omega arith
add_label-length (c ∷ cs) label = omega (arith, length-append cs (b'.' ∷ label))

-- The payload is `n` bytes of the buffer at `p`.
module _ (mem : Bytes) (p n : ℕ) (inside : p + n ≤ length mem) where
  after_read {ℓ} :
      {B : Type ℓ} (Q : B → Type 0) (i : ℕ) (f : ℕ → Option B)
      → i < n
      → ((b : ℕ) → Ensures Q (f b))
      → Ensures Q (read mem (p + i) >>= f)
  after_read Q i f h k =
      bind-Ensures Any Q (read mem (p + i)) f (read-Ensures mem (p + i) (omega arith)) λ b _. k b

  is_dns_query-Ensures : Ensures (λ query. query ≡ true → 12 ≤ n) (is_dns_query mem p n)
  unfolding is_dns_query
  is_dns_query-Ensures =
      if-Ensures Q (ltb n 12) _ _ (λ _ e. cc)
        λ long.
          let twelve : 12 ≤ n = ground arith in
          after_read Q 2 _ (omega arith) λ flags.
            if-Ensures Q (not (bit_and flags 0x80 == 0)) _ _ (λ _ e. cc)
              λ _.
                after_read Q 4 _ (omega arith)
                  λ high. after_read Q 5 _ (omega arith) λ low _. twelve
    where
      Q : Bool → Type 0
      Q query = query ≡ true → 12 ≤ n

  abbrev Short : Bytes → Type 0
  Short domain = length domain + 12 ≤ n

  -- What was read so far is shorter than the offset reached.
  read_labels-Ensures :
      (fuel offset : ℕ) (domain : Bytes)
      → n < offset + fuel
      → offset ≤ n
      → length domain + 12 ≤ offset
      → Ensures Short (read_labels fuel mem p n offset domain)
  unfolding read_labels
  read_labels-Ensures zero offset domain h l short = absurd (omega arith)
  read_labels-Ensures (suc fuel) offset domain h l short =
      if-Ensures Short (leb n offset) _ _ (λ _. done)
        λ more. after_read Short offset _ (ground arith) λ k.
          if-Ensures Short (k == 0) _ _ (λ _. done)
            λ _.
              if-Ensures Short (ltb 63 k) _ _ (λ _. done)
                λ _.
                  if-Ensures Short (ltb n (offset + 1 + k)) _ _ (λ _. done)
                    λ fits.
                      let room : offset + 1 + k ≤ n = ground arith in
                      bind-Ensures
                        (λ label.
                          (length label ≡ k) × (label ≡ take k (drop (p + (offset + 1)) mem)))
                        Short (slice mem (p + (offset + 1)) k) _
                        (slice-Ensures mem (p + (offset + 1)) k (omega arith))
                        λ label t.
                          read_labels-Ensures fuel (offset + 1 + k) (add_label domain label)
                            (omega arith) room (omega (arith, add_label-length domain label, t.0))
    where
      done : length domain + 12 ≤ n
      done = omega arith

  non_empty-Domain : (d : Bytes) → Short d → Domain n (non_empty d)
  unfolding non_empty
  non_empty-Domain [] h = tt
  non_empty-Domain (c ∷ cs) h = (omega arith, h)

  extract_query-Ensures : Ensures (Domain n) (extract_query mem p n)
  unfolding extract_query
  extract_query-Ensures =
      bind-Ensures (λ query. query ≡ true → 12 ≤ n) (Domain n) (is_dns_query mem p n) _
        is_dns_query-Ensures
        λ query long.
          if-Ensures (Domain n) (not query) _ _ (λ _. tt)
            λ is_query.
              bind-Ensures Short (Domain n) (read_labels (suc n) mem p n 12 []) _
                (read_labels-Ensures (suc n) 12 [] (omega arith) (long (ground arith))
                  (omega arith))
                λ domain short. non_empty-Domain domain short

  -- On every payload that lies in its buffer the extraction reads inside the buffer only and
  -- ends, and a domain that it returns is not empty and no longer than the payload without the
  -- header's 12 bytes.
  pub extract_query_inside : (r : Option Bytes) × (extract_query mem p n ≡ some r) × Domain n r
  extract_query_inside = Ensures-some (Domain n) (extract_query mem p n) extract_query-Ensures

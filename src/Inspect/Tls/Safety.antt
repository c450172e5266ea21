-- ===== src/Inspect/Tls/Safety.antt =====
-- `SNIExtractor::extract` stays within the payload on every input.
use multi_threaded_dpi_engin.Base.{
  ℕ, zero, suc, ◌+◌, ◌-◌, ◌≤◌, ◌<◌, ◌≡◌, Bool, true, false, not, ◌||◌, Option, none, some, ◌>>=◌,
  Ensures, bind-Ensures, if-Ensures, Ensures-some, leb, ltb, ◌==◌, if◌then◌else◌, arith, Bytes,
  length, take, drop,
}
use multi_threaded_dpi_engin.Inspect.Memory.{
  read, read_uint16_be, read_uint24_be, slice, read-Ensures, read_uint16_be-Ensures,
  read_uint24_be-Ensures, slice-Ensures, StandsIn, Found,
}
use multi_threaded_dpi_engin.Inspect.Tls.{
  is_tls_client_hello, read_server_name, find_server_name, read_extensions, skip_compression,
  skip_ciphers, skip_session_id, extract,
}

abbrev Any : ℕ → Type 0
Any _ = Unit {0}

-- The payload is `n` bytes of the buffer at `p`.
module _ (mem : Bytes) (p n : ℕ) (inside : p + n ≤ length mem) where
  at : (i : ℕ) → i < n → Ensures Any (read mem (p + i))
  at i h = read-Ensures mem (p + i) (omega arith)

  word_at : (q : ℕ) → q + 1 < p + n → Ensures Any (read_uint16_be mem q)
  word_at q h = read_uint16_be-Ensures mem q (omega arith)

  is_tls_client_hello-Ensures :
      Ensures (λ hello. hello ≡ true → 9 ≤ n) (is_tls_client_hello mem p n)
  unfolding is_tls_client_hello
  is_tls_client_hello-Ensures =
      if-Ensures Long (ltb n 9) _ _ (λ _ e. cc)
        λ long.
          let nine : 9 ≤ n = ground arith in
          bind-Ensures Any Long (read mem p) _ (read-Ensures mem p (omega arith)) λ content_type _.
            if-Ensures Long (not (content_type == 0x16)) _ _ (λ _ e. cc)
              λ _.
                bind-Ensures Any Long (read_uint16_be mem (p + 1)) _ (word_at (p + 1) (omega arith))
                  λ version _.
                    if-Ensures Long (ltb version 0x0300 || ltb 0x0304 version) _ _ (λ _ e. cc)
                      λ _.
                        bind-Ensures Any Long (read_uint16_be mem (p + 3)) _
                          (word_at (p + 3) (omega arith))
                          λ record_length _.
                            if-Ensures Long (ltb (n - 5) record_length) _ _ (λ _ e. cc)
                              λ _.
                                bind-Ensures Any Long (read mem (p + 5)) _ (at 5 (omega arith))
                                  λ handshake _ _. nine
    where
      Long : Bool → Type 0
      Long hello = hello ≡ true → 9 ≤ n

  -- A read within the payload, and what follows it.
  after_read :
      (q : ℕ) (f : ℕ → Option (Option Bytes))
      → q < p + n
      → ((b : ℕ) → Ensures (Found mem p n) (f b))
      → Ensures (Found mem p n) (read mem q >>= f)
  after_read q f h k =
      bind-Ensures Any (Found mem p n) (read mem q) f (read-Ensures mem q (omega arith)) λ b _. k b

  after_word :
      (q : ℕ) (f : ℕ → Option (Option Bytes))
      → q + 1 < p + n
      → ((w : ℕ) → Ensures (Found mem p n) (f w))
      → Ensures (Found mem p n) (read_uint16_be mem q >>= f)
  after_word q f h k =
      bind-Ensures Any (Found mem p n) (read_uint16_be mem q) f (word_at q h) λ w _. k w

  -- A test that gives up, and what follows it.
  unless :
      (b : Bool) (m : Option (Option Bytes))
      → (b ≡ false → Ensures (Found mem p n) m)
      → Ensures (Found mem p n) (if b then some none else m)
  unless b m k = if-Ensures (Found mem p n) b (some none) m (λ _. tt) k

  slice-StandsIn :
      (o k : ℕ) (text : Bytes)
      → o + k ≤ n
      → length text ≡ k
      → text ≡ take k (drop (p + o) mem)
      → StandsIn mem p n text
  slice-StandsIn o k text h e t = (o, omega arith, rw e t)

  read_server_name-Ensures :
      (o k : ℕ) → o + k ≤ n → Ensures (Found mem p n) (read_server_name mem (p + o) k)
  unfolding read_server_name
  read_server_name-Ensures o k h = unless (ltb k 5) _ λ long.
      let five : 5 ≤ k = ground arith in
      after_word (p + o) _ (omega arith) λ list_length. unless (ltb list_length 3) _ λ _.
        after_read (p + o + 2) _ (omega arith) λ sni_type.
          after_word (p + o + 3) _ (omega arith) λ sni_length.
            unless (not (sni_type == 0x00) || ltb (k - 5) sni_length) _ λ fits.
              let room : sni_length ≤ k - 5 = ground arith in
              let place : p + (o + 5) ≡ p + o + 5 = omega arith in
              bind-Ensures
                (λ text.
                  (length text ≡ sni_length) × (text ≡ take sni_length (drop (p + o + 5) mem)))
                (Found mem p n) (slice mem (p + o + 5) sni_length) _
                (slice-Ensures mem (p + o + 5) sni_length (omega arith))
                λ text t. slice-StandsIn (o + 5) sni_length text (omega arith) t.0 (rw place t.1)

  find_server_name-Ensures :
      (fuel offset last : ℕ)
      → last < offset + fuel
      → last ≤ n
      → 0 < fuel
      → Ensures (Found mem p n) (find_server_name fuel mem p offset last)
  unfolding find_server_name
  find_server_name-Ensures zero offset last h k pos = absurd (omega arith)
  find_server_name-Ensures (suc fuel) offset last h k pos =
      unless (not (leb (offset + 4) last)) _ λ more.
        let four : offset + 4 ≤ last = ground arith in
        after_word (p + offset) _ (omega arith) λ extension_type.
          after_word (p + offset + 2) _ (omega arith) λ extension_length.
            unless (ltb last (offset + 4 + extension_length)) _ λ fits.
              let room : offset + 4 + extension_length ≤ last = ground arith in
              if-Ensures (Found mem p n) (extension_type == 0x0000) _ _
                (λ _. read_server_name-Ensures (offset + 4) extension_length (omega arith))
                (λ _.
                  find_server_name-Ensures fuel (offset + 4 + extension_length) last (omega arith) k
                    (omega arith))

  read_extensions-Ensures : (offset : ℕ) → Ensures (Found mem p n) (read_extensions mem p n offset)
  unfolding read_extensions
  read_extensions-Ensures offset = unless (ltb n (offset + 2)) _ λ fits.
      let two : offset + 2 ≤ n = ground arith in
      after_word (p + offset) _ (omega arith) λ extensions_length.
        let stated_end : ℕ = offset + 2 + extensions_length in
        let last : ℕ = if ltb n stated_end then n else stated_end in
        let within : last ≤ n = ground arith in
        find_server_name-Ensures (suc last) (offset + 2) last (omega arith) within (omega arith)

  skip_compression-Ensures :
      (offset : ℕ) → Ensures (Found mem p n) (skip_compression mem p n offset)
  unfolding skip_compression
  skip_compression-Ensures offset = unless (leb n offset) _ λ fits.
      after_read (p + offset) _ (ground arith) λ len. read_extensions-Ensures (offset + (1 + len))

  skip_ciphers-Ensures : (offset : ℕ) → Ensures (Found mem p n) (skip_ciphers mem p n offset)
  unfolding skip_ciphers
  skip_ciphers-Ensures offset = unless (ltb n (offset + 2)) _ λ fits.
      let two : offset + 2 ≤ n = ground arith in
      after_word (p + offset) _ (omega arith) λ len. skip_compression-Ensures (offset + (2 + len))

  skip_session_id-Ensures : Ensures (Found mem p n) (skip_session_id mem p n)
  unfolding skip_session_id
  skip_session_id-Ensures =
      unless (leb n 43) _
        λ fits. after_read (p + 43) _ (ground arith) λ len. skip_ciphers-Ensures (43 + (1 + len))

  extract-Ensures : Ensures (Found mem p n) (extract mem p n)
  unfolding extract
  extract-Ensures =
      bind-Ensures (λ hello. hello ≡ true → 9 ≤ n) (Found mem p n) (is_tls_client_hello mem p n) _
        is_tls_client_hello-Ensures
        λ hello long. unless (not hello) _ λ yes_hello.
          let nine : 9 ≤ n = long (ground arith) in
          bind-Ensures Any (Found mem p n) (read_uint24_be mem (p + 6)) _
            (read_uint24_be-Ensures mem (p + 6) (omega arith)) λ _ _. skip_session_id-Ensures

  -- On every payload that lies in its buffer the extraction reads inside the buffer only and
  -- ends, and a name that it returns is a run of the payload's bytes.
  pub extract_inside : (r : Option Bytes) × (extract mem p n ≡ some r) × Found mem p n r
  extract_inside = Ensures-some (Found mem p n) (extract mem p n) extract-Ensures

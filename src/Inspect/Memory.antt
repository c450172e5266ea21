-- ===== src/Inspect/Memory.antt =====
-- Reads through a `const uint8_t*`. The buffer is the vector that the pointer points into, a pointer
-- an index of it, and a read outside the buffer, which C++ leaves undefined, is `none`.
use multi_threaded_dpi_engin.Base.{
  ℕ, zero, suc, ◌+◌, ◌≤◌, ◌<◌, [], ◌∷◌, Option, none, some, ◌>>=◌, Ensures, bind-Ensures, ◌≡◌,
  arith, leb, if◌then◌else◌, Bytes, length, get_elem?, take, drop, bit_or, length-take, length-drop,
}
use multi_threaded_dpi_engin.Base.Bits.{shl}

-- `payload[i]`
unfoldable pub read : Bytes → ℕ → Option ℕ
read mem i = get_elem? mem i

-- `readUint16BE` and `readUint24BE`
unfoldable pub read_uint16_be : Bytes → ℕ → Option ℕ
read_uint16_be mem i = do a ← read mem i; b ← read mem (i + 1); some (bit_or (shl a 8) b)

unfoldable pub read_uint24_be : Bytes → ℕ → Option ℕ
read_uint24_be mem i = do
  a ← read mem i
  b ← read mem (i + 1)
  c ← read mem (i + 2)
  some (bit_or (bit_or (shl a 16) (shl b 8)) c)

-- `std::string(payload + i, n)`
unfoldable pub slice : Bytes → ℕ → ℕ → Option Bytes
slice mem i n = if leb (i + n) (length mem) then some (take n (drop i mem)) else none

abbrev Any : ℕ → Type 0
Any _ = Unit {0}

get_elem?-Ensures : (xs : Bytes) (i : ℕ) → i < length xs → Ensures Any (get_elem? xs i)
get_elem?-Ensures [] i h = elim h [ ]
get_elem?-Ensures (x ∷ xs) zero h = tt
get_elem?-Ensures (x ∷ xs) (suc i) h = get_elem?-Ensures xs i (omega arith)

pub read-Ensures : (mem : Bytes) (i : ℕ) → i < length mem → Ensures (λ _. Unit {0}) (read mem i)
unfolding read
read-Ensures mem i h = get_elem?-Ensures mem i h

pub read_uint16_be-Ensures :
    (mem : Bytes) (i : ℕ) → i + 1 < length mem → Ensures (λ _. Unit {0}) (read_uint16_be mem i)
unfolding read_uint16_be
read_uint16_be-Ensures mem i h =
    bind-Ensures Any Any (read mem i) _ (read-Ensures mem i (omega arith))
      λ a _. bind-Ensures Any Any (read mem (i + 1)) _ (read-Ensures mem (i + 1) h) λ b _. tt

pub read_uint24_be-Ensures :
    (mem : Bytes) (i : ℕ) → i + 2 < length mem → Ensures (λ _. Unit {0}) (read_uint24_be mem i)
unfolding read_uint24_be
read_uint24_be-Ensures mem i h =
    bind-Ensures Any Any (read mem i) _ (read-Ensures mem i (omega arith)) λ a _.
      bind-Ensures Any Any (read mem (i + 1)) _ (read-Ensures mem (i + 1) (omega arith))
        λ b _. bind-Ensures Any Any (read mem (i + 2)) _ (read-Ensures mem (i + 2) h) λ c _. tt

-- The text stands in the `n` bytes from `p` on.
abbrev pub StandsIn : Bytes → ℕ → ℕ → Bytes → Type 0
StandsIn mem p n text =
    (i : ℕ) × (i + length text ≤ n) × (text ≡ take (length text) (drop (p + i) mem))

-- The same of an optional result.
abbrev pub Found : Bytes → ℕ → ℕ → Option Bytes → Type 0
Found mem p n none = Unit
Found mem p n (some text) = StandsIn mem p n text

pub slice-Ensures :
    (mem : Bytes) (i n : ℕ)
    → i + n ≤ length mem
    → Ensures (λ text. (length text ≡ n) × (text ≡ take n (drop i mem))) (slice mem i n)
unfolding slice
slice-Ensures mem i n h = ground (arith, length-take n (drop i mem), length-drop i mem)

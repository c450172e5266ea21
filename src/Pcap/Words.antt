-- ===== src/Pcap/Words.antt =====
-- Words in memory: stores and loads in either order, and what the byte swaps compute.
use multi_threaded_dpi_engin.Base.{
  ℕ, ◌+◌, ◌*◌, ◌/◌, ◌%◌, ◌^◌, ◌<◌, ◌≡◌, refl, Bool, true, false, if◌then◌else◌, [], ◌∷◌, arith,
  Bytes, bit_or,
}
use multi_threaded_dpi_engin.Base.Bits.{bit_and-shl, bit_and-byte, bit_or-shl_right}
use multi_threaded_dpi_engin.Packet.{swap_bytes16, swap_bytes32}
use multi_threaded_dpi_engin.Pcap.{maybe_swap16, maybe_swap32}

-- The bytes of a word in memory, the lowest first.
abbrev pub store_u16 : ℕ → Bytes
store_u16 n = n % 256 ∷ n / 256 % 256 ∷ []

abbrev pub store_u32 : ℕ → Bytes
store_u32 n = n % 256 ∷ n / 2 ^ 8 % 256 ∷ n / 2 ^ 16 % 256 ∷ n / 2 ^ 24 % 256 ∷ []

pub swap_bytes16_lem : (n : ℕ) → n < 2 ^ 16 → swap_bytes16 n ≡ n / 256 + n % 256 * 256
unfolding swap_bytes16
swap_bytes16_lem n h =
    rw
      (
        bit_and-shl 8 n 0xff,
        bit_and-byte (n / 2 ^ 8),
        bit_and-byte n,
        bit_or-shl_right 8 (n % 256) (n / 2 ^ 8 % 256 * 2 ^ 8 / 2 ^ 8) (omega arith),
      )
      (omega arith)

or_bytes :
    (a b c d : ℕ)
    → a < 256
    → b < 256
    → c < 256
    → bit_or (bit_or (bit_or a (b * 2 ^ 8)) (c * 2 ^ 16)) (d * 2 ^ 24)
      ≡ a + b * 2 ^ 8 + c * 2 ^ 16 + d * 2 ^ 24
or_bytes a b c d p q r =
    rw
      (
        bit_or-shl_right 8 b a (omega arith),
        bit_or-shl_right 16 c (a + b * 2 ^ 8) (omega arith),
        bit_or-shl_right 24 d (a + b * 2 ^ 8 + c * 2 ^ 16) (omega arith),
      )
      refl

pub swap_bytes32_lem :
    (n : ℕ)
    → n < 2 ^ 32
    → swap_bytes32 n
      ≡ n / 2 ^ 24 + n / 2 ^ 16 % 256 * 2 ^ 8 + n / 2 ^ 8 % 256 * 2 ^ 16 + n % 256 * 2 ^ 24
unfolding swap_bytes32
swap_bytes32_lem n h =
    rw
      (
        bit_and-shl 24 n 0xff,
        bit_and-shl 16 n 0xff,
        bit_and-shl 8 n 0xff,
        bit_and-byte (n / 2 ^ 24),
        bit_and-byte (n / 2 ^ 16),
        bit_and-byte (n / 2 ^ 8),
        bit_and-byte n,
        top n,
        middle n,
        low n,
        or_bytes (n / 2 ^ 24 % 256) (n / 2 ^ 16 % 256) (n / 2 ^ 8 % 256) (n % 256) (omega arith)
            (omega arith) (omega arith),
      )
      (omega arith)
  where
    top : (k : ℕ) → k / 2 ^ 24 % 256 * 2 ^ 24 / 2 ^ 24 ≡ k / 2 ^ 24 % 256
    top k = omega arith

    middle : (k : ℕ) → k / 2 ^ 16 % 256 * 2 ^ 16 / 2 ^ 8 ≡ k / 2 ^ 16 % 256 * 2 ^ 8
    middle k = omega arith

    low : (k : ℕ) → k / 2 ^ 8 % 256 * 2 ^ 8 * 2 ^ 8 ≡ k / 2 ^ 8 % 256 * 2 ^ 16
    low k = omega arith

-- What is stored in either order is what a load and a possible swap give.
abbrev pub word16 : Bool → ℕ → Bytes
word16 swapped n = if swapped then n / 256 % 256 ∷ n % 256 ∷ [] else store_u16 n

abbrev pub word32 : Bool → ℕ → Bytes
word32 swapped n =
    if swapped
    then n / 2 ^ 24 % 256 ∷ n / 2 ^ 16 % 256 ∷ n / 2 ^ 8 % 256 ∷ n % 256 ∷ []
    else store_u32 n

-- The words that loads of these bytes see.
abbrev pub seen16 : Bool → ℕ → ℕ
seen16 swapped n =
    if swapped then n / 256 % 256 + n % 256 * 2 ^ 8 else n % 256 + n / 256 % 256 * 2 ^ 8

abbrev pub seen32 : Bool → ℕ → ℕ
seen32 swapped n =
    if swapped
    then n / 2 ^ 24 % 256 + n / 2 ^ 16 % 256 * 2 ^ 8 + n / 2 ^ 8 % 256 * 2 ^ 16 + n % 256 * 2 ^ 24
    else n % 256 + n / 2 ^ 8 % 256 * 2 ^ 8 + n / 2 ^ 16 % 256 * 2 ^ 16 + n / 2 ^ 24 % 256 * 2 ^ 24

pub maybe_swap16-seen16 : (s : Bool) (n : ℕ) → n < 2 ^ 16 → maybe_swap16 s (seen16 s n) ≡ n
unfolding maybe_swap16
maybe_swap16-seen16 true n h =
    omega (arith, swap_bytes16_lem (n / 256 % 256 + n % 256 * 2 ^ 8) (omega arith))
maybe_swap16-seen16 false n h = omega arith

pub maybe_swap32-seen32 : (s : Bool) (n : ℕ) → n < 2 ^ 32 → maybe_swap32 s (seen32 s n) ≡ n
unfolding maybe_swap32
maybe_swap32-seen32 true n h = omega (arith, swap_bytes32_lem (seen32 true n) (omega arith))
maybe_swap32-seen32 false n h = omega arith

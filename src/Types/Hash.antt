-- ===== src/Types/Hash.antt =====
-- `struct FiveTupleHash` of include/types.h. `std::hash` of each width belongs to the C++ library
-- and is a parameter; `size_t` has 64 bits.
use multi_threaded_dpi_engin.Base.{ℕ, ◌+◌, ◌%◌, ◌^◌, bit_xor}
use multi_threaded_dpi_engin.Base.Bits.{shl, shr}
use multi_threaded_dpi_engin.Types.Flow.{FiveTuple}

pub record StdHash : Type 0 where
  pub hash32 : ℕ → ℕ
  pub hash16 : ℕ → ℕ
  pub hash8 : ℕ → ℕ

abbrev pub size_mod : ℕ
size_mod = 2 ^ 64

-- h ^= v + 0x9e3779b9 + (h << 6) + (h >> 2)
unfoldable pub mix : ℕ → ℕ → ℕ
mix h v = bit_xor h ((v + 0x9e3779b9 + shl h 6 % size_mod + shr h 2) % size_mod)

-- `FiveTupleHash::operator()`
unfoldable pub tuple_hash : StdHash → FiveTuple → ℕ
unfolding mix
tuple_hash s t =
    let h1 = mix 0 (s.hash32 t.src_ip) in
    let h2 = mix h1 (s.hash32 t.dst_ip) in
    let h3 = mix h2 (s.hash16 t.src_port) in
    let h4 = mix h3 (s.hash16 t.dst_port) in mix h4 (s.hash8 t.protocol)

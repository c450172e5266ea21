-- ===== src/Inspect/Quic.antt =====
-- `QUICSNIExtractor` of src/sni_extractor.cpp, which no other part of the engine calls.
use multi_threaded_dpi_engin.Base.{
  ℕ, zero, suc, ◌+◌, ◌-◌, Bool, false, not, Option, none, some, ◌>>=◌, leb, ltb, ◌==◌, ◌≡◌, ◌<◌,
  ◌∷◌, arith, Bool-cases, inl, inr, if◌then◌else◌, Bytes, bit_and,
}
use multi_threaded_dpi_engin.Inspect.Memory.{read}
use multi_threaded_dpi_engin.Inspect.Tls

-- `isQUICInitial`
is_quic_initial : Bytes → ℕ → ℕ → Option Bool
is_quic_initial mem p length =
    if ltb length 5
    then some false
    else do first_byte ← read mem p; some (not (bit_and first_byte 0x80 == 0))

-- `SNIExtractor::extract(payload + i - 5, length - i + 5)`. A pointer before the buffer's start is
-- `none`, as the callee reads through it.
extract_at : Bytes → ℕ → ℕ → ℕ → Option (Option Bytes)
extract_at mem p length i =
    if ltb (p + i) 5 then none else Tls.extract mem (p + i - 5) (length - i + 5)

find_hello : ℕ → Bytes → ℕ → ℕ → ℕ → Option (Option Bytes)
unfolding extract_at
find_hello zero mem p length i = none
find_hello (suc fuel) mem p length i = if leb length (i + 50) then some none else do
  c ← read mem (p + i)
  let after = find_hello fuel mem p length (i + 1)
  if not (c == 0x01)
      then after
      else do name ← extract_at mem p length i; elim name [ none ↦ after | some s ↦ some (some s) ]

-- `QUICSNIExtractor::extract`
unfoldable pub extract : Bytes → ℕ → ℕ → Option (Option Bytes)
unfolding is_quic_initial find_hello
extract mem p length = do
  initial ← is_quic_initial mem p length
  if not initial then some none else find_hello (suc length) mem p length 0

-- A long header whose first byte is not 1, as its form bit is set.
long_header : (a : ℕ) → (bit_and a 0x80 == 0) ≡ false → (a == 1) ≡ false
long_header a h = elim (Bool-cases (a == 1)) [
  | inl one ↦ let e : a ≡ 1 = ground arith in absurd (ground (arith, (rw e at h)))
  | inr other ↦ other
]

-- On a QUIC packet of version 1 that stands at the start of its buffer and is longer than 54 bytes,
-- the search reads before the buffer: the last byte of the version is taken for a handshake's type.
pub quic_version1-none :
    (a m : ℕ) (rest : Bytes)
    → (bit_and a 0x80 == 0) ≡ false
    → 50 < m
    → extract (a ∷ 0 ∷ 0 ∷ 0 ∷ 1 ∷ rest) 0 (suc (suc (suc (suc m)))) ≡ none
unfolding extract read extract_at
quic_version1-none a m rest h k = let e = long_header a h in ground (arith, e)

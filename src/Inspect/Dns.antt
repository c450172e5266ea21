-- ===== src/Inspect/Dns.antt =====
-- `DNSExtractor` of src/sni_extractor.cpp. `none` is a read outside the buffer or fuel that ran out,
-- `some none` is `std::nullopt`.
pub mod Safety
use multi_threaded_dpi_engin.Base.{
  ℕ, zero, suc, ◌+◌, Bool, true, false, not, Option, none, some, ◌>>=◌, leb, ltb, ◌==◌, List, [],
  ◌∷◌, ◌++◌, if◌then◌else◌, Bytes, bit_and, bit_or,
}
use multi_threaded_dpi_engin.Base.Bits.{shl}
use multi_threaded_dpi_engin.Inspect.Memory.{read, slice}

-- `isDNSQuery`
unfoldable pub is_dns_query : Bytes → ℕ → ℕ → Option Bool
is_dns_query mem p length = if ltb length 12 then some false else do
  flags ← read mem (p + 2)
  if not (bit_and flags 0x80 == 0) then some false else do
    high ← read mem (p + 4)
    low ← read mem (p + 5)
    some (not (bit_or (shl high 8) low == 0))

-- if (!domain.empty()) domain += '.'; domain += label;
add_label : Bytes → Bytes → Bytes
add_label [] label = label
add_label (c ∷ cs) label = (c ∷ cs) ++ (b'.' ∷ label)

-- The loop over the labels; it returns `domain` as it stands when the loop ends.
read_labels : ℕ → Bytes → ℕ → ℕ → ℕ → Bytes → Option Bytes
unfolding add_label
read_labels zero mem p length offset domain = none
read_labels (suc fuel) mem p length offset domain = if leb length offset then some domain else do
  label_length ← read mem (p + offset)
  if label_length == 0
      then some domain
      else if ltb 63 label_length
      then some domain
      else if ltb length (offset + 1 + label_length)
      then some domain
      else do
        label ← slice mem (p + (offset + 1)) label_length
        read_labels fuel mem p length (offset + 1 + label_length) (add_label domain label)

non_empty : Bytes → Option Bytes
non_empty [] = none
non_empty (c ∷ cs) = some (c ∷ cs)

-- `extractQuery`
unfoldable pub extract_query : Bytes → ℕ → ℕ → Option (Option Bytes)
unfolding is_dns_query read_labels non_empty
extract_query mem p length = do
  query ← is_dns_query mem p length
  if not query
      then some none
      else do domain ← read_labels (suc length) mem p length 12 []; some (non_empty domain)

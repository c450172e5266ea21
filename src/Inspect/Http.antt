-- ===== src/Inspect/Http.antt =====
-- `HTTPHostExtractor` of src/sni_extractor.cpp. `none` is a read outside the buffer or fuel that ran
-- out, `some none` is `std::nullopt`.
pub mod Safety
use multi_threaded_dpi_engin.Base.{
  ℕ, zero, suc, ◌+◌, ◌-◌, Bool, true, false, not, ◌&&◌, ◌||◌, Option, none, some, ◌>>=◌, leb, ltb,
  ◌==◌, List, [], ◌∷◌, if◌then◌else◌, Bytes, codes, bytes_eq,
}
use multi_threaded_dpi_engin.Inspect.Memory.{read, slice}

abbrev methods : List Bytes
methods =
    codes "GET "
    ∷ codes "POST"
    ∷ codes "PUT "
    ∷ codes "HEAD"
    ∷ codes "DELE"
    ∷ codes "PATC"
    ∷ codes "OPTI"
    ∷ []

-- The loop with `memcmp` over the first four bytes.
any_method : List Bytes → Bytes → Bool
any_method [] head = false
any_method (m ∷ ms) head = bytes_eq head m || any_method ms head

-- `isHTTPRequest`
unfoldable pub is_http_request : Bytes → ℕ → ℕ → Option Bool
unfolding any_method
is_http_request mem p length =
    if ltb length 4 then some false else do head ← slice mem p 4; some (any_method methods head)

-- The test for `host:` without regard to case; each byte is read only if those before it fit.
is_host_header : Bytes → ℕ → Option Bool
is_host_header mem q = do
  c0 ← read mem q
  if not (c0 == b'H' || c0 == b'h') then some false else do
    c1 ← read mem (q + 1)
    if not (c1 == b'o' || c1 == b'O') then some false else do
      c2 ← read mem (q + 2)
      if not (c2 == b's' || c2 == b'S') then some false else do
        c3 ← read mem (q + 3)
        if not (c3 == b't' || c3 == b'T')
            then some false
            else do c4 ← read mem (q + 4); some (c4 == b':')

-- while (start < length && (payload[start] == ' ' || payload[start] == '\t')) start++;
skip_blanks : ℕ → Bytes → ℕ → ℕ → ℕ → Option ℕ
skip_blanks zero mem p length start = none
skip_blanks (suc fuel) mem p length start = if leb length start then some start else do
  c ← read mem (p + start)
  let after = skip_blanks fuel mem p length (start + 1)
  if c == b' ' || c == b'\t' then after else some start

-- while (end < length && payload[end] != '\r' && payload[end] != '\n') end++;
find_line_end : ℕ → Bytes → ℕ → ℕ → ℕ → Option ℕ
find_line_end zero mem p length last = none
find_line_end (suc fuel) mem p length last = if leb length last then some last else do
  c ← read mem (p + last)
  let after = find_line_end fuel mem p length (last + 1)
  if not (c == b'\r') && not (c == b'\n') then after else some last

-- `host.substr(0, host.find(':'))`, or the whole where there is no colon.
unfoldable pub before_colon : Bytes → Bytes
before_colon [] = []
before_colon (c ∷ cs) = if c == b':' then [] else c ∷ before_colon cs

-- The value of a header whose name begins at `i`.
read_host : Bytes → ℕ → ℕ → ℕ → Option (Option Bytes)
unfolding skip_blanks find_line_end before_colon
read_host mem p length i = do
  start ← skip_blanks (suc length) mem p length (i + 5)
  last ← find_line_end (suc length) mem p length start
  if leb last start
      then some none
      else do host ← slice mem (p + start) (last - start); some (some (before_colon host))

or_else : Option Bytes → Option (Option Bytes) → Option (Option Bytes)
or_else (some host) after = some (some host)
or_else none after = after

-- The search loop over `i`.
find_host : ℕ → Bytes → ℕ → ℕ → ℕ → Option (Option Bytes)
unfolding is_host_header read_host or_else
find_host zero mem p length i = none
find_host (suc fuel) mem p length i = if leb length (i + 6) then some none else do
  header ← is_host_header mem (p + i)
  let after = find_host fuel mem p length (i + 1)
  if not header then after else do host ← read_host mem p length i; or_else host after

-- `HTTPHostExtractor::extract`
unfoldable pub extract : Bytes → ℕ → ℕ → Option (Option Bytes)
unfolding is_http_request find_host
extract mem p length = do
  request ← is_http_request mem p length
  if not request then some none else find_host (suc length) mem p length 0

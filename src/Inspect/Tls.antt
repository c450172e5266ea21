-- ===== src/Inspect/Tls.antt =====
-- `SNIExtractor` of src/sni_extractor.cpp. `none` is a read outside the buffer or fuel that ran out,
-- `some none` is `std::nullopt`.
pub mod Safety
use multi_threaded_dpi_engin.Base.{
  ℕ, zero, suc, ◌+◌, ◌-◌, ◌≤◌, ◌<◌, Bool, true, false, not, ◌||◌, Option, none, some, ◌>>=◌, leb,
  ltb, ◌==◌, if◌then◌else◌, Bytes,
}
use multi_threaded_dpi_engin.Inspect.Memory.{read, read_uint16_be, read_uint24_be, slice}

-- `isTLSClientHello`
unfoldable pub is_tls_client_hello : Bytes → ℕ → ℕ → Option Bool
is_tls_client_hello mem p length = if ltb length 9 then some false else do
  content_type ← read mem p
  if not (content_type == 0x16) then some false else do
    version ← read_uint16_be mem (p + 1)
    if ltb version 0x0300 || ltb 0x0304 version then some false else do
      record_length ← read_uint16_be mem (p + 3)
      if ltb (length - 5) record_length
          then some false
          else do handshake ← read mem (p + 5); some (handshake == 0x01)

-- The body of the SNI extension, `n` bytes at `q`.
read_server_name : Bytes → ℕ → ℕ → Option (Option Bytes)
read_server_name mem q n = if ltb n 5 then some none else do
  list_length ← read_uint16_be mem q
  if ltb list_length 3 then some none else do
    sni_type ← read mem (q + 2)
    sni_length ← read_uint16_be mem (q + 3)
    if not (sni_type == 0x00) || ltb (n - 5) sni_length
        then some none
        else do name ← slice mem (q + 5) sni_length; some (some name)

-- The loop over the extensions; `offset` and `extensions_end` count from the payload's start `p`.
find_server_name : ℕ → Bytes → ℕ → ℕ → ℕ → Option (Option Bytes)
find_server_name zero mem p offset extensions_end = none
find_server_name (suc fuel) mem p offset extensions_end =
    if not (leb (offset + 4) extensions_end) then some none else do
      extension_type ← read_uint16_be mem (p + offset)
      extension_length ← read_uint16_be mem (p + offset + 2)
      let after = find_server_name fuel mem p (offset + 4 + extension_length) extensions_end
      if ltb extensions_end (offset + 4 + extension_length)
          then some none
          else if extension_type == 0x0000
          then read_server_name mem (p + (offset + 4)) extension_length
          else after

-- `extract` from `Extensions` on.
read_extensions : Bytes → ℕ → ℕ → ℕ → Option (Option Bytes)
unfolding find_server_name read_server_name
read_extensions mem p length offset = if ltb length (offset + 2) then some none else do
  extensions_length ← read_uint16_be mem (p + offset)
  let start = offset + 2
  let stated_end = start + extensions_length
  let extensions_end = if ltb length stated_end then length else stated_end
  find_server_name (suc extensions_end) mem p start extensions_end

-- `extract` from `Compression methods` on.
skip_compression : Bytes → ℕ → ℕ → ℕ → Option (Option Bytes)
unfolding read_extensions
skip_compression mem p length offset = if leb length offset then some none else do
  compression_methods_length ← read mem (p + offset)
  read_extensions mem p length (offset + (1 + compression_methods_length))

-- `extract` from `Cipher suites` on.
skip_ciphers : Bytes → ℕ → ℕ → ℕ → Option (Option Bytes)
unfolding skip_compression
skip_ciphers mem p length offset = if ltb length (offset + 2) then some none else do
  cipher_suites_length ← read_uint16_be mem (p + offset)
  skip_compression mem p length (offset + (2 + cipher_suites_length))

-- `extract` from `Session ID` on: 5 bytes of record header, 4 of handshake header, 2 of version and
-- 32 of random stand before it.
skip_session_id : Bytes → ℕ → ℕ → Option (Option Bytes)
unfolding skip_ciphers
skip_session_id mem p length = if leb length 43 then some none else do
  session_id_length ← read mem (p + 43)
  skip_ciphers mem p length (43 + (1 + session_id_length))

-- `SNIExtractor::extract` on `length` bytes at `p`. The handshake's length is read and not used.
unfoldable pub extract : Bytes → ℕ → ℕ → Option (Option Bytes)
unfolding is_tls_client_hello skip_session_id
extract mem p length = do
  hello ← is_tls_client_hello mem p length
  if not hello
      then some none
      else do handshake_length ← read_uint24_be mem (p + 6); skip_session_id mem p length

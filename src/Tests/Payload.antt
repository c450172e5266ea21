-- ===== src/Tests/Payload.antt =====
-- The extractors on concrete payloads.
use multi_threaded_dpi_engin.Base.{
  replicate, ◌∷◌, ◌≡◌, refl, Option, none, some, Bytes, codes, bytes_eq, arith,
}
use multi_threaded_dpi_engin.Inspect.Memory.{Found, read, read_uint16_be, read_uint24_be, slice}
use multi_threaded_dpi_engin.Inspect.Tls
use multi_threaded_dpi_engin.Inspect.Http
use multi_threaded_dpi_engin.Inspect.Quic
use multi_threaded_dpi_engin.Inspect.Quic.{quic_version1-none}
use multi_threaded_dpi_engin.Inspect.Dns.{extract_query}
use multi_threaded_dpi_engin.Inspect.Tls.Safety.{extract_inside}
use multi_threaded_dpi_engin.Inspect.Http.Safety.{Host, extract_http_inside}
use multi_threaded_dpi_engin.Inspect.Dns.Safety.{Domain, extract_query_inside}
use multi_threaded_dpi_engin.Tests.{client_hello, http_request, dns_query}

test_client_hello : Tls.extract client_hello 0 65 ≡ some (some (codes "a.io"))
unfolding Tls.extract read read_uint16_be read_uint24_be slice
test_client_hello = refl

-- One byte less, and the record does not fit.
test_client_hello_cut : Tls.extract client_hello 0 64 ≡ some none
unfolding Tls.extract read read_uint16_be
test_client_hello_cut = refl

test_http_request : Http.extract http_request 0 35 ≡ some (some (codes "a.io"))
unfolding Http.extract slice bytes_eq read
test_http_request = refl

test_dns_query : extract_query dns_query 0 18 ≡ some (some (codes "a.io"))
unfolding extract_query read slice
test_dns_query = refl

extract_inside_example :
    (r : Option Bytes) × (Tls.extract client_hello 0 65 ≡ some r) × Found client_hello 0 65 r
extract_inside_example = extract_inside client_hello 0 65 (omega arith)

extract_http_inside_example :
    (r : Option Bytes) × (Http.extract http_request 0 35 ≡ some r) × Host http_request 0 35 r
extract_http_inside_example = extract_http_inside http_request 0 35 (omega arith)

extract_query_inside_example :
    (r : Option Bytes) × (extract_query dns_query 0 18 ≡ some r) × Domain 18 r
extract_query_inside_example = extract_query_inside dns_query 0 18 (omega arith)

quic_version1-none_example : Quic.extract (0xc3 ∷ 0 ∷ 0 ∷ 0 ∷ 1 ∷ replicate 55 0) 0 60 ≡ none
quic_version1-none_example = quic_version1-none 0xc3 56 (replicate 55 0) refl (omega arith)

-- ===== src/Tests.antt =====
-- Runs of the model on concrete input, and instances of the theorems on it. This file holds the
-- input that the children share.
pub mod Reports
pub mod Commands
pub mod Names
pub mod Payload
pub mod Flows
pub mod Table
pub mod Capture
pub mod Files
pub mod Single
pub mod Whole
pub mod Threads
use multi_threaded_dpi_engin.Base.{ℕ, [], ◌∷◌, ◌++◌, Bytes, codes, replicate}
use multi_threaded_dpi_engin.Types.{PacketJob}
use multi_threaded_dpi_engin.Types.Flow.{FiveTuple}
use multi_threaded_dpi_engin.Tracker.{Clock}

-- A ClientHello for `a.io`: record and handshake header, version, random, one cipher suite, one
-- compression method and the SNI extension.
abbrev pub client_hello : Bytes
client_hello =
    (0x16 ∷ 3 ∷ 1 ∷ 0 ∷ 60 ∷ 1 ∷ 0 ∷ 0 ∷ 56 ∷ 3 ∷ 3 ∷ [])
    ++ replicate 32 7
    ++ (0 ∷ 0 ∷ 2 ∷ 0x13 ∷ 1 ∷ 1 ∷ 0 ∷ 0 ∷ 13 ∷ [])
    ++ (0 ∷ 0 ∷ 0 ∷ 9 ∷ 0 ∷ 7 ∷ 0 ∷ 0 ∷ 4 ∷ [])
    ++ codes "a.io"

abbrev pub http_request : Bytes
http_request = codes "GET / HTTP/1.1\r\nHost: a.io:8080\r\n\r\n"

-- A query for `a.io`.
abbrev pub dns_query : Bytes
dns_query = 0 ∷ 1 ∷ 1 ∷ 0 ∷ 0 ∷ 1 ∷ 0 ∷ 0 ∷ 0 ∷ 0 ∷ 0 ∷ 0 ∷ 1 ∷ b'a' ∷ 2 ∷ b'i' ∷ b'o' ∷ 0 ∷ []

abbrev pub flow : FiveTuple
flow = record {
  src_ip = 0x0201a8c0;
  dst_ip = 0x01020304;
  src_port = 50000;
  dst_port = 443;
  protocol = 6;
}

abbrev pub other_flow : FiveTuple
other_flow = record flow { src_port = 50001 }

-- A packet of the flow with 54 bytes of headers, the given flags and payload.
abbrev pub packet_with : Bytes → ℕ → ℕ → PacketJob
packet_with payload size flags = record {
  packet_id = 1;
  tuple = flow;
  packet = replicate 54 0 ++ payload;
  eth_offset = 0;
  ip_offset = 14;
  transport_offset = 34;
  payload_offset = 54;
  payload_length = size;
  tcp_flags = flags;
  ts_sec = 0;
  ts_usec = 0;
}

abbrev pub hello_packet : PacketJob
hello_packet = packet_with client_hello 65 0x18

abbrev pub reset_packet : PacketJob
reset_packet = packet_with [] 0 0x04

abbrev pub now : Clock
now = record { steady = 1_000_000_000; epoch = 1 }

-- ===== src/Command/Analyzer.antt =====
-- `main` of src/main.cpp. `none` is a read outside the packet. How the local time is printed belongs
-- to the C++ library and is the parameter `put_time`.
use multi_threaded_dpi_engin.Base.{
  ℕ, zero, suc, ◌+◌, ◌-◌, ◌/◌, ◌%◌, ◌==◌, ltb, leb, ◌&&◌, not, if◌then◌else◌, List, [], ◌∷◌, ◌++◌,
  Option, none, some, ◌>>=◌, Bytes, codes, decimal, length, replicate,
}
use multi_threaded_dpi_engin.Inspect.Memory.{read}
use multi_threaded_dpi_engin.Packet.{RawPacket, ParsedPacket, parse, hex_digit}
use multi_threaded_dpi_engin.Pcap.{PcapReader, open_file, read_packets}
use multi_threaded_dpi_engin.Packet.Names.{protocol_to_string, tcp_flags_to_string}

-- A number in two hexadecimal digits, or in four.
abbrev hex2 : ℕ → Bytes
hex2 n = hex_digit (n / 16) ∷ hex_digit (n % 16) ∷ []

abbrev hex4 : ℕ → Bytes
hex4 n = hex2 (n / 256) ++ hex2 (n % 256)

-- `std::setfill('0') << std::setw(6)`
abbrev pad6 : Bytes → Bytes
pad6 text = replicate (6 - length text) b'0' ++ text

ether_name : ℕ → Bytes
ether_name ether_type =
    if ether_type == 0x0800
    then codes " (IPv4)"
    else if ether_type == 0x86dd
    then codes " (IPv6)"
    else if ether_type == 0x0806
    then codes " (ARP)"
    else []

ip_lines : ParsedPacket → Bytes
ip_lines pkt =
    if pkt.has_ip
    then codes "\n[IPv"
      ++ decimal pkt.ip_version
      ++ codes "]\n"
      ++ codes "  Source IP:      "
      ++ pkt.src_ip
      ++ codes "\n"
      ++ codes "  Destination IP: "
      ++ pkt.dest_ip
      ++ codes "\n"
      ++ codes "  Protocol:       "
      ++ protocol_to_string pkt.protocol
      ++ codes "\n"
      ++ codes "  TTL:            "
      ++ decimal pkt.ttl
      ++ codes "\n"
    else []

tcp_lines : ParsedPacket → Bytes
tcp_lines pkt =
    if pkt.has_tcp
    then codes "\n[TCP]\n"
      ++ codes "  Source Port:      "
      ++ decimal pkt.src_port
      ++ codes "\n"
      ++ codes "  Destination Port: "
      ++ decimal pkt.dest_port
      ++ codes "\n"
      ++ codes "  Sequence Number:  "
      ++ decimal pkt.seq_number
      ++ codes "\n"
      ++ codes "  Ack Number:       "
      ++ decimal pkt.ack_number
      ++ codes "\n"
      ++ codes "  Flags:            "
      ++ tcp_flags_to_string pkt.tcp_flags
      ++ codes "\n"
    else []

udp_lines : ParsedPacket → Bytes
udp_lines pkt =
    if pkt.has_udp
    then codes "\n[UDP]\n"
      ++ codes "  Source Port:      "
      ++ decimal pkt.src_port
      ++ codes "\n"
      ++ codes "  Destination Port: "
      ++ decimal pkt.dest_port
      ++ codes "\n"
    else []

-- The loop over the first bytes of the payload.
unfoldable pub preview : ℕ → Bytes → ℕ → Option Bytes
preview zero mem i = some []
preview (suc n) mem i = do
  b ← read mem i
  rest ← preview n mem (i + 1)
  some (hex2 b ++ codes " " ++ rest)

-- `std::min(pkt.payload_length, 32)`
abbrev pub preview_len : ℕ → ℕ
preview_len n = if ltb 32 n then 32 else n

unfoldable pub preview_lines : Bytes → ParsedPacket → Option ℕ → Option Bytes
unfolding preview
preview_lines mem pkt none = none
preview_lines mem pkt (some payload_data) = do
  bytes ← preview (preview_len pkt.payload_length) mem payload_data
  some (
      codes "\n[Payload]\n"
      ++ codes "  Length: "
      ++ decimal pkt.payload_length
      ++ codes " bytes\n"
      ++ codes "  Preview: "
      ++ bytes
      ++ (if ltb 32 pkt.payload_length then codes "..." else [])
      ++ codes "\n")

unfoldable pub payload_lines : Bytes → ParsedPacket → Option Bytes
unfolding preview_lines
payload_lines mem pkt =
    if ltb 0 pkt.payload_length then preview_lines mem pkt pkt.payload_data else some []

-- The counters, and what was printed in the loop.
pub record Analysis : Type 0 where
  pub packet_count : ℕ
  pub parse_errors : ℕ
  pub printed : Bytes

abbrev pub new_analysis : Analysis
new_analysis = record { packet_count = 0; parse_errors = 0; printed = [] }

-- What is printed when the limit is reached.
abbrev pub stopped : ℕ → Analysis → Analysis
stopped max_packets s = record s {
  printed = s.printed ++ codes "\n(Stopped after " ++ decimal max_packets ++ codes " packets)\n";
}

module _ (put_time : ℕ → Bytes) where
  -- The summary but for the payload.
  unfoldable pub header_lines : ParsedPacket → ℕ → Bytes
  unfolding ether_name ip_lines tcp_lines udp_lines
  header_lines pkt packet_num =
      codes "\n========== Packet #"
      ++ decimal packet_num
      ++ codes " ==========\n"
      ++ codes "Time: "
      ++ put_time pkt.timestamp_sec
      ++ codes "."
      ++ pad6 (decimal pkt.timestamp_usec)
      ++ codes "\n"
      ++ codes "\n[Ethernet]\n"
      ++ codes "  Source MAC:      "
      ++ pkt.src_mac
      ++ codes "\n"
      ++ codes "  Destination MAC: "
      ++ pkt.dest_mac
      ++ codes "\n"
      ++ codes "  EtherType:       0x"
      ++ hex4 pkt.ether_type
      ++ ether_name pkt.ether_type
      ++ codes "\n"
      ++ ip_lines pkt
      ++ tcp_lines pkt
      ++ udp_lines pkt

  -- `printPacketSummary`
  unfoldable pub print_packet_summary : Bytes → ParsedPacket → ℕ → Option Bytes
  unfolding header_lines payload_lines
  print_packet_summary mem pkt packet_num = do
    payload ← payload_lines mem pkt
    some (header_lines pkt packet_num ++ payload)

  unfoldable pub report_parsed : RawPacket → Option ParsedPacket → Analysis → Option Analysis
  unfolding print_packet_summary
  report_parsed raw none s = some (record s { parse_errors = s.parse_errors + 1 })
  report_parsed raw (some pkt) s = do
    text ← print_packet_summary raw.packet pkt s.packet_count
    some (record s { printed = s.printed ++ text })

  -- One round of the loop up to the test of the limit.
  unfoldable pub analyze_packet : RawPacket → Analysis → Option Analysis
  unfolding report_parsed
  analyze_packet raw s = do
    r ← parse raw
    report_parsed raw r (record s { packet_count = s.packet_count + 1 })

  -- The loop over the packets that the reader returns. A limit that is not positive is 0 here; the
  -- program makes no difference between them.
  unfoldable pub analyze : ℕ → List RawPacket → Analysis → Option Analysis
  unfolding analyze_packet
  analyze max_packets [] s = some s
  analyze max_packets (raw ∷ raws) s = do
    t ← analyze_packet raw s
    let further = analyze max_packets raws t
    if ltb 0 max_packets && leb max_packets t.packet_count
        then some (stopped max_packets t)
        else further

  -- `main` on its arguments: its status, and the state behind the loop. `stoi` is `std::stoi`, with
  -- 0 for a number that is not positive, and `none` where it throws.
  limit_of : (Bytes → Option ℕ) → List Bytes → Option ℕ
  limit_of stoi [] = some 0
  limit_of stoi (text ∷ rest) = stoi text

  unfoldable pub run_analyzer :
      (Bytes → Option ℕ)
      → ℕ
      → List Bytes
      → (Bytes → Option Bytes)
      → PcapReader
      → Option (ℕ × Option Analysis)
  unfolding analyze limit_of
  run_analyzer stoi fuel [] files closed = some (1, none)
  run_analyzer stoi fuel (filename ∷ options) files closed = do
    max_packets ← limit_of stoi options
    let (opened, reader) = open_file (files filename) closed
    if not opened then some (1, none) else do
      raws ← read_packets fuel reader
      s ← analyze max_packets raws new_analysis
      some (0, some s)

-- ===== src/Command/Simple.antt =====
-- `main` of src/main_simple.cpp. `none` is a read outside the packet.
use multi_threaded_dpi_engin.Base.{
  ℕ, ◌+◌, ◌-◌, ◌*◌, ◌==◌, ltb, not, ◌&&◌, if◌then◌else◌, List, [], ◌∷◌, ◌++◌, Option, none, some,
  ◌>>=◌, Bytes, codes, decimal, length, bit_and,
}
use multi_threaded_dpi_engin.Base.Bits.{shr}
use multi_threaded_dpi_engin.Inspect.Memory.{read}
use multi_threaded_dpi_engin.Inspect.Tls as Tls
use multi_threaded_dpi_engin.Packet.{RawPacket, ParsedPacket, parse}
use multi_threaded_dpi_engin.Pcap.{PcapReader, open_file, read_packets}

-- The counters, and what was printed in the loop.
pub record Scan : Type 0 where
  pub count : ℕ
  pub tls_count : ℕ
  pub printed : Bytes

abbrev pub new_scan : Scan
new_scan = record { count = 0; tls_count = 0; printed = [] }

-- The offset of the payload, from the two lengths in the headers.
unfoldable pub tcp_payload : Bytes → Option ℕ
tcp_payload mem = do
  ip_ihl ← read mem 14
  let transport = 14 + bit_and ip_ihl 0x0f * 4
  tcp_offset ← read mem (transport + 12)
  some (transport + bit_and (shr tcp_offset 4) 0x0f * 4)

-- The SNI of an HTTPS packet.
unfoldable pub extract_sni : RawPacket → ParsedPacket → Option (Option Bytes)
unfolding tcp_payload
extract_sni raw parsed =
    if parsed.has_tcp && parsed.dest_port == 443 && ltb 0 parsed.payload_length
    then (tcp_payload raw.packet >>= λ payload_offset.
        if ltb payload_offset (length raw.packet)
        then Tls.extract raw.packet payload_offset (length raw.packet - payload_offset)
        else some none)
    else some none

-- The line of a packet up to the SNI.
abbrev pub packet_line : ℕ → ParsedPacket → Bytes
packet_line count parsed =
    codes "Packet "
    ++ decimal count
    ++ codes ": "
    ++ parsed.src_ip
    ++ codes ":"
    ++ decimal parsed.src_port
    ++ codes " -> "
    ++ parsed.dest_ip
    ++ codes ":"
    ++ decimal parsed.dest_port

abbrev pub print_sni : Bytes → Option Bytes → Scan → Scan
print_sni line none s = record s { printed = s.printed ++ line ++ codes "\n" }
print_sni line (some sni) s = record s {
  tls_count = s.tls_count + 1;
  printed = s.printed ++ line ++ codes " [SNI: " ++ sni ++ codes "]" ++ codes "\n";
}

unfoldable pub scan_parsed : RawPacket → Option ParsedPacket → Scan → Option Scan
unfolding extract_sni
scan_parsed raw none s = some s
scan_parsed raw (some parsed) s =
    if not parsed.has_ip
    then some s
    else (extract_sni raw parsed >>= λ sni. some (print_sni (packet_line s.count parsed) sni s))

-- One round of the loop.
unfoldable pub scan_packet : RawPacket → Scan → Option Scan
unfolding scan_parsed
scan_packet raw s = do r ← parse raw; scan_parsed raw r (record s { count = s.count + 1 })

-- The loop over the packets that the reader returns.
unfoldable pub scan : List RawPacket → Scan → Option Scan
unfolding scan_packet
scan [] s = some s
scan (raw ∷ raws) s = do next ← scan_packet raw s; scan raws next

-- `main` with a file name: its status, and the state behind the loop.
unfoldable pub run_simple : ℕ → Option Bytes → PcapReader → Option (ℕ × Option Scan)
unfolding scan
run_simple fuel input closed =
    let (opened, reader) = open_file input closed in
    if not opened
    then some (1, none)
    else do raws ← read_packets fuel reader; s ← scan raws new_scan; some (0, some s)

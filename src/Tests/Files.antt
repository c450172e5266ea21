-- ===== src/Tests/Files.antt =====
-- Capture files in both byte orders.
use multi_threaded_dpi_engin.Base.{
  ◌*◌, ◌≤◌, ◌≡◌, refl, true, false, List, [], ◌∷◌, ◌++◌, map, none, some, arith, Bytes, replicate,
  length,
}
use multi_threaded_dpi_engin.Packet.{RawPacket, load_u32}
use multi_threaded_dpi_engin.Inspect.Memory.{read}
use multi_threaded_dpi_engin.Pcap.{
  GlobalHeader, Stream, PcapReader, open_file, read_packets, read_bytes, packet_header_of,
}
use multi_threaded_dpi_engin.Pcap.Images.{header_image, packets_image, reading}
use multi_threaded_dpi_engin.Pcap.RoundTrip.{kept_header, read_packets-image}
use multi_threaded_dpi_engin.Pcap.Progress.{AllRead, read_packets-AllRead}
use multi_threaded_dpi_engin.Engine.Output.{written, job_packet, read_packets-written}
use multi_threaded_dpi_engin.Engine.Swapped.{read_packets-written_swapped}
use multi_threaded_dpi_engin.Tests.{hello_packet, reset_packet}
use multi_threaded_dpi_engin.Tests.Capture.{segment}

abbrev pub header : GlobalHeader
header = record {
  magic_number = 0xa1b2c3d4;
  version_major = 2;
  version_minor = 4;
  thiszone = 0;
  sigfigs = 0;
  snaplen = 65535;
  network = 1;
}

abbrev pub closed : PcapReader
closed = record { file = none; global_header = header; needs_byte_swap = false }

abbrev pub short_packet : RawPacket
short_packet = record segment {
  ts_sec = 1700000000;
  incl_len = 3;
  orig_len = 60;
  packet = 7 ∷ 8 ∷ 9 ∷ [];
}

abbrev pub packets : List RawPacket
packets = segment ∷ short_packet ∷ []

-- A file of the other byte order, cut off within its last packet: the first packet is read.
abbrev cut_file : Stream
cut_file = record { rest = packets_image true (segment ∷ []) ++ replicate 9 0; good = true }

test_cut_file :
    read_packets 3 (record { file = some cut_file; global_header = header; needs_byte_swap = true })
    ≡ some (segment ∷ [])
unfolding read_packets read_bytes packet_header_of load_u32 read
test_cut_file = refl

read_packets-image_example :
    (open_file (some (header_image true header ++ packets_image true packets)) closed
      ≡ (true, reading true (kept_header true header) (packets_image true packets)))
    × (read_packets 3 (reading true (kept_header true header) (packets_image true packets))
        ≡ some packets)
read_packets-image_example =
    read_packets-image true header packets closed 3
      (omega arith, omega arith, omega arith, omega arith, omega arith, omega arith)
      (
        (omega arith, omega arith, omega arith, refl, omega arith, omega arith),
        ((omega arith, omega arith, omega arith, refl, omega arith, omega arith), tt),
      )
      (omega arith)

read_packets-AllRead_example :
    (raws : List RawPacket) × (read_packets 100 (reading false header (replicate 99 0)) ≡ some raws)
    × AllRead header raws
    × (16 * length raws ≤ 99)
read_packets-AllRead_example =
    read_packets-AllRead (reading false header (replicate 99 0)) 100 (omega arith)

read_packets-written_example :
    (file : Bytes) × (after : PcapReader) × (written
        (kept_header false header)
        (hello_packet ∷ reset_packet ∷ [])
      ≡ some file)
    × (open_file (some file) closed ≡ (true, after))
    × (read_packets 3 after ≡ some (map job_packet (hello_packet ∷ reset_packet ∷ [])))
read_packets-written_example =
    read_packets-written header (hello_packet ∷ reset_packet ∷ []) closed 3
      (omega arith, omega arith, omega arith, omega arith, omega arith, omega arith)
      (
        (omega arith, omega arith, omega arith, omega arith),
        ((omega arith, omega arith, omega arith, omega arith), tt),
      )
      (omega arith)

read_packets-written_swapped_example :
    (file : Bytes) × (after : PcapReader) × (written
        (kept_header true header)
        (hello_packet ∷ reset_packet ∷ [])
      ≡ some file)
    × (open_file (some file) closed ≡ (true, after))
    × (read_packets 4 after ≡ some [])
read_packets-written_swapped_example =
    read_packets-written_swapped header hello_packet (reset_packet ∷ []) closed 3
      (omega arith, omega arith, omega arith, omega arith, omega arith, omega arith)
      (
        (omega arith, omega arith, omega arith, omega arith),
        ((omega arith, omega arith, omega arith, omega arith), tt),
      )
      (omega arith)

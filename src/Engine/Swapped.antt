-- ===== src/Engine/Swapped.antt =====
-- The output for an input of the other byte order: the header keeps the magic number as it was read,
-- while all other words are in the host's order.
use multi_threaded_dpi_engin.Base.{
  ℕ, suc, ◌/◌, ◌%◌, ◌^◌, ◌<◌, ◌≡◌, refl, sym, ap, ◌∙◌, true, false, List, [], ◌∷◌, ◌++◌, some, map,
  arith, Bytes, length,
}
use multi_threaded_dpi_engin.Types.{PacketJob}
use multi_threaded_dpi_engin.Packet.{RawPacket}
use multi_threaded_dpi_engin.Pcap.{GlobalHeader, PcapReader, open_file, read_packets, magic_native}
use multi_threaded_dpi_engin.Pcap.Words.{word16, word32, seen16, seen32}
use multi_threaded_dpi_engin.Pcap.Images.{header_image, packet_image, packets_image, reading}
use multi_threaded_dpi_engin.Pcap.RoundTrip.{
  IsHeader, kept_header, open_file-image, read_packets-long,
}
use multi_threaded_dpi_engin.Engine.Output.{
  written, write_jobs, job_packet, AllWritable, write_jobs-packets_image, write_output_header,
}

-- The other order's bytes of the reversed word are this order's of the word.
word16-seen16 : (n : ℕ) → word16 true (seen16 true n) ≡ word16 false n
word16-seen16 n =
    let high : seen16 true n / 256 % 256 ≡ n % 256 = omega arith in
    let low : seen16 true n % 256 ≡ n / 256 % 256 = omega arith in rw (high, low)

word32-seen32 : (n : ℕ) → word32 true (seen32 true n) ≡ word32 false n
word32-seen32 n =
    let first : seen32 true n / 2 ^ 24 % 256 ≡ n % 256 = omega arith in
    let second : seen32 true n / 2 ^ 16 % 256 ≡ n / 2 ^ 8 % 256 = omega arith in
    let third : seen32 true n / 2 ^ 8 % 256 ≡ n / 2 ^ 16 % 256 = omega arith in
    let fourth : seen32 true n % 256 ≡ n / 2 ^ 24 % 256 = omega arith in
    rw (first, second, third, fourth)

-- The header and a packet with all their words reversed.
abbrev reversed : GlobalHeader → GlobalHeader
reversed h = record {
  magic_number = h.magic_number;
  version_major = seen16 true h.version_major;
  version_minor = seen16 true h.version_minor;
  thiszone = h.thiszone;
  sigfigs = h.sigfigs;
  snaplen = seen32 true h.snaplen;
  network = seen32 true h.network;
}

abbrev reversed_packet : RawPacket → RawPacket
reversed_packet raw = record {
  ts_sec = seen32 true raw.ts_sec;
  ts_usec = seen32 true raw.ts_usec;
  incl_len = seen32 true raw.incl_len;
  orig_len = seen32 true raw.orig_len;
  packet = raw.packet;
}

append_cong : {a b c d : Bytes} → a ≡ b → c ≡ d → a ++ c ≡ b ++ d
append_cong e f = cc

header_image-reversed :
    (h : GlobalHeader)
    → IsHeader h
    → (write_output_header (kept_header true h) (some [])).1 ≡ some (header_image true (reversed h))
unfolding write_output_header
header_image-reversed h (a, b, c, d, e, f) =
    let zone : word32 false (seen32 true h.thiszone) ≡ word32 true h.thiszone =
      other_order h.thiszone c in
    let sig : word32 false (seen32 true h.sigfigs) ≡ word32 true h.sigfigs =
      other_order h.sigfigs d in
    ap some (
      append_cong
        (append_cong
          (append_cong
            (append_cong
              (append_cong
                (append_cong {a = word32 true magic_native} refl
                  (sym (word16-seen16 h.version_major)))
                (sym (word16-seen16 h.version_minor)))
              zone)
            sig)
          (sym (word32-seen32 h.snaplen)))
        (sym (word32-seen32 h.network)))
  where
    other_order : (n : ℕ) → n < 2 ^ 32 → word32 false (seen32 true n) ≡ word32 true n
    other_order n k =
        let one : seen32 true n % 256 ≡ n / 2 ^ 24 % 256 = omega arith in
        let two : seen32 true n / 2 ^ 8 % 256 ≡ n / 2 ^ 16 % 256 = omega arith in
        let three : seen32 true n / 2 ^ 16 % 256 ≡ n / 2 ^ 8 % 256 = omega arith in
        let four : seen32 true n / 2 ^ 24 % 256 ≡ n % 256 = omega arith in
        rw (one, two, three, four)

packet_image-reversed :
    (raw : RawPacket) → packet_image true (reversed_packet raw) ≡ packet_image false raw
packet_image-reversed raw =
    append_cong
      (append_cong (append_cong (word32-seen32 raw.ts_sec) (word32-seen32 raw.ts_usec))
        (word32-seen32 raw.incl_len))
      (word32-seen32 raw.orig_len)

-- For an input of the other byte order the engine writes a file that reads as empty: whatever
-- jobs it forwards, where their data fit the header's limit and 65535 bytes and the first holds
-- any, the reader opens the file, takes its words for swapped ones, and finds no packet.
pub read_packets-written_swapped :
    (h : GlobalHeader) (job : PacketJob) (jobs : List PacketJob) (r : PcapReader) (fuel : ℕ)
    → IsHeader h
    → AllWritable h.snaplen (job ∷ jobs)
    → 0 < length job.packet
    → (file : Bytes) × (after : PcapReader) × (written (kept_header true h) (job ∷ jobs)
        ≡ some file)
      × (open_file (some file) r ≡ (true, after))
      × (read_packets (suc fuel) after ≡ some [])
read_packets-written_swapped h job jobs r fuel words all some_data =
    let (a, b, c, d, e, f) = words in
    let ((sec, usec, within, short), others) = all in
    let raw = reversed_packet (job_packet job) in
    let tail = job.packet ++ packets_image false (map job_packet jobs) in
    (
      header_image true (reversed h) ++ (packet_image true raw ++ tail),
      reading true (kept_header true (reversed h)) (packet_image true raw ++ tail),
      ap (write_jobs (job ∷ jobs)) (header_image-reversed h words)
          ∙ write_jobs-packets_image h.snaplen (job ∷ jobs) (header_image true (reversed h)) all
          ∙ ap (λ (w : Bytes). some (header_image true (reversed h) ++ (w ++ tail)))
              (sym (packet_image-reversed (job_packet job))),
      open_file-image true (reversed h) (packet_image true raw ++ tail) r
          (omega arith, omega arith, c, d, omega arith, omega arith),
      read_packets-long true (kept_header true (reversed h)) raw tail fuel (omega arith)
          (omega arith) (omega arith) (omega arith) (omega arith),
    )

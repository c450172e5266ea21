-- ===== src/Engine/Output.antt =====
-- The output thread of src/dpi_engine.cpp, and what a reader makes of the file that it writes. The
-- file is the bytes written so far; a file that is not open is `none`. No write fails.
use multi_threaded_dpi_engin.Base.{
  ℕ, ◌%◌, ◌^◌, ◌≤◌, ◌<◌, ◌≡◌, refl, sym, ap, ◌∙◌, Bool, true, false, List, [], ◌∷◌, ◌++◌, Option,
  none, some, map, arith, append_assoc, append-nil, Bytes, length, length-map,
}
use multi_threaded_dpi_engin.Types.{PacketJob}
use multi_threaded_dpi_engin.Packet.{RawPacket}
use multi_threaded_dpi_engin.Pcap.{GlobalHeader, PcapReader, open_file, read_packets}
use multi_threaded_dpi_engin.Pcap.Words.{store_u16, store_u32, seen32}
use multi_threaded_dpi_engin.Pcap.Images.{
  header_image, packet_image, packets_image, AllCaptured, reading,
}
use multi_threaded_dpi_engin.Pcap.RoundTrip.{IsHeader, kept_header, read_packets-image}

-- The 24 bytes of the header in memory.
abbrev pub header_bytes : GlobalHeader → Bytes
header_bytes h =
    store_u32 h.magic_number
    ++ store_u16 h.version_major
    ++ store_u16 h.version_minor
    ++ store_u32 h.thiszone
    ++ store_u32 h.sigfigs
    ++ store_u32 h.snaplen
    ++ store_u32 h.network

-- `writeOutputHeader`
unfoldable pub write_output_header : GlobalHeader → Option Bytes → Bool × Option Bytes
write_output_header h none = (false, none)
write_output_header h (some file) = (true, some (file ++ header_bytes h))

-- The 16 bytes of the packet's header: both lengths are that of the data, cut to 32 bits.
abbrev pub job_header_bytes : PacketJob → Bytes
job_header_bytes job =
    let n = length job.packet % 2 ^ 32 in
    store_u32 job.ts_sec ++ store_u32 job.ts_usec ++ store_u32 n ++ store_u32 n

-- `writeOutputPacket`
unfoldable pub write_output_packet : PacketJob → Option Bytes → Option Bytes
write_output_packet job none = none
write_output_packet job (some file) = some (file ++ job_header_bytes job ++ job.packet)

-- The rounds of `outputThreadFunc` that found a job.
unfoldable pub write_jobs : List PacketJob → Option Bytes → Option Bytes
unfolding write_output_packet
write_jobs [] file = file
write_jobs (job ∷ jobs) file = write_jobs jobs (write_output_packet job file)

-- The file after the header and these jobs.
abbrev pub written : GlobalHeader → List PacketJob → Option Bytes
written h jobs = write_jobs jobs (write_output_header h (some [])).1

-- The record that a job is written as.
abbrev pub job_packet : PacketJob → RawPacket
job_packet job = record {
  ts_sec = job.ts_sec;
  ts_usec = job.ts_usec;
  incl_len = length job.packet;
  orig_len = length job.packet;
  packet = job.packet;
}

-- A job of a packet that the reader lets pass.
abbrev pub IsWritable : ℕ → PacketJob → Type 0
IsWritable snaplen job =
    (job.ts_sec < 2 ^ 32)
    × (job.ts_usec < 2 ^ 32)
    × (length job.packet ≤ snaplen)
    × (length job.packet ≤ 65535)

abbrev pub AllWritable : ℕ → List PacketJob → Type 0
AllWritable snaplen [] = Unit
AllWritable snaplen (job ∷ jobs) = IsWritable snaplen job × AllWritable snaplen jobs

pub AllWritable-AllCaptured :
    (n : ℕ) (jobs : List PacketJob) → AllWritable n jobs → AllCaptured n (map job_packet jobs)
AllWritable-AllCaptured n [] h = tt
AllWritable-AllCaptured n (job ∷ jobs) ((a, b, c, d), rest) =
    ((a, b, omega arith, refl, c, d), AllWritable-AllCaptured n jobs rest)

pub write_jobs-packets_image :
    (n : ℕ) (jobs : List PacketJob) (file : Bytes)
    → AllWritable n jobs
    → write_jobs jobs (some file) ≡ some (file ++ packets_image false (map job_packet jobs))
unfolding write_jobs write_output_packet
write_jobs-packets_image n [] file h = ap some (sym (append-nil file))
write_jobs-packets_image n (job ∷ jobs) file ((a, b, c, d), rest) =
    let cut : length job.packet % 2 ^ 32 ≡ length job.packet = omega arith in
    let rest_bytes = packets_image false (map job_packet jobs) in
    let header = packet_image false (job_packet job) in
    ap (λ k. write_jobs jobs (some (file ++ header_of k ++ job.packet))) cut
    ∙ write_jobs-packets_image n jobs (file ++ header ++ job.packet) rest
    ∙ ap some (
        append_assoc (file ++ header) job.packet rest_bytes
        ∙ append_assoc file header (job.packet ++ rest_bytes))
  where
    header_of : ℕ → Bytes
    header_of k = store_u32 job.ts_sec ++ store_u32 job.ts_usec ++ store_u32 k ++ store_u32 k

-- The output is a capture that holds just the packets written: for a header in the host's order,
-- as the reader keeps it of such an input, and jobs that are within its limit and 65535 bytes,
-- the reader opens the file that the engine wrote and gives each job's time and data in order.
pub read_packets-written :
    (h : GlobalHeader) (jobs : List PacketJob) (r : PcapReader) (fuel : ℕ)
    → IsHeader h
    → AllWritable h.snaplen jobs
    → length jobs < fuel
    → (file : Bytes) × (after : PcapReader) × (written (kept_header false h) jobs ≡ some file)
      × (open_file (some file) r ≡ (true, after))
      × (read_packets fuel after ≡ some (map job_packet jobs))
unfolding write_output_header
read_packets-written h jobs r fuel (a, b, c, d, e, f) all enough =
    let zone : seen32 false h.thiszone ≡ h.thiszone = omega arith in
    let sig : seen32 false h.sigfigs ≡ h.sigfigs = omega arith in
    let raws = map job_packet jobs in
    let (opens, reads) =
      read_packets-image false h raws r fuel (a, b, c, d, e, f)
        (AllWritable-AllCaptured h.snaplen jobs all) (omega (arith, length-map jobs job_packet)) in
    (
      header_image false h ++ packets_image false raws,
      reading false (kept_header false h) (packets_image false raws),
      ap (write_jobs jobs) (rw (zone, sig))
          ∙ write_jobs-packets_image h.snaplen jobs (header_image false h) all,
      opens,
      reads,
    )

-- ===== src/Pcap/RoundTrip.antt =====
-- Capture files of either byte order, and what the reader makes of them.
use multi_threaded_dpi_engin.Base.{
  ℕ, zero, suc, ◌^◌, ◌<◌, ◌≡◌, refl, ap, ◌∙◌, Bool, true, false, ltb, ◌||◌, List, [], ◌∷◌, ◌++◌,
  none, some, ◌>>=◌, arith, Bytes, length,
}
use multi_threaded_dpi_engin.Inspect.Memory.{read}
use multi_threaded_dpi_engin.Packet.{RawPacket, load_u16, load_u32}
use multi_threaded_dpi_engin.Pcap.{
  GlobalHeader, Stream, PcapReader, magic_native, read_bytes, maybe_swap16, maybe_swap32, open_file,
  opened, with_global, check_magic, close, global_header_of, read_next_packet, from_file,
  with_header, with_packet, read_content, read_packets,
}
use multi_threaded_dpi_engin.Pcap.Words.{seen16, seen32, maybe_swap16-seen16, maybe_swap32-seen32}
use multi_threaded_dpi_engin.Pcap.Images.{
  header_image, packet_image, packets_image, AllCaptured, read_bytes-append, reading,
  read_bytes-packet_image, packet_header_of-packet_image, swap_header-seen_header,
  read_next_packet-image,
}

-- A length above the source's limit is the end of the packets.
pub read_packets-long :
    (s : Bool) (g : GlobalHeader) (raw : RawPacket) (rest : Bytes) (fuel : ℕ)
    → raw.ts_sec < 2 ^ 32
    → raw.ts_usec < 2 ^ 32
    → raw.incl_len < 2 ^ 32
    → raw.orig_len < 2 ^ 32
    → 65535 < raw.incl_len
    → read_packets (suc fuel) (reading s g (packet_image s raw ++ rest)) ≡ some []
unfolding read_packets read_next_packet from_file with_header with_packet read_content
read_packets-long s g raw rest fuel a b c d long =
    let all = packet_image s raw ++ rest in
    let after : Stream = record { rest = rest; good = true } in
    let refused : (ltb g.snaplen raw.incl_len || ltb 65535 raw.incl_len) ≡ true = ground arith in
    ap
      (λ p. elim p.0 [
        | none ↦ some []
        | some one ↦ (read_packets fuel p.1 >>= λ later. some (one ∷ later))
      ])
      (ap (λ p. with_header p (reading s g all)) (read_bytes-packet_image s raw rest)
        ∙ ap (λ p. with_packet p after (reading s g all)) (packet_header_of-packet_image s raw)
        ∙ ap (λ p. read_content p after (reading s g all)) (swap_header-seen_header s raw a b c d)
        ∙ stop refused)
  where
    stop :
        (ltb g.snaplen raw.incl_len || ltb 65535 raw.incl_len) ≡ true
        → read_content
            (record raw { packet = [] })
            (record { rest = rest; good = true })
            (reading s g (packet_image s raw ++ rest))
          ≡ (none, reading s g rest)
    stop refused = rw (read_content, refused)

read_packets-packets_image :
    (s : Bool) (g : GlobalHeader) (raws : List RawPacket) (fuel : ℕ)
    → AllCaptured g.snaplen raws
    → length raws < fuel
    → read_packets fuel (reading s g (packets_image s raws)) ≡ some raws
unfolding read_packets
read_packets-packets_image s g raws zero h k = absurd (omega arith)
read_packets-packets_image s g [] (suc fuel) h k =
    unfold read_next_packet from_file with_header read_bytes in refl
read_packets-packets_image s g (raw ∷ raws) (suc fuel) h k =
    ap
      (λ p. elim p.0 [
        | none ↦ some []
        | some one ↦ (read_packets fuel p.1 >>= λ later. some (one ∷ later))
      ])
      (read_next_packet-image s g raw (packets_image s raws) h.0)
    ∙ rw (read_packets-packets_image s g raws fuel h.1 (omega arith))

-- The header that `open` keeps.
abbrev pub kept_header : Bool → GlobalHeader → GlobalHeader
kept_header s h = record h {
  magic_number = seen32 s magic_native;
  thiszone = seen32 s h.thiszone;
  sigfigs = seen32 s h.sigfigs;
}

-- A header with words of its fields' widths.
abbrev pub IsHeader : GlobalHeader → Type 0
IsHeader h =
    (h.version_major < 2 ^ 16)
    × (h.version_minor < 2 ^ 16)
    × (h.thiszone < 2 ^ 32)
    × (h.sigfigs < 2 ^ 32)
    × (h.snaplen < 2 ^ 32)
    × (h.network < 2 ^ 32)

abbrev seen_global : Bool → GlobalHeader → GlobalHeader
seen_global s h = record {
  magic_number = seen32 s magic_native;
  version_major = seen16 s h.version_major;
  version_minor = seen16 s h.version_minor;
  thiszone = seen32 s h.thiszone;
  sigfigs = seen32 s h.sigfigs;
  snaplen = seen32 s h.snaplen;
  network = seen32 s h.network;
}

global_header_of-header_image :
    (s : Bool) (h : GlobalHeader) → global_header_of (header_image s h) ≡ some (seen_global s h)
unfolding global_header_of load_u32 load_u16 read
global_header_of-header_image true h = refl
global_header_of-header_image false h = refl

read_bytes-header_image :
    (s : Bool) (h : GlobalHeader) (rest : Bytes)
    → read_bytes 24 (record { rest = header_image s h ++ rest; good = true })
      ≡ (some (header_image s h), record { rest = rest; good = true })
read_bytes-header_image true h rest = read_bytes-append (header_image true h) rest
read_bytes-header_image false h rest = read_bytes-append (header_image false h) rest

check_magic-seen_global :
    (s : Bool) (h : GlobalHeader) (file : Stream) (r : PcapReader)
    → IsHeader h
    → check_magic (seen_global s h) file r
      ≡ (true, record { file = some file; global_header = kept_header s h; needs_byte_swap = s })
unfolding check_magic
check_magic-seen_global true h file r (a, b, c, d, e, f) = rw (
  maybe_swap16-seen16 true h.version_major a,
  maybe_swap16-seen16 true h.version_minor b,
  maybe_swap32-seen32 true h.snaplen e,
  maybe_swap32-seen32 true h.network f,
)
check_magic-seen_global false h file r (a, b, c, d, e, f) =
    unfold maybe_swap16 maybe_swap32 in
    let major : seen16 false h.version_major ≡ h.version_major = omega arith in
    let minor : seen16 false h.version_minor ≡ h.version_minor = omega arith in
    let limit : seen32 false h.snaplen ≡ h.snaplen = omega arith in
    let link : seen32 false h.network ≡ h.network = omega arith in rw (major, minor, limit, link)

pub open_file-image :
    (s : Bool) (h : GlobalHeader) (rest : Bytes) (r : PcapReader)
    → IsHeader h
    → open_file (some (header_image s h ++ rest)) r ≡ (true, reading s (kept_header s h) rest)
unfolding open_file opened with_global
open_file-image s h rest r words =
    let file : Stream = record { rest = rest; good = true } in
    ap (λ p. opened p (close r)) (read_bytes-header_image s h rest)
    ∙ ap (λ p. with_global p file (close r)) (global_header_of-header_image s h)
    ∙ check_magic-seen_global s h file (close r) words

-- A capture of either byte order is read as it was written: the reader opens the file, whatever
-- it had open before, keeps the header's versions, length limit and link type in the host's
-- order, and gives all the packets in order with the fields and the data they were stored with
-- and no other, in one round more than there are packets. The header's fields fit their widths;
-- each packet's length is that of its data and is within the header's limit and 65535.
pub read_packets-image :
    (s : Bool) (h : GlobalHeader) (raws : List RawPacket) (r : PcapReader) (fuel : ℕ)
    → IsHeader h
    → AllCaptured h.snaplen raws
    → length raws < fuel
    → (open_file (some (header_image s h ++ packets_image s raws)) r
        ≡ (true, reading s (kept_header s h) (packets_image s raws)))
      × (read_packets fuel (reading s (kept_header s h) (packets_image s raws)) ≡ some raws)
read_packets-image s h raws r fuel words captured enough = (
  open_file-image s h (packets_image s raws) r words,
  read_packets-packets_image s (kept_header s h) raws fuel captured enough,
)

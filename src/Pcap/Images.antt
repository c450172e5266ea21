-- ===== src/Pcap/Images.antt =====
-- The bytes of packets in a capture file, and how src/pcap_reader.cpp reads one of them.
use multi_threaded_dpi_engin.Base.{
  ℕ, ◌^◌, ◌≤◌, ◌<◌, ◌≡◌, refl, ap, ◌∙◌, Bool, true, false, ltb, ◌||◌, List, [], ◌∷◌, ◌++◌, some,
  arith, Bytes, length, take, drop, leb,
}
use multi_threaded_dpi_engin.Inspect.Memory.{read}
use multi_threaded_dpi_engin.Packet.{RawPacket, load_u32}
use multi_threaded_dpi_engin.Pcap.{
  GlobalHeader, Stream, PcapReader, magic_native, read_bytes, packet_header_of, read_next_packet,
  from_file, with_header, with_packet, swap_header, read_content, with_content,
}
use multi_threaded_dpi_engin.Pcap.Words.{word16, word32, seen32, maybe_swap32-seen32}

-- The file of a host of one of the orders: its header, and its packets.
abbrev pub header_image : Bool → GlobalHeader → Bytes
header_image s h =
    word32 s magic_native
    ++ word16 s h.version_major
    ++ word16 s h.version_minor
    ++ word32 s h.thiszone
    ++ word32 s h.sigfigs
    ++ word32 s h.snaplen
    ++ word32 s h.network

abbrev pub packet_image : Bool → RawPacket → Bytes
packet_image s raw =
    word32 s raw.ts_sec ++ word32 s raw.ts_usec ++ word32 s raw.incl_len ++ word32 s raw.orig_len

abbrev pub packets_image : Bool → List RawPacket → Bytes
packets_image s [] = []
packets_image s (raw ∷ raws) = packet_image s raw ++ (raw.packet ++ packets_image s raws)

-- What a capture library writes: words of 32 bits, and lengths that are those of the data.
abbrev pub IsCaptured : ℕ → RawPacket → Type 0
IsCaptured snaplen raw =
    (raw.ts_sec < 2 ^ 32)
    × (raw.ts_usec < 2 ^ 32)
    × (raw.orig_len < 2 ^ 32)
    × (raw.incl_len ≡ length raw.packet)
    × (raw.incl_len ≤ snaplen)
    × (raw.incl_len ≤ 65535)

abbrev pub AllCaptured : ℕ → List RawPacket → Type 0
AllCaptured snaplen [] = Unit
AllCaptured snaplen (raw ∷ raws) = IsCaptured snaplen raw × AllCaptured snaplen raws

take-length_append : (xs ys : Bytes) → take (length xs) (xs ++ ys) ≡ xs
take-length_append [] ys = refl
take-length_append (x ∷ xs) ys = rw (take-length_append xs ys)

drop-length_append : (xs ys : Bytes) → drop (length xs) (xs ++ ys) ≡ ys
drop-length_append [] ys = refl
drop-length_append (x ∷ xs) ys = drop-length_append xs ys

leb-length_append : (xs ys : Bytes) → leb (length xs) (length (xs ++ ys)) ≡ true
leb-length_append [] ys = ground arith
leb-length_append (x ∷ xs) ys = ground (arith, leb-length_append xs ys)

pub read_bytes-append :
    (xs ys : Bytes)
    → read_bytes (length xs) (record { rest = xs ++ ys; good = true })
      ≡ (some xs, record { rest = ys; good = true })
unfolding read_bytes
read_bytes-append xs ys =
    rw (leb-length_append xs ys, take-length_append xs ys, drop-length_append xs ys)

-- The reader on a good file of which this much is left.
abbrev pub reading : Bool → GlobalHeader → Bytes → PcapReader
reading s g rest = record {
  file = some (record { rest = rest; good = true });
  global_header = g;
  needs_byte_swap = s;
}

-- The header that the reader has before it swaps.
abbrev pub seen_header : Bool → RawPacket → RawPacket
seen_header s raw = record {
  ts_sec = seen32 s raw.ts_sec;
  ts_usec = seen32 s raw.ts_usec;
  incl_len = seen32 s raw.incl_len;
  orig_len = seen32 s raw.orig_len;
  packet = [];
}

pub read_bytes-packet_image :
    (s : Bool) (raw : RawPacket) (rest : Bytes)
    → read_bytes 16 (record { rest = packet_image s raw ++ rest; good = true })
      ≡ (some (packet_image s raw), record { rest = rest; good = true })
read_bytes-packet_image true raw rest = read_bytes-append (packet_image true raw) rest
read_bytes-packet_image false raw rest = read_bytes-append (packet_image false raw) rest

pub packet_header_of-packet_image :
    (s : Bool) (raw : RawPacket) → packet_header_of (packet_image s raw) ≡ some (seen_header s raw)
unfolding packet_header_of load_u32 read
packet_header_of-packet_image true raw = refl
packet_header_of-packet_image false raw = refl

pub swap_header-seen_header :
    (s : Bool) (raw : RawPacket)
    → raw.ts_sec < 2 ^ 32
    → raw.ts_usec < 2 ^ 32
    → raw.incl_len < 2 ^ 32
    → raw.orig_len < 2 ^ 32
    → swap_header s (seen_header s raw) ≡ record raw { packet = [] }
unfolding swap_header
swap_header-seen_header s raw a b c d = rw (
  maybe_swap32-seen32 s raw.ts_sec a,
  maybe_swap32-seen32 s raw.ts_usec b,
  maybe_swap32-seen32 s raw.incl_len c,
  maybe_swap32-seen32 s raw.orig_len d,
)

read_content-rest :
    (s : Bool) (g : GlobalHeader) (raw : RawPacket) (rest : Bytes)
    → IsCaptured g.snaplen raw
    → read_content
        (record raw { packet = [] })
        (record { rest = raw.packet ++ rest; good = true })
        (reading s g (packet_image s raw ++ (raw.packet ++ rest)))
      ≡ (some raw, reading s g rest)
unfolding read_content with_content
read_content-rest s g raw rest (a, b, c, same, within, short) =
    let fits : (ltb g.snaplen raw.incl_len || ltb 65535 raw.incl_len) ≡ false = ground arith in
    let found =
      ap (λ n. read_bytes n (record { rest = raw.packet ++ rest; good = true })) same
      ∙ read_bytes-append raw.packet rest in
    rw (fits, found)

pub read_next_packet-image :
    (s : Bool) (g : GlobalHeader) (raw : RawPacket) (rest : Bytes)
    → IsCaptured g.snaplen raw
    → read_next_packet (reading s g (packet_image s raw ++ (raw.packet ++ rest)))
      ≡ (some raw, reading s g rest)
unfolding read_next_packet from_file with_header with_packet
read_next_packet-image s g raw rest (a, b, c, same, within, short) =
    let all = packet_image s raw ++ (raw.packet ++ rest) in
    let after : Stream = record { rest = raw.packet ++ rest; good = true } in
    ap (λ p. with_header p (reading s g all)) (read_bytes-packet_image s raw (raw.packet ++ rest))
    ∙ ap (λ p. with_packet p after (reading s g all)) (packet_header_of-packet_image s raw)
    ∙ ap (λ p. read_content p after (reading s g all))
        (swap_header-seen_header s raw a b (ground arith) c)
    ∙ read_content-rest s g raw rest (a, b, c, same, within, short)

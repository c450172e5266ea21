-- ===== src/Pcap/Progress.antt =====
-- Reading any file at all: each packet takes bytes of it, so that the loop ends.
use multi_threaded_dpi_engin.Base.{
  ℕ, zero, suc, ◌+◌, ◌≤◌, ◌<◌, ◌≡◌, refl, ap, ◌∙◌, ◌*◌, subst, inl, inr, ◌&&◌, ◌||◌, ltb, leb, List,
  [], ◌∷◌, Option, none, some, ◌>>=◌, Bool-cases, Option-cases, arith, length, take, drop,
  length-take, length-drop,
}
use multi_threaded_dpi_engin.Packet.{RawPacket}
use multi_threaded_dpi_engin.Pcap.{
  GlobalHeader, Stream, PcapReader, read_bytes, packet_header_of, read_next_packet, from_file,
  with_header, with_packet, swap_header, read_content, with_content, read_packets,
}

-- The bytes that are left to read.
abbrev pub left : Option Stream → ℕ
left none = 0
left (some file) = length file.rest

-- A packet as `readNextPacket` gives it under the global header `g`.
abbrev pub IsRead : GlobalHeader → RawPacket → Type 0
IsRead g raw =
    (length raw.packet ≡ raw.incl_len) × (raw.incl_len ≤ g.snaplen) × (raw.incl_len ≤ 65535)

-- What a call gives where the file has `n` bytes left.
abbrev pub Progress : ℕ → GlobalHeader → Option RawPacket × PcapReader → Type 0
Progress n g (none, after) = Unit
Progress n g (some raw, after) =
    IsRead g raw × (left after.file + 16 ≤ n) × (after.global_header ≡ g)

read_content-Progress :
    (raw : RawPacket) (file : Stream) (r : PcapReader)
    → Progress (length file.rest + 16) r.global_header (read_content raw file r)
unfolding read_content with_content read_bytes
read_content-Progress raw file r =
    elim (Bool-cases (ltb r.global_header.snaplen raw.incl_len || ltb 65535 raw.incl_len)) [
      | inl long ↦ rw long tt
      | inr fits ↦ elim (Bool-cases (file.good && leb raw.incl_len (length file.rest))) [
        | inl there ↦
            rw (fits, there)
              (ground
                (arith, length-take raw.incl_len file.rest, length-drop raw.incl_len file.rest))
        | inr short ↦ rw (fits, short) tt
      ]
    ]

from_file-Progress : (r : PcapReader) → Progress (left r.file) r.global_header (from_file r.file r)
unfolding from_file
from_file-Progress r = with_file r.file
  where
    header :
        (file : Stream)
        → 16 ≤ length file.rest
        → Progress
            (length file.rest)
            r.global_header
            (with_header (some (take 16 file.rest), record file { rest = drop 16 file.rest }) r)
    header file long = elim (Option-cases (packet_header_of (take 16 file.rest))) [
      | inl short ↦ unfold with_header with_packet in rw short tt
      | inr (raw, e) ↦
          unfold with_header with_packet in
          rw e (
            subst
              (λ n. Progress n r.global_header (
                read_content (swap_header r.needs_byte_swap raw)
                  (record file { rest = drop 16 file.rest }) r))
              (omega (arith, length-drop 16 file.rest))
              (read_content-Progress (swap_header r.needs_byte_swap raw)
                (record file { rest = drop 16 file.rest }) r))
    ]

    with_file : (f : Option Stream) → Progress (left f) r.global_header (from_file f r)
    with_file none = tt
    with_file (some file) = elim (Bool-cases (file.good && leb 16 (length file.rest))) [
      | inl there ↦ unfold read_bytes in rw there (header file (ground arith))
      | inr short ↦ unfold read_bytes with_header in rw short tt
    ]

abbrev pub AllRead : GlobalHeader → List RawPacket → Type 0
AllRead g [] = Unit
AllRead g (raw ∷ raws) = IsRead g raw × AllRead g raws

-- The loop over a reader ends, whatever the file holds: one round for each byte that is left, and
-- one more, are enough. The packets that it gives are no more than the file has room for at 16
-- bytes each, and each has as many bytes as its header says, at most the limit of the global
-- header and 65535.
pub read_packets-AllRead :
    (r : PcapReader) (fuel : ℕ)
    → left r.file < fuel
    → (raws : List RawPacket) × (read_packets fuel r ≡ some raws)
      × AllRead r.global_header raws
      × (16 * length raws ≤ left r.file)
unfolding read_packets read_next_packet
read_packets-AllRead r zero h = absurd (omega arith)
read_packets-AllRead r (suc fuel) h =
    next (from_file r.file r) refl (from_file-Progress r) (λ after. read_packets-AllRead after fuel)
  where
    Good : ℕ → PcapReader → Type 0
    Good n a =
        (raws : List RawPacket) × (read_packets n a ≡ some raws)
        × AllRead a.global_header raws
        × (16 * length raws ≤ left a.file)

    next :
        (o : Option RawPacket × PcapReader)
        → from_file r.file r ≡ o
        → Progress (left r.file) r.global_header o
        → ((after : PcapReader) → left after.file < fuel → Good fuel after)
        → Good (suc fuel) r
    next (none, after) e p later = (
      [],
      ap
          (λ o. elim o.0 [
            | none ↦ some []
            | some raw ↦ (read_packets fuel o.1 >>= λ raws. some (raw ∷ raws))
          ])
          e,
      tt,
      omega arith,
    )
    next (some raw, after) e (read, moved, same) later =
        let (raws, f, all, room) = later after (omega arith) in
        (
          raw ∷ raws,
          ap
                (λ o. elim o.0 [
                  | none ↦ some []
                  | some one ↦ (read_packets fuel o.1 >>= λ rest. some (one ∷ rest))
                ])
                e
              ∙ rw f,
          (read, subst (λ g. AllRead g raws) same all),
          omega arith,
        )

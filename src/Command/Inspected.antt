-- ===== src/Command/Inspected.antt =====
-- The names that src/main_simple.cpp prints, and those that the engine would extract.
use multi_threaded_dpi_engin.Base.{
  ℕ, ◌+◌, ◌≤◌, ◌≡◌, refl, subst, ◌∙◌, ◌==◌, ltb, true, not, ◌&&◌, if◌then◌else◌, List, [], ◌∷◌,
  Option, none, some, Ensures, Ensures-some, Bool-cases, inl, inr, arith, Bytes, length,
}
use multi_threaded_dpi_engin.Inspect.Tls as Tls
use multi_threaded_dpi_engin.Inspect.Tls.Safety.{extract_inside}
use multi_threaded_dpi_engin.Types.{PacketJob}
use multi_threaded_dpi_engin.Packet.{RawPacket, ParsedPacket, parse}
use multi_threaded_dpi_engin.Packet.Layout.{OnSuccess, Ipv4, Tcp}
use multi_threaded_dpi_engin.Packet.Accepted.{Parsed, parse-Ensures}
use multi_threaded_dpi_engin.Packet.Job.{read_job}
use multi_threaded_dpi_engin.Packet.Reader.{IsBytes, CreatedFrom, ReadFrom, read_job-ReadFrom}
use multi_threaded_dpi_engin.Command.Simple.{
  Scan, tcp_payload, extract_sni, packet_line, print_sni, scan_parsed, scan_packet, scan,
}

-- What the extraction gives when the payload starts at an offset.
abbrev sni_from : ParsedPacket → Bytes → ℕ → ℕ → Option (Option Bytes)
sni_from p mem offset len =
    if p.has_tcp && p.dest_port == 443 && ltb 0 len then Tls.extract mem offset len else some none

tcp_payload-Tcp :
    (mem : Bytes) (p : ParsedPacket) (t o : ℕ)
    → Ipv4 mem p t
    → Tcp mem p t o
    → tcp_payload mem ≡ some o
unfolding tcp_payload
tcp_payload-Tcp mem p t o ip tcp = rw (ip.ihl_read, ← ip.place, tcp.length_read, ← tcp.place)

extract_sni-Parsed :
    (raw : RawPacket) (p : ParsedPacket) (parsed : Parsed raw.packet p)
    → extract_sni raw p ≡ sni_from p raw.packet parsed.0 p.payload_length
unfolding extract_sni
extract_sni-Parsed raw p (o, inl bare, len) = rw bare.1
extract_sni-Parsed raw p (o, inr (t, ip, inl tcp), len) =
    elim (Bool-cases (p.dest_port == 443 && ltb 0 p.payload_length)) [
      | inl https ↦
          let more : ltb o (length raw.packet) ≡ true = ground (arith, len) in
          rw (tcp.has_tcp, https, tcp_payload-Tcp raw.packet p t o ip tcp, more, len)
      | inr other ↦ rw (tcp.has_tcp, other)
    ]
extract_sni-Parsed raw p (o, inr (t, ip, inr (inl udp)), len) = rw udp.no_tcp
extract_sni-Parsed raw p (o, inr (t, ip, inr (inr n)), len) = rw n.0

sni_from-CreatedFrom :
    (raw : RawPacket) (p : ParsedPacket) (job : PacketJob) (parsed : Parsed raw.packet p)
    → CreatedFrom raw p job
    → sni_from p raw.packet parsed.0 p.payload_length
      ≡ sni_from p job.packet job.payload_offset job.payload_length
sni_from-CreatedFrom raw p job (o, inl bare, len) made = rw bare.1 refl
sni_from-CreatedFrom raw p job (o, inr (t, ip, inl tcp), len) made =
    let offset : job.payload_offset ≡ o =
      omega (arith, made.rest, made.same_length, tcp.inside, len) in
    rw (made.same_packet, offset, made.same_length)
sni_from-CreatedFrom raw p job (o, inr (t, ip, inr (inl udp)), len) made = rw udp.no_tcp refl
sni_from-CreatedFrom raw p job (o, inr (t, ip, inr (inr n)), len) made = rw n.0 refl

-- The name that is found, when the engine makes a job of the packet.
abbrev pub SameSni : RawPacket → Option PacketJob → Type 0
SameSni raw none = Unit
SameSni raw (some job) =
    (p : ParsedPacket) × (parse raw ≡ some (some p))
    × (extract_sni raw p ≡ (
        if p.has_tcp && p.dest_port == 443 && ltb 0 job.payload_length
        then Tls.extract job.packet job.payload_offset job.payload_length
        else some none))

from_parse : (raw : RawPacket) (p : ParsedPacket) → parse raw ≡ some (some p) → Parsed raw.packet p
from_parse raw p e = subst (Ensures (OnSuccess (Parsed raw.packet))) e (parse-Ensures raw)

-- On every captured packet of bytes of which the engine makes a job, the small program looks for a
-- server name where the job has its payload, and finds in an HTTPS packet with a payload what the
-- engine's extractor finds in the job; in any other packet it finds none.
pub extract_sni-read_job :
    (raw : RawPacket) (packet_id : ℕ)
    → IsBytes raw.packet
    → (r : Option PacketJob) × (read_job raw packet_id ≡ some r) × SameSni raw r
extract_sni-read_job raw packet_id bytes =
    let (r, e, from) = read_job-ReadFrom raw packet_id bytes in (r, e, same r from)
  where
    same : (r : Option PacketJob) → ReadFrom raw r → SameSni raw r
    same none from = tt
    same (some job) (p, e, made) =
        let parsed = from_parse raw p e in
        (p, e, extract_sni-Parsed raw p parsed ∙ sni_from-CreatedFrom raw p job parsed made)

-- The extraction reads inside the packet.
sni_from-some :
    (raw : RawPacket) (p : ParsedPacket) (parsed : Parsed raw.packet p)
    → (sni : Option Bytes) × (sni_from p raw.packet parsed.0 p.payload_length ≡ some sni)
sni_from-some raw p (o, inl bare, len) = (none, rw bare.1 refl)
sni_from-some raw p (o, inr (t, ip, inl tcp), len) =
    let inside : o + p.payload_length ≤ length raw.packet = omega (arith, tcp.inside, len) in
    let (sni, found, facts) = extract_inside raw.packet o p.payload_length inside in
    elim (Bool-cases (p.has_tcp && p.dest_port == 443 && ltb 0 p.payload_length)) [
      | inl https ↦ (sni, rw https found)
      | inr other ↦ (none, rw other refl)
    ]
sni_from-some raw p (o, inr (t, ip, inr (inl udp)), len) = (none, rw udp.no_tcp refl)
sni_from-some raw p (o, inr (t, ip, inr (inr n)), len) = (none, rw n.0 refl)

-- What so many rounds count: every packet, and a name at most once for each.
pub record Scanned (n : ℕ) (s t : Scan) : Type 0 where
  pub counted : t.count ≡ s.count + n
  pub more : s.tls_count ≤ t.tls_count
  pub at_most : t.tls_count ≤ s.tls_count + n

print_sni-Scanned :
    (line : Bytes) (sni : Option Bytes) (s : Scan)
    → Scanned 1 s (print_sni line sni (record s { count = s.count + 1 }))
print_sni-Scanned line none s = record { counted = refl; more = omega arith; at_most = omega arith }
print_sni-Scanned line (some name) s = record {
  counted = refl;
  more = omega arith;
  at_most = omega arith;
}

scan_parsed-Scanned :
    (raw : RawPacket) (r : Option ParsedPacket) (s : Scan)
    → OnSuccess (Parsed raw.packet) r
    → (t : Scan) × (scan_parsed raw r (record s { count = s.count + 1 }) ≡ some t) × Scanned 1 s t
unfolding scan_parsed
scan_parsed-Scanned raw none s h = (
  record s { count = s.count + 1 },
  refl,
  record { counted = refl; more = omega arith; at_most = omega arith },
)
scan_parsed-Scanned raw (some p) s h = elim (Bool-cases (not p.has_ip)) [
  | inl skipped ↦ (
    record s { count = s.count + 1 },
    rw skipped refl,
    record { counted = refl; more = omega arith; at_most = omega arith },
  )
  | inr kept ↦
      let (sni, found) = sni_from-some raw p h in
      let line = packet_line (s.count + 1) p in
      (
        print_sni line sni (record s { count = s.count + 1 }),
        rw (kept, extract_sni-Parsed raw p h, found) refl,
        print_sni-Scanned line sni s,
      )
]

scan_packet-Scanned :
    (raw : RawPacket) (s : Scan) → (t : Scan) × (scan_packet raw s ≡ some t) × Scanned 1 s t
unfolding scan_packet
scan_packet-Scanned raw s =
    let (r, e, h) = Ensures-some (OnSuccess (Parsed raw.packet)) (parse raw) (parse-Ensures raw) in
    let (t, f, scanned) = scan_parsed-Scanned raw r s h in (t, rw (e, f) refl, scanned)

-- Whatever packets a capture holds, the loop reads inside them only and ends; it has then counted
-- each packet, and not more names than packets.
pub scan-Scanned :
    (raws : List RawPacket) (s : Scan)
    → (t : Scan) × (scan raws s ≡ some t) × Scanned (length raws) s t
unfolding scan
scan-Scanned [] s =
    (s, refl, record { counted = omega arith; more = omega arith; at_most = omega arith })
scan-Scanned (raw ∷ raws) s =
    let (t, e, one) = scan_packet-Scanned raw s in
    let (u, f, rest) = scan-Scanned raws t in
    (
      u,
      rw (e, f) refl,
      record {
        counted = omega (arith, one.counted, rest.counted);
        more = omega (arith, one.more, rest.more);
        at_most = omega (arith, one.at_most, rest.at_most);
      },
    )

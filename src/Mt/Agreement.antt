-- ===== src/Mt/Agreement.antt =====
-- The reader of src/dpi_mt.cpp against that of src/dpi_engine.cpp.
use multi_threaded_dpi_engin.Base.{
  ℕ, ◌+◌, ◌-◌, ◌≤◌, ◌<◌, ◌≡◌, refl, inl, inr, true, false, not, ◌&&◌, ◌||◌, ltb, if◌then◌else◌,
  Option, none, some, Bool-cases, Ensures-some, arith, Bytes, length,
}
use multi_threaded_dpi_engin.Rules.Address.{parse_ip-ip_to_string}
use multi_threaded_dpi_engin.Types.{PacketJob}
use multi_threaded_dpi_engin.Packet.{RawPacket, ParsedPacket, parse, attempt}
use multi_threaded_dpi_engin.Packet.Layout.{OnSuccess, Ipv4, Tcp, Udp}
use multi_threaded_dpi_engin.Packet.Accepted.{Parsed, parse-Ensures}
use multi_threaded_dpi_engin.Packet.Job as Job
use multi_threaded_dpi_engin.Packet.Job.{make_job, create_packet_job, read_job}
use multi_threaded_dpi_engin.Packet.Reader as Reader
use multi_threaded_dpi_engin.Packet.Reader.{IsBytes, load_u32-bound}
use multi_threaded_dpi_engin.Mt.{Packet, Stats}
use multi_threaded_dpi_engin.Mt.Flows.{IsInside}
use multi_threaded_dpi_engin.Mt.Reader.{
  payload_start, locate, create_packet, count_read, read_packet,
}

-- The same packet as a job of the other engine.
abbrev pub packet_of : PacketJob → Packet
packet_of job = record {
  id = job.packet_id;
  ts_sec = job.ts_sec;
  ts_usec = job.ts_usec;
  tuple = job.tuple;
  packet = job.packet;
  tcp_flags = job.tcp_flags;
  payload_offset = job.payload_offset;
  payload_length = job.payload_length;
}

locate-Tcp :
    (mem : Bytes) (p : ParsedPacket) (t o : ℕ)
    → Ipv4 mem p t
    → Tcp mem p t o
    → locate mem p.has_tcp p.has_udp ≡ some (o, length mem - o)
unfolding locate payload_start
locate-Tcp mem p t o ip tcp =
    let long : ltb 14 (length mem) ≡ true = ground (arith, ip.place, tcp.long, tcp.inside) in
    let above : ltb (t + 12) (length mem) ≡ true = ground (arith, tcp.long, tcp.inside) in
    let rest : (if ltb o (length mem) then length mem - o else 0) ≡ length mem - o = ground arith in
    rw (long, ip.ihl_read, ← ip.place, tcp.has_tcp, above, tcp.length_read, ← tcp.place, rest)

locate-Udp :
    (mem : Bytes) (p : ParsedPacket) (t o : ℕ)
    → Ipv4 mem p t
    → Udp mem p t o
    → locate mem p.has_tcp p.has_udp ≡ some (o, length mem - o)
unfolding locate payload_start
locate-Udp mem p t o ip udp =
    let long : ltb 14 (length mem) ≡ true = ground (arith, ip.place, udp.place, udp.inside) in
    let rest : (if ltb o (length mem) then length mem - o else 0) ≡ length mem - o = ground arith in
    rw (long, ip.ihl_read, ← ip.place, udp.no_tcp, udp.has_udp, ← udp.place, rest)

-- Both engines make the same packet of what the parser returned, and it is `job`.
abbrev Same : RawPacket → ParsedPacket → ℕ → PacketJob → Type 0
Same raw p id job =
    (create_packet_job raw p id ≡ some job)
    × (create_packet raw p id ≡ some (packet_of job))
    × IsInside (packet_of job)

make_job-Same :
    (raw : RawPacket) (p : ParsedPacket) (id t o : ℕ)
    → IsBytes raw.packet
    → Ipv4 raw.packet p t
    → Job.locate raw.packet p.has_tcp p.has_udp ≡ some (t, o)
    → locate raw.packet p.has_tcp p.has_udp ≡ some (o, length raw.packet - o)
    → 14 < o
    → o ≤ length raw.packet
    → (job : PacketJob) × Same raw p id job
unfolding create_packet_job create_packet
make_job-Same raw p id t o bytes ip found located low high =
    let src_bound = load_u32-bound raw.packet 26 ip.src bytes ip.src_read in
    let dst_bound = load_u32-bound raw.packet 30 ip.dst bytes ip.dst_read in
    let rest : (if ltb 14 (length raw.packet) && ltb o (length raw.packet)
          then length raw.packet - o
          else 0)
        ≡ length raw.packet - o =
      ground arith in
    (
      make_job raw p id ip.src ip.dst (t, o),
      (
        rw (
          ip.src_text,
          ip.dst_text,
          parse_ip-ip_to_string ip.src src_bound,
          parse_ip-ip_to_string ip.dst dst_bound,
          found,
        ),
        rw (
          ip.src_text,
          ip.dst_text,
          parse_ip-ip_to_string ip.src src_bound,
          parse_ip-ip_to_string ip.dst dst_bound,
          located,
          rest,
        ),
        ground arith,
      ),
    )

create_packet-Same :
    (raw : RawPacket) (p : ParsedPacket) (id : ℕ)
    → IsBytes raw.packet
    → Parsed raw.packet p
    → (not p.has_ip || (not p.has_tcp && not p.has_udp)) ≡ false
    → (job : PacketJob) × Same raw p id job
create_packet-Same raw p id bytes (o, inl bare, len) k = absurd (ground arith)
create_packet-Same raw p id bytes (o, inr (t, ip, inl tcp), len) k =
    make_job-Same raw p id t o bytes ip (Reader.locate-Tcp raw.packet p t o ip tcp)
      (locate-Tcp raw.packet p t o ip tcp) (omega (arith, ip.place, tcp.long)) tcp.inside
create_packet-Same raw p id bytes (o, inr (t, ip, inr (inl udp)), len) k =
    make_job-Same raw p id t o bytes ip (Reader.locate-Udp raw.packet p t o ip udp)
      (locate-Udp raw.packet p t o ip udp) (omega (arith, ip.place, udp.place)) udp.inside
create_packet-Same raw p id bytes (o, inr (t, ip, inr (inr n)), len) k =
    absurd (ground (arith, n.0, n.1))

-- The packet of the job that the other engine made of the round, if any, and the counters.
abbrev pub Agrees : Stats → Option PacketJob → Option Packet × Stats → Type 0
Agrees stats none (pkt, after) = (pkt ≡ none) × (after ≡ stats)
Agrees stats (some job) (pkt, after) =
    (pkt ≡ some (packet_of job))
    × IsInside (packet_of job)
    × (after.total_packets ≡ stats.total_packets + 1)
    × (after.total_bytes ≡ stats.total_bytes + length job.packet)
    × (after.tcp_packets + after.udp_packets ≡ stats.tcp_packets + stats.udp_packets + 1)

-- The two engines read alike: on every captured packet of bytes, truncated or malformed ones too,
-- the rounds of both readers read inside the packet only, and either both skip the packet, or this
-- one sends on the packet of the job that `createPacketJob` makes, with the same addresses,
-- ports, flags, times, payload offset and payload length, the payload inside the packet, and
-- counts it once, once as TCP or UDP, and with all its bytes.
pub read_packet-read_job :
    (raw : RawPacket) (id : ℕ) (stats : Stats)
    → IsBytes raw.packet
    → (r : Option PacketJob) × (s : Option Packet × Stats) × (read_job raw id ≡ some r)
      × (read_packet raw id stats ≡ some s)
      × Agrees stats r s
read_packet-read_job raw id stats bytes =
    let (r, e, h) = Ensures-some (OnSuccess (Parsed raw.packet)) (parse raw) (parse-Ensures raw) in
    from_parse r e h
  where
    Both : Type 0
    Both =
        (r : Option PacketJob) × (s : Option Packet × Stats) × (read_job raw id ≡ some r)
        × (read_packet raw id stats ≡ some s)
        × Agrees stats r s

    from_parse :
        (r : Option ParsedPacket) → parse raw ≡ some r → OnSuccess (Parsed raw.packet) r → Both
    from_parse none e h = (
      none,
      (none, stats),
      (unfold read_job attempt in rw e),
      (unfold read_packet in rw e),
      (refl, refl),
    )
    from_parse (some p) e h = elim (Bool-cases (not p.has_ip || (not p.has_tcp && not p.has_udp))) [
      | inl skipped ↦ (
        none,
        (none, stats),
        (unfold read_job attempt in rw (e, skipped)),
        (unfold read_packet in rw (e, skipped)),
        (refl, refl),
      )
      | inr kept ↦
          let (job, (made, same, inside)) = create_packet-Same raw p id bytes h kept in
          (
            some job,
            (some (packet_of job), count_read p (packet_of job) stats),
            (unfold read_job attempt in rw (e, kept, made)),
            (unfold read_packet in rw (e, kept, same)),
            (unfold count_read in (refl, inside, refl, refl, ground arith)),
          )
    ]

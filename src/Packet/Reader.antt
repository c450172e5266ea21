-- ===== src/Packet/Reader.antt =====
-- The job that the reader makes of a raw packet.
use multi_threaded_dpi_engin.Base.{
  ℕ, zero, suc, ◌+◌, ◌-◌, ◌≤◌, ◌<◌, ◌^◌, ◌≡◌, refl, ◌⊎◌, inl, inr, true, false, not, ◌&&◌, ◌||◌,
  ltb, leb, [], ◌∷◌, Option, none, some, ◌>>=◌, Ensures-some, Bool-cases, arith, Bytes, length,
}
use multi_threaded_dpi_engin.Base.Bits.{shl}
use multi_threaded_dpi_engin.Inspect.Memory.{read}
use multi_threaded_dpi_engin.Rules.Address.{parse_ip-ip_to_string}
use multi_threaded_dpi_engin.Types.{PacketJob}
use multi_threaded_dpi_engin.FastPath.Inspection.{InPacket}
use multi_threaded_dpi_engin.Packet.{RawPacket, ParsedPacket, attempt, load_u32, parse}
use multi_threaded_dpi_engin.Packet.Layout.{OnSuccess, Ipv4, Tcp, Udp}
use multi_threaded_dpi_engin.Packet.Accepted.{Parsed, parse-Ensures}
use multi_threaded_dpi_engin.Packet.Job.{
  make_job, payload_start, locate, create_packet_job, read_job,
}

abbrev pub IsBytes : Bytes → Type 0
IsBytes [] = Unit
IsBytes (b ∷ bs) = (b < 256) × IsBytes bs

read-byte : (mem : Bytes) (i b : ℕ) → IsBytes mem → read mem i ≡ some b → b < 256
unfolding read
read-byte [] i b h e = cc
read-byte (c ∷ mem) zero b h e = ground (arith, h.0)
read-byte (c ∷ mem) (suc i) b h e = read-byte mem i b h.1 e

bind_some :
    (m : Option ℕ) (f : ℕ → Option ℕ) (w : ℕ)
    → m >>= f ≡ some w
    → (a : ℕ) × (m ≡ some a) × (f a ≡ some w)
bind_some none f w e = cc
bind_some (some a) f w e = (a, refl, e)

sum_of_bytes :
    (a b c d w : ℕ)
    → a < 256
    → b < 256
    → c < 256
    → d < 256
    → some (a + shl b 8 + shl c 16 + shl d 24) ≡ some w
    → w < 2 ^ 32
sum_of_bytes a b c d w ha hb hc hd e =
    let same : a + shl b 8 + shl c 16 + shl d 24 ≡ w = ground arith in omega arith

pub load_u32-bound : (mem : Bytes) (i w : ℕ) → IsBytes mem → load_u32 mem i ≡ some w → w < 2 ^ 32
unfolding load_u32
load_u32-bound mem i w h e =
    let (a, ea, e1) = bind_some (read mem i) _ w e in
    let (b, eb, e2) = bind_some (read mem (i + 1)) _ w e1 in
    let (c, ec, e3) = bind_some (read mem (i + 2)) _ w e2 in
    let (d, ed, e4) = bind_some (read mem (i + 3)) _ w e3 in
    sum_of_bytes a b c d w (read-byte mem i a h ea) (read-byte mem (i + 1) b h eb)
      (read-byte mem (i + 2) c h ec) (read-byte mem (i + 3) d h ed) e4

-- The job of a packet that was parsed: its addresses are those in the IPv4 header, its payload is
-- the rest of the packet from the end of the headers, and as long as the parser has it.
pub record CreatedFrom (raw : RawPacket) (p : ParsedPacket) (job : PacketJob) : Type 0 where
  pub same_packet : job.packet ≡ raw.packet
  pub inside : InPacket job
  pub rest : job.payload_offset + job.payload_length ≡ length raw.packet
  pub same_length : job.payload_length ≡ p.payload_length
  pub src : load_u32 raw.packet 26 ≡ some job.tuple.src_ip
  pub dst : load_u32 raw.packet 30 ≡ some job.tuple.dst_ip
  pub protocol : (job.tuple.protocol ≡ 6) ⊎ (job.tuple.protocol ≡ 17)

pub locate-Tcp :
    (mem : Bytes) (p : ParsedPacket) (t o : ℕ)
    → Ipv4 mem p t
    → Tcp mem p t o
    → locate mem p.has_tcp p.has_udp ≡ some (t, o)
unfolding locate payload_start
locate-Tcp mem p t o ip tcp =
    let long : ltb 14 (length mem) ≡ true = ground (arith, ip.place, tcp.long, tcp.inside) in
    let above : ltb (t + 12) (length mem) ≡ true = ground (arith, tcp.long, tcp.inside) in
    rw (long, ip.ihl_read, ← ip.place, tcp.has_tcp, above, tcp.length_read, ← tcp.place)

pub locate-Udp :
    (mem : Bytes) (p : ParsedPacket) (t o : ℕ)
    → Ipv4 mem p t
    → Udp mem p t o
    → locate mem p.has_tcp p.has_udp ≡ some (t, o)
unfolding locate payload_start
locate-Udp mem p t o ip udp =
    let long : ltb 14 (length mem) ≡ true = ground (arith, ip.place, udp.place, udp.inside) in
    let fits : leb (t + 8) (length mem) ≡ true = ground (arith, udp.place, udp.inside) in
    rw (long, ip.ihl_read, ← ip.place, udp.no_tcp, udp.has_udp, fits, udp.place)

-- From the end of the headers on, whichever the transport.
make_job-CreatedFrom :
    (raw : RawPacket) (p : ParsedPacket) (packet_id t o : ℕ)
    → IsBytes raw.packet
    → Ipv4 raw.packet p t
    → locate raw.packet p.has_tcp p.has_udp ≡ some (t, o)
    → 14 < o
    → o ≤ length raw.packet
    → p.payload_length ≡ length raw.packet - o
    → (p.protocol ≡ 6) ⊎ (p.protocol ≡ 17)
    → (job : PacketJob) × (create_packet_job raw p packet_id ≡ some job) × CreatedFrom raw p job
unfolding create_packet_job
make_job-CreatedFrom raw p packet_id t o bytes ip found low high len protocol =
    let src_bound = load_u32-bound raw.packet 26 ip.src bytes ip.src_read in
    let dst_bound = load_u32-bound raw.packet 30 ip.dst bytes ip.dst_read in
    (
      make_job raw p packet_id ip.src ip.dst (t, o),
      rw (
        ip.src_text,
        ip.dst_text,
        parse_ip-ip_to_string ip.src src_bound,
        parse_ip-ip_to_string ip.dst dst_bound,
        found,
      ),
      record {
        same_packet = refl;
        inside = ground arith;
        rest = ground arith;
        same_length = ground arith;
        src = ip.src_read;
        dst = ip.dst_read;
        protocol = protocol;
      },
    )

pub create_packet_job-CreatedFrom :
    (raw : RawPacket) (p : ParsedPacket) (packet_id : ℕ)
    → IsBytes raw.packet
    → Parsed raw.packet p
    → (not p.has_ip || (not p.has_tcp && not p.has_udp)) ≡ false
    → (job : PacketJob) × (create_packet_job raw p packet_id ≡ some job) × CreatedFrom raw p job
create_packet_job-CreatedFrom raw p packet_id bytes (o, inl bare, len) k = absurd (ground arith)
create_packet_job-CreatedFrom raw p packet_id bytes (o, inr (t, ip, inl tcp), len) k =
    make_job-CreatedFrom raw p packet_id t o bytes ip (locate-Tcp raw.packet p t o ip tcp)
      (omega (arith, ip.place, tcp.long)) tcp.inside len (inl tcp.protocol)
create_packet_job-CreatedFrom raw p packet_id bytes (o, inr (t, ip, inr (inl udp)), len) k =
    make_job-CreatedFrom raw p packet_id t o bytes ip (locate-Udp raw.packet p t o ip udp)
      (omega (arith, ip.place, udp.place)) udp.inside len (inr udp.protocol)
create_packet_job-CreatedFrom raw p packet_id bytes (o, inr (t, ip, inr (inr n)), len) k =
    absurd (ground (arith, n.0, n.1))

-- What the reader's round gives: a job that was made of what the parser returned, or nothing.
abbrev pub ReadFrom : RawPacket → Option PacketJob → Type 0
ReadFrom raw none = Unit
ReadFrom raw (some job) = (p : ParsedPacket) × (parse raw ≡ some (some p)) × CreatedFrom raw p job

-- On every captured packet of bytes, truncated or malformed ones too, the reader's round reads
-- inside the packet only. It skips the packet, or makes a job of which the payload is the rest
-- of the packet from the end of its headers and lies in the packet, as long as the parser found
-- it, with the addresses that stand in the IPv4 header and TCP or UDP as the protocol.
pub read_job-ReadFrom :
    (raw : RawPacket) (packet_id : ℕ)
    → IsBytes raw.packet
    → (r : Option PacketJob) × (read_job raw packet_id ≡ some r) × ReadFrom raw r
read_job-ReadFrom raw packet_id bytes =
    let (r, e, h) = Ensures-some (OnSuccess (Parsed raw.packet)) (parse raw) (parse-Ensures raw) in
    from_parse r e h
  where
    from_parse :
        (r : Option ParsedPacket)
        → parse raw ≡ some r
        → OnSuccess (Parsed raw.packet) r
        → (s : Option PacketJob) × (read_job raw packet_id ≡ some s) × ReadFrom raw s
    from_parse none e h = (none, (unfold read_job attempt in rw e), tt)
    from_parse (some p) e h = elim (Bool-cases (not p.has_ip || (not p.has_tcp && not p.has_udp))) [
      | inl skipped ↦ (none, (unfold read_job attempt in rw (e, skipped)), tt)
      | inr kept ↦
          let (job, made, facts) = create_packet_job-CreatedFrom raw p packet_id bytes h kept in
          (some job, (unfold read_job attempt in rw (e, kept, made)), (p, e, facts))
    ]

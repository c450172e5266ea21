-- ===== src/Mt/Reader.antt =====
-- The reader's round of `DPIEngine::process` of src/dpi_mt.cpp, and `DPIEngine`'s of
-- src/dpi_engine.cpp that it repeats. A payload length that the source leaves unset, which it does
-- for packets of 14 bytes at most, counts as a read outside the packet.
use multi_threaded_dpi_engin.Base.{
  ℕ, ◌+◌, ◌-◌, ◌*◌, Bool, not, ◌&&◌, ◌||◌, ltb, if◌then◌else◌, Option, none, some, ◌>>=◌, Bytes,
  length, bit_and,
}
use multi_threaded_dpi_engin.Base.Bits.{shr}
use multi_threaded_dpi_engin.Inspect.Memory.{read}
use multi_threaded_dpi_engin.Rules.Address.{parse_ip}
use multi_threaded_dpi_engin.Packet.{RawPacket, ParsedPacket, parse}
use multi_threaded_dpi_engin.Mt.{Packet, Stats}

-- `payload_offset` from the transport header's offset.
unfoldable pub payload_start : Bytes → Bool → Bool → ℕ → Option ℕ
payload_start mem has_tcp has_udp start =
    if has_tcp && ltb (start + 12) (length mem)
    then (read mem (start + 12) >>= λ b. some (start + bit_and (shr b 4) 0x0f * 4))
    else if has_udp
    then some (start + 8)
    else some start

-- `payload_offset` and `payload_length`
unfoldable pub locate : Bytes → Bool → Bool → Option (ℕ × ℕ)
unfolding payload_start
locate mem has_tcp has_udp = if not (ltb 14 (length mem)) then none else do
  b ← read mem 14
  start ← payload_start mem has_tcp has_udp (14 + bit_and b 0x0f * 4)
  some (start, if ltb start (length mem) then length mem - start else 0)

-- The packet that the round makes.
unfoldable pub create_packet : RawPacket → ParsedPacket → ℕ → Option Packet
unfolding locate
create_packet raw parsed id = do
  src ← parse_ip parsed.src_ip
  dst ← parse_ip parsed.dest_ip
  (start, len) ← locate raw.packet parsed.has_tcp parsed.has_udp
  some (record {
    id = id;
    ts_sec = raw.ts_sec;
    ts_usec = raw.ts_usec;
    tuple = record {
      src_ip = src;
      dst_ip = dst;
      src_port = parsed.src_port;
      dst_port = parsed.dest_port;
      protocol = parsed.protocol;
    };
    packet = raw.packet;
    tcp_flags = parsed.tcp_flags;
    payload_offset = start;
    payload_length = len;
  })

-- The reader's counters.
unfoldable pub count_read : ParsedPacket → Packet → Stats → Stats
count_read parsed pkt stats = record stats {
  total_packets = stats.total_packets + 1;
  total_bytes = stats.total_bytes + length pkt.packet;
  tcp_packets = if parsed.has_tcp then stats.tcp_packets + 1 else stats.tcp_packets;
  udp_packets =
      if parsed.has_tcp
      then stats.udp_packets
      else if parsed.has_udp
      then stats.udp_packets + 1
      else stats.udp_packets;
}

-- The round: the packet skipped, or the one that goes to a balancer, and the counters.
unfoldable pub read_packet : RawPacket → ℕ → Stats → Option (Option Packet × Stats)
unfolding create_packet count_read
read_packet raw id stats = do
  r ← parse raw
  elim r [
    | none ↦ some (none, stats)
    | some parsed ↦
        if not parsed.has_ip || (not parsed.has_tcp && not parsed.has_udp)
        then some (none, stats)
        else do pkt ← create_packet raw parsed id; some (some pkt, count_read parsed pkt stats)
  ]

-- ===== src/Packet/Job.antt =====
-- `createPacketJob` of src/dpi_engine.cpp, and the part of the reader's round that makes the job.
use multi_threaded_dpi_engin.Base.{
  ℕ, ◌+◌, ◌-◌, ◌*◌, Bool, not, ◌&&◌, ◌||◌, ltb, leb, if◌then◌else◌, Option, none, some, ◌>>=◌,
  Bytes, length, bit_and,
}
use multi_threaded_dpi_engin.Base.Bits.{shr}
use multi_threaded_dpi_engin.Inspect.Memory.{read}
use multi_threaded_dpi_engin.Rules.Address.{parse_ip}
use multi_threaded_dpi_engin.Types.{PacketJob}
use multi_threaded_dpi_engin.Packet.{RawPacket, ParsedPacket, parse, attempt}

-- The transport header's length, added to its offset.
unfoldable pub payload_start : Bytes → Bool → Bool → ℕ → Option ℕ
payload_start mem has_tcp has_udp transport =
    if has_tcp && ltb (transport + 12) (length mem)
    then (read mem (transport + 12) >>= λ b. some (transport + bit_and (shr b 4) 0x0f * 4))
    else if has_udp && leb (transport + 8) (length mem)
    then some (transport + 8)
    else some 0

-- `transport_offset` and `payload_offset`.
unfoldable pub locate : Bytes → Bool → Bool → Option (ℕ × ℕ)
unfolding payload_start
locate mem has_tcp has_udp = if not (ltb 14 (length mem)) then some (0, 0) else do
  b ← read mem 14
  let transport = 14 + bit_and b 0x0f * 4
  payload ← payload_start mem has_tcp has_udp transport
  some (transport, payload)

-- The fields that `createPacketJob` fills in.
abbrev pub make_job : RawPacket → ParsedPacket → ℕ → ℕ → ℕ → ℕ × ℕ → PacketJob
make_job raw parsed packet_id src dst (transport, payload) = record {
  packet_id = packet_id;
  tuple = record {
    src_ip = src;
    dst_ip = dst;
    src_port = parsed.src_port;
    dst_port = parsed.dest_port;
    protocol = parsed.protocol;
  };
  packet = raw.packet;
  eth_offset = 0;
  ip_offset = 14;
  transport_offset = transport;
  payload_offset = payload;
  payload_length =
      if ltb 14 (length raw.packet) && ltb payload (length raw.packet)
      then length raw.packet - payload
      else 0;
  tcp_flags = parsed.tcp_flags;
  ts_sec = raw.ts_sec;
  ts_usec = raw.ts_usec;
}

-- `createPacketJob`; its parseIP is that of the rule manager.
unfoldable pub create_packet_job : RawPacket → ParsedPacket → ℕ → Option PacketJob
unfolding locate
create_packet_job raw parsed packet_id = do
  src ← parse_ip parsed.src_ip
  dst ← parse_ip parsed.dest_ip
  offsets ← locate raw.packet parsed.has_tcp parsed.has_udp
  some (make_job raw parsed packet_id src dst offsets)

-- The reader's round up to the choice of the balancer: the packet skipped, or its job.
unfoldable pub read_job : RawPacket → ℕ → Option (Option PacketJob)
unfolding attempt
read_job raw packet_id = attempt (parse raw) λ parsed.
    if not parsed.has_ip || (not parsed.has_tcp && not parsed.has_udp)
    then some none
    else do job ← create_packet_job raw parsed packet_id; some (some job)

-- ===== src/Engine/Stats.antt =====
-- `DPIStats` of include/types.h: the counters of the reader's loop and of the output callback in
-- src/dpi_engine.cpp. They stay below 2^64.
use multi_threaded_dpi_engin.Base.{
  ℕ, ◌+◌, ◌%◌, ◌^◌, not, ◌&&◌, ◌||◌, if◌then◌else◌, List, [], ◌∷◌, ◌++◌, Option, none, some, ◌>>=◌,
  length,
}
use multi_threaded_dpi_engin.Types.{PacketJob, PacketAction}
use multi_threaded_dpi_engin.FastPath.{is_drop}
use multi_threaded_dpi_engin.Packet.{RawPacket, ParsedPacket, attempt, parse}
use multi_threaded_dpi_engin.Packet.Job.{create_packet_job}

pub record DpiStats : Type 0 where
  pub total_packets : ℕ
  pub total_bytes : ℕ
  pub forwarded_packets : ℕ
  pub dropped_packets : ℕ
  pub tcp_packets : ℕ
  pub udp_packets : ℕ

abbrev pub no_stats : DpiStats
no_stats = record {
  total_packets = 0;
  total_bytes = 0;
  forwarded_packets = 0;
  dropped_packets = 0;
  tcp_packets = 0;
  udp_packets = 0;
}

-- The counters of a packet that a job was made of.
unfoldable pub count_read : RawPacket → ParsedPacket → DpiStats → DpiStats
count_read raw parsed stats = record stats {
  total_packets = stats.total_packets + 1;
  total_bytes = stats.total_bytes + length raw.packet;
  tcp_packets = if parsed.has_tcp then stats.tcp_packets + 1 else stats.tcp_packets;
  udp_packets =
      if not parsed.has_tcp && parsed.has_udp then stats.udp_packets + 1 else stats.udp_packets;
}

-- The reader's round up to the choice of the balancer, with its counters.
unfoldable pub read_counted : RawPacket → ℕ → DpiStats → Option (Option (PacketJob × DpiStats))
unfolding attempt count_read
read_counted raw packet_id stats = attempt (parse raw) λ parsed.
    if not parsed.has_ip || (not parsed.has_tcp && not parsed.has_udp) then some none else do
      job ← create_packet_job raw parsed packet_id
      some (some (job, count_read raw parsed stats))

-- The reader's loop.
unfoldable pub read_all : List RawPacket → ℕ → DpiStats → Option (List PacketJob × DpiStats)
unfolding read_counted
read_all [] packet_id stats = some ([], stats)
read_all (raw ∷ raws) packet_id stats = do
  r ← read_counted raw packet_id stats
  let skipped = read_all raws packet_id stats
  elim r [
    | none ↦ skipped
    | some made ↦
        (read_all raws ((packet_id + 1) % 2 ^ 32) made.1 >>= λ rest. some (made.0 ∷ rest.0, rest.1))
  ]

-- `handleOutput`, with the jobs that it pushes onto the output queue.
unfoldable pub handle_output : PacketJob → PacketAction → DpiStats → List PacketJob × DpiStats
handle_output job action stats =
    if is_drop action
    then ([], record stats { dropped_packets = stats.dropped_packets + 1 })
    else (job ∷ [], record stats { forwarded_packets = stats.forwarded_packets + 1 })

-- The calls of the fast paths, in any order.
unfoldable pub handle_outputs :
    List (PacketJob × PacketAction) → DpiStats → List PacketJob × DpiStats
unfolding handle_output
handle_outputs [] stats = ([], stats)
handle_outputs ((job, action) ∷ rest) stats =
    let (pushed, next) = handle_output job action stats in
    let (later, last) = handle_outputs rest next in (pushed ++ later, last)

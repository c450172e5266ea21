-- ===== src/Engine/Counted.antt =====
-- The counters of an engine of src/dpi_engine.cpp, from the reader to the output callback.
use multi_threaded_dpi_engin.Base.{
  ℕ, ◌+◌, ◌%◌, ◌^◌, false, not, ◌&&◌, ◌||◌, if◌then◌else◌, List, [], ◌∷◌, Option, none, some,
  Ensures-some, Bool-cases, inl, inr, length, ◌≡◌, refl, ap, ◌∙◌, arith,
}
use multi_threaded_dpi_engin.Types.{PacketJob, PacketAction, drop}
use multi_threaded_dpi_engin.FastPath.{is_drop}
use multi_threaded_dpi_engin.Packet.{RawPacket, ParsedPacket, attempt, parse}
use multi_threaded_dpi_engin.Packet.Layout.{OnSuccess}
use multi_threaded_dpi_engin.Packet.Accepted.{Parsed, parse-Ensures}
use multi_threaded_dpi_engin.Packet.Job.{read_job}
use multi_threaded_dpi_engin.Packet.Reader.{IsBytes, create_packet_job-CreatedFrom}
use multi_threaded_dpi_engin.Packet.Capture.{read_jobs, AllBytes}
use multi_threaded_dpi_engin.Engine.Stats.{
  DpiStats, no_stats, count_read, read_counted, read_all, handle_output, handle_outputs,
}

abbrev pub bytes_of : List PacketJob → ℕ
bytes_of [] = 0
bytes_of (job ∷ jobs) = length job.packet + bytes_of jobs

-- What has been counted for these jobs.
pub record ReadMore (jobs : List PacketJob) (s t : DpiStats) : Type 0 where
  pub total : t.total_packets ≡ s.total_packets + length jobs
  pub bytes : t.total_bytes ≡ s.total_bytes + bytes_of jobs
  pub transport : t.tcp_packets + t.udp_packets ≡ s.tcp_packets + s.udp_packets + length jobs
  pub forwarded : t.forwarded_packets ≡ s.forwarded_packets
  pub dropped : t.dropped_packets ≡ s.dropped_packets

-- The round with its counters makes the job that the round without them makes.
abbrev Round : RawPacket → ℕ → DpiStats → Option PacketJob → Type 0
Round raw packet_id s none = read_counted raw packet_id s ≡ some none
Round raw packet_id s (some job) =
    (t : DpiStats) × (read_counted raw packet_id s ≡ some (some (job, t))) × ReadMore (job ∷ []) s t

count_read-ReadMore :
    (raw : RawPacket) (p : ParsedPacket) (job : PacketJob) (s : DpiStats)
    → (not p.has_ip || (not p.has_tcp && not p.has_udp)) ≡ false
    → job.packet ≡ raw.packet
    → ReadMore (job ∷ []) s (count_read raw p s)
unfolding count_read
count_read-ReadMore raw p job s kept same = record {
  total = refl;
  bytes = omega (arith, ap length same);
  transport = ground arith;
  forwarded = refl;
  dropped = refl;
}

read_counted-Round :
    (raw : RawPacket) (packet_id : ℕ) (s : DpiStats)
    → IsBytes raw.packet
    → (r : Option PacketJob) × (read_job raw packet_id ≡ some r) × Round raw packet_id s r
read_counted-Round raw packet_id s bytes =
    let (r, e, h) = Ensures-some (OnSuccess (Parsed raw.packet)) (parse raw) (parse-Ensures raw) in
    from_parse r e h
  where
    from_parse :
        (r : Option ParsedPacket)
        → parse raw ≡ some r
        → OnSuccess (Parsed raw.packet) r
        → (o : Option PacketJob) × (read_job raw packet_id ≡ some o) × Round raw packet_id s o
    from_parse none e h =
        (none, (unfold read_job attempt in rw e), (unfold read_counted attempt in rw e))
    from_parse (some p) e h = elim (Bool-cases (not p.has_ip || (not p.has_tcp && not p.has_udp))) [
      | inl skipped ↦ (
        none,
        (unfold read_job attempt in rw (e, skipped)),
        (unfold read_counted attempt in rw (e, skipped)),
      )
      | inr kept ↦
          let (job, made, facts) = create_packet_job-CreatedFrom raw p packet_id bytes h kept in
          (
            some job,
            (unfold read_job attempt in rw (e, kept, made)),
            (
              count_read raw p s,
              (unfold read_counted attempt in rw (e, kept, made)),
              count_read-ReadMore raw p job s kept facts.same_packet,
            ),
          )
    ]

-- The reader's loop with its counters makes the jobs that it makes without them.
abbrev LoopResult : List RawPacket → ℕ → DpiStats → Type 0
LoopResult raws packet_id s =
    (jobs : List PacketJob) × (t : DpiStats) × (read_jobs raws packet_id ≡ some jobs)
    × (read_all raws packet_id s ≡ some (jobs, t))
    × ReadMore jobs s t

read_next :
    (raw : RawPacket) (raws : List RawPacket) (packet_id : ℕ) (s : DpiStats) (r : Option PacketJob)
    → read_job raw packet_id ≡ some r
    → Round raw packet_id s r
    → ((i : ℕ) (t : DpiStats) → LoopResult raws i t)
    → LoopResult (raw ∷ raws) packet_id s
unfolding read_all read_jobs
read_next raw raws packet_id s none e f later =
    let (jobs, t, g, k, more) = later packet_id s in (jobs, t, rw (e, g), rw (f, k), more)
read_next raw raws packet_id s (some job) e (t, f, one) later =
    let (jobs, u, g, k, more) = later ((packet_id + 1) % 2 ^ 32) t in
    (
      job ∷ jobs,
      u,
      rw (e, g),
      rw (f, k),
      record {
        total = omega (arith, one.total, more.total);
        bytes = omega (arith, one.bytes, more.bytes);
        transport = omega (arith, one.transport, more.transport);
        forwarded = more.forwarded ∙ one.forwarded;
        dropped = more.dropped ∙ one.dropped;
      },
    )

read_all-ReadMore :
    (raws : List RawPacket) (packet_id : ℕ) (s : DpiStats)
    → AllBytes raws
    → LoopResult raws packet_id s
unfolding read_all read_jobs
read_all-ReadMore [] packet_id s bytes = (
  [],
  s,
  refl,
  refl,
  record {
    total = omega arith;
    bytes = omega arith;
    transport = omega arith;
    forwarded = refl;
    dropped = refl;
  },
)
read_all-ReadMore (raw ∷ raws) packet_id s bytes =
    let (r, e, made) = read_counted-Round raw packet_id s bytes.0 in
    read_next raw raws packet_id s r e made (λ i t. read_all-ReadMore raws i t bytes.1)

-- The jobs that were not dropped, in their order.
abbrev forwarded_jobs : List (PacketJob × PacketAction) → List PacketJob
forwarded_jobs [] = []
forwarded_jobs ((job, action) ∷ rest) =
    if is_drop action then forwarded_jobs rest else job ∷ forwarded_jobs rest

-- What the calls of the output callback have done.
record Handled (outs : List (PacketJob × PacketAction)) (s : DpiStats)
    (r : List PacketJob × DpiStats) : Type 0 where
  pushed : r.0 ≡ forwarded_jobs outs
  forwarded : r.1.forwarded_packets ≡ s.forwarded_packets + length (forwarded_jobs outs)
  all :
      r.1.forwarded_packets + r.1.dropped_packets
      ≡ s.forwarded_packets + s.dropped_packets + length outs
  total : r.1.total_packets ≡ s.total_packets

handle_outputs-Handled :
    (outs : List (PacketJob × PacketAction)) (s : DpiStats) → Handled outs s (handle_outputs outs s)
unfolding handle_outputs handle_output
handle_outputs-Handled [] s = record {
  pushed = refl;
  forwarded = omega arith;
  all = omega arith;
  total = refl;
}
handle_outputs-Handled ((job, drop) ∷ rest) s =
    let later =
      handle_outputs-Handled rest (record s { dropped_packets = s.dropped_packets + 1 }) in
    record {
      pushed = later.pushed;
      forwarded = later.forwarded;
      all = omega (arith, later.all);
      total = later.total;
    }
handle_outputs-Handled ((job, other) ∷ rest) s =
    let later =
      handle_outputs-Handled rest (record s { forwarded_packets = s.forwarded_packets + 1 }) in
    record {
      pushed = ap (λ l. job ∷ l) later.pushed;
      forwarded = omega (arith, later.forwarded);
      all = omega (arith, later.all);
      total = later.total;
    }

-- Whatever packets a capture holds, the reader makes its jobs and counts each of them, once in all
-- and once by its transport. When the fast paths have made as many calls of the output callback as
-- there are jobs, in any order, the packets counted are those forwarded and those dropped, and as
-- many jobs were pushed to the output as were forwarded.
pub read_all-balanced :
    (raws : List RawPacket) (calls : List PacketJob → List (PacketJob × PacketAction))
    → AllBytes raws
    → ((jobs : List PacketJob) → length (calls jobs) ≡ length jobs)
    → (jobs : List PacketJob) × (s : DpiStats) × (pushed : List PacketJob) × (t : DpiStats)
      × (read_jobs raws 0 ≡ some jobs)
      × (read_all raws 0 no_stats ≡ some (jobs, s))
      × (s.total_packets ≡ s.tcp_packets + s.udp_packets)
      × (s.total_packets ≡ length jobs)
      × (handle_outputs (calls jobs) s ≡ (pushed, t))
      × (t.total_packets ≡ t.forwarded_packets + t.dropped_packets)
      × (t.forwarded_packets ≡ length pushed)
read_all-balanced raws calls bytes as_many =
    let (jobs, s, e, f, more) = read_all-ReadMore raws 0 no_stats bytes in
    let done = handle_outputs-Handled (calls jobs) s in
    let same = as_many jobs in
    let both = handle_outputs (calls jobs) s in
    (
      jobs,
      s,
      both.0,
      both.1,
      e,
      f,
      omega (arith, more.total, more.transport),
      omega (arith, more.total),
      refl,
      omega (arith, done.total, done.all, more.total, more.forwarded, more.dropped, same),
      omega (arith, done.forwarded, more.forwarded, ap length done.pushed),
    )

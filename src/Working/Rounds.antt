-- ===== src/Working/Rounds.antt =====
-- The rounds of src/main_working.cpp against the jobs that the reader of src/dpi_engine.cpp makes.
use multi_threaded_dpi_engin.Base.{
  ℕ, ◌+◌, ◌<◌, ◌≡◌, refl, sym, ap, ◌∙◌, inl, inr, Bool, true, false, not, ◌&&◌, ◌||◌, if◌then◌else◌,
  ◌++◌, append_assoc, Option, none, some, Bool-cases, Ensures, bind-Ensures, Ensures-some, arith,
  Bytes, length,
}
use multi_threaded_dpi_engin.Base.Eq.{nat_eq, contains}
use multi_threaded_dpi_engin.Base.Assoc.{
  at_key, put, total, at_key-put_self, at_key-put_other, total-count,
}
use multi_threaded_dpi_engin.Rules.Address.{parse_ip-ip_to_string}
use multi_threaded_dpi_engin.Types.{PacketJob}
use multi_threaded_dpi_engin.Types.App.{app_eq}
use multi_threaded_dpi_engin.Types.Flow.{FiveTuple, flow_eq}
use multi_threaded_dpi_engin.Types.Cut.{Judged}
use multi_threaded_dpi_engin.Packet.{RawPacket, ParsedPacket, parse, attempt}
use multi_threaded_dpi_engin.Packet.Layout.{OnSuccess, Ipv4}
use multi_threaded_dpi_engin.Packet.Accepted.{Parsed, parse-Ensures}
use multi_threaded_dpi_engin.Packet.Job as Job
use multi_threaded_dpi_engin.Packet.Job.{make_job, create_packet_job, read_job}
use multi_threaded_dpi_engin.Packet.Reader as Reader
use multi_threaded_dpi_engin.Packet.Reader.{IsBytes, load_u32-bound}
use multi_threaded_dpi_engin.Engine.Output.{job_header_bytes}
use multi_threaded_dpi_engin.Mt.Blocking.{BlockingRules, is_blocked}
use multi_threaded_dpi_engin.Working.{
  Flow, State, new_flow, make_tuple, count_packet, judge, settle, record_bytes, run_parsed,
  run_packet,
}
use multi_threaded_dpi_engin.Working.Flows.{Asked, judge-Asked}

-- What the engine's reader makes of a packet, and what this loop takes from it.
abbrev Same : RawPacket → ParsedPacket → ℕ → PacketJob → Type 0
Same raw p id job =
    (create_packet_job raw p id ≡ some job)
    × (make_tuple p ≡ some job.tuple)
    × (14 < length raw.packet)
    × (job.packet ≡ raw.packet)
    × (job.ts_sec ≡ raw.ts_sec)
    × (job.ts_usec ≡ raw.ts_usec)

make_job-Same :
    (raw : RawPacket) (p : ParsedPacket) (id t o : ℕ)
    → IsBytes raw.packet
    → Ipv4 raw.packet p t
    → Job.locate raw.packet p.has_tcp p.has_udp ≡ some (t, o)
    → 14 < length raw.packet
    → (job : PacketJob) × Same raw p id job
unfolding create_packet_job make_tuple
make_job-Same raw p id t o bytes ip found long =
    let src_bound = load_u32-bound raw.packet 26 ip.src bytes ip.src_read in
    let dst_bound = load_u32-bound raw.packet 30 ip.dst bytes ip.dst_read in
    let src = parse_ip-ip_to_string ip.src src_bound in
    let dst = parse_ip-ip_to_string ip.dst dst_bound in
    (
      make_job raw p id ip.src ip.dst (t, o),
      (
        rw (ip.src_text, ip.dst_text, src, dst, found),
        rw (ip.src_text, ip.dst_text, src, dst),
        long,
        refl,
        refl,
        refl,
      ),
    )

accepted-Same :
    (raw : RawPacket) (p : ParsedPacket) (id : ℕ)
    → IsBytes raw.packet
    → Parsed raw.packet p
    → (not p.has_ip || (not p.has_tcp && not p.has_udp)) ≡ false
    → (job : PacketJob) × Same raw p id job
accepted-Same raw p id bytes (o, inl bare, len) k = absurd (ground arith)
accepted-Same raw p id bytes (o, inr (t, ip, inl tcp), len) k =
    make_job-Same raw p id t o bytes ip (Reader.locate-Tcp raw.packet p t o ip tcp)
      (omega (arith, ip.place, tcp.long, tcp.inside))
accepted-Same raw p id bytes (o, inr (t, ip, inr (inl udp)), len) k =
    make_job-Same raw p id t o bytes ip (Reader.locate-Udp raw.packet p t o ip udp)
      (omega (arith, ip.place, udp.place, udp.inside))
accepted-Same raw p id bytes (o, inr (t, ip, inr (inr n)), len) k =
    absurd (ground (arith, n.0, n.1))

-- The flow is blocked in the table.
abbrev pub flow_blocked : FiveTuple → State → Bool
flow_blocked t s = (at_key t (new_flow t) s.flows).blocked

-- What a round with an accepted packet does, from the state before it.
pub record Done (rules : BlockingRules) (raw : RawPacket) (job : PacketJob) (s u : State)
    : Type 0 where
  pub same_packet : job.packet ≡ raw.packet
  pub same_sec : job.ts_sec ≡ raw.ts_sec
  pub same_usec : job.ts_usec ≡ raw.ts_usec
  pub passed : Bool
  pub cut : Judged (λ (j : PacketJob). j.tuple) flow_blocked job passed s u
  pub allowed : passed ≡ true → contains job.tuple.src_ip rules.blocked_ips ≡ false
  pub total_packets : u.total_packets ≡ s.total_packets + 1
  pub sorted : u.forwarded + u.dropped ≡ s.forwarded + s.dropped + 1
  pub forwarded : u.forwarded ≡ s.forwarded + (if passed then 1 else 0)
  pub apps : total u.app_stats ≡ total s.app_stats + 1
  pub output :
      u.output ≡ (if passed then s.output ++ job_header_bytes job ++ job.packet else s.output)

-- A round skips what the engine's reader skips, and counts it only.
abbrev pub Did : BlockingRules → RawPacket → Option PacketJob → State → State → Type 0
Did rules raw none s u = u ≡ record s { total_packets = s.total_packets + 1 }
Did rules raw (some job) s u = Done rules raw job s u

settle-flows :
    (raw : RawPacket) (tuple : FiveTuple) (f : Flow) (s : State)
    → (settle raw tuple f s).flows ≡ put tuple f s.flows
unfolding settle
settle-flows raw tuple f s = elim (Bool-cases f.blocked) [ inl shut ↦ rw shut | inr free ↦ rw free ]

unnegate : (b : Bool) → b ≡ not (not b)
unnegate true = refl
unnegate false = refl

record_bytes-job :
    (raw : RawPacket) (job : PacketJob) (file : Bytes)
    → job.packet ≡ raw.packet
    → job.ts_sec ≡ raw.ts_sec
    → job.ts_usec ≡ raw.ts_usec
    → file ++ record_bytes raw ≡ file ++ job_header_bytes job ++ job.packet
record_bytes-job raw job file same sec usec =
    rw (same, sec, usec) (sym (append_assoc file _ raw.packet))

settle-Done :
    (rules : BlockingRules) (raw : RawPacket) (job : PacketJob) (s : State) (f : Flow)
    → job.packet ≡ raw.packet
    → job.ts_sec ≡ raw.ts_sec
    → job.ts_usec ≡ raw.ts_usec
    → Asked rules job.tuple (count_packet job.tuple raw s.flows) f
    → Done rules raw job s
        (settle raw job.tuple f (record s { total_packets = s.total_packets + 1 }))
unfolding settle is_blocked
settle-Done rules raw job s f same sec usec (a, b, c) = record {
  same_packet = same;
  same_sec = sec;
  same_usec = usec;
  passed = not f.blocked;
  cut = record {
    after =
        ap (λ t. (at_key job.tuple (new_flow job.tuple) t).blocked) stored
        ∙ ap (λ (g : Flow). g.blocked) (at_key-put_self job.tuple f (new_flow job.tuple) s.flows)
        ∙ unnegate f.blocked;
    keeps = λ h. ground (arith, h);
    others = λ t other.
        ap (λ u. (at_key t (new_flow t) u).blocked) stored
        ∙ ap (λ (g : Flow). g.blocked) (at_key-put_other job.tuple t f (new_flow t) s.flows other);
  };
  allowed = λ h. ground arith;
  total_packets = ground arith;
  sorted = ground arith;
  forwarded = ground arith;
  apps = ground (arith, total-count f.app_type s.app_stats);
  output = elim (Bool-cases f.blocked) [
    | inl shut ↦ rw shut
    | inr free ↦ rw free (record_bytes-job raw job s.output same sec usec)
  ];
}
  where
    stored :
        (settle raw job.tuple f (record s { total_packets = s.total_packets + 1 })).flows
        ≡ put job.tuple f s.flows
    stored = settle-flows raw job.tuple f (record s { total_packets = s.total_packets + 1 })

-- Every round reads inside the packet only.
pub run_packet-Did :
    (rules : BlockingRules) (raw : RawPacket) (id : ℕ) (s : State)
    → IsBytes raw.packet
    → (r : Option PacketJob) × (read_job raw id ≡ some r)
      × Ensures (Did rules raw r s) (run_packet rules raw s)
run_packet-Did rules raw id s bytes =
    let (r, e, h) = Ensures-some (OnSuccess (Parsed raw.packet)) (parse raw) (parse-Ensures raw) in
    from_parse r e h
  where
    counted : State
    counted = record s { total_packets = s.total_packets + 1 }

    Both : Type 0
    Both =
        (r : Option PacketJob) × (read_job raw id ≡ some r)
        × Ensures (Did rules raw r s) (run_packet rules raw s)

    from_parse :
        (r : Option ParsedPacket) → parse raw ≡ some r → OnSuccess (Parsed raw.packet) r → Both
    from_parse none e h =
        (none, (unfold read_job attempt in rw e), (unfold run_packet in rw e refl))
    from_parse (some p) e h = elim (Bool-cases (not p.has_ip || (not p.has_tcp && not p.has_udp))) [
      | inl skipped ↦ (
        none,
        (unfold read_job attempt in rw (e, skipped)),
        (unfold run_packet in rw (e, skipped) refl),
      )
      | inr kept ↦
          let (job, (made, tuple, long, same, sec, usec)) = accepted-Same raw p id bytes h kept in
          (
            some job,
            (unfold read_job attempt in rw (e, kept, made)),
            (unfold run_packet run_parsed in
                rw (e, kept, tuple)
                  (bind-Ensures (Asked rules job.tuple (count_packet job.tuple raw s.flows))
                    (Done rules raw job s)
                    (judge rules raw.packet p job.tuple (count_packet job.tuple raw s.flows)) _
                    (judge-Asked rules raw.packet p job.tuple (count_packet job.tuple raw s.flows)
                      long)
                    λ f asked. settle-Done rules raw job s f same sec usec asked)),
          )
    ]

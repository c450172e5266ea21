-- ===== src/Packet/Capture.antt =====
-- The reader's loop over a capture, and a fast path that gets its packets.
use multi_threaded_dpi_engin.Base.{
  ℕ, ◌+◌, ◌%◌, ◌^◌, ◌≡◌, refl, List, [], ◌∷◌, Option, none, some, ◌>>=◌,
}
use multi_threaded_dpi_engin.Types.{PacketJob, PacketAction}
use multi_threaded_dpi_engin.Rules.{RuleManager}
use multi_threaded_dpi_engin.Tracker.{Clock}
use multi_threaded_dpi_engin.FastPath.{FastPath}
use multi_threaded_dpi_engin.FastPath.Inspection.{InPacket}
use multi_threaded_dpi_engin.FastPath.Run.{Event, packet, run, AllInPacket, IsValid, Ran, run-Ran}
use multi_threaded_dpi_engin.Packet.{RawPacket}
use multi_threaded_dpi_engin.Packet.Job.{read_job}
use multi_threaded_dpi_engin.Packet.Reader.{IsBytes, ReadFrom, read_job-ReadFrom}

-- A job goes to its balancer and takes the next id; a packet that was skipped takes none.
unfoldable pub read_jobs : List RawPacket → ℕ → Option (List PacketJob)
read_jobs [] packet_id = some []
read_jobs (raw ∷ raws) packet_id = do
  r ← read_job raw packet_id
  let skipped = read_jobs raws packet_id
  let kept = read_jobs raws ((packet_id + 1) % 2 ^ 32)
  elim r [ none ↦ skipped | some job ↦ (kept >>= λ rest. some (job ∷ rest)) ]

abbrev pub AllBytes : List RawPacket → Type 0
AllBytes [] = Unit
AllBytes (raw ∷ raws) = IsBytes raw.packet × AllBytes raws

-- The rounds of a fast path that gets these jobs, under the rules and at the time of each.
abbrev pub rounds : (PacketJob → Option RuleManager × Clock) → List PacketJob → List Event
rounds at [] = []
rounds at (job ∷ jobs) = packet (at job).0 (at job).1 job ∷ rounds at jobs

ReadFrom-InPacket : (raw : RawPacket) (job : PacketJob) → ReadFrom raw (some job) → InPacket job
ReadFrom-InPacket raw job (p, e, made) = made.inside

read_jobs-AllInPacket :
    (raws : List RawPacket) (packet_id : ℕ) (at : PacketJob → Option RuleManager × Clock)
    → AllBytes raws
    → (jobs : List PacketJob) × (read_jobs raws packet_id ≡ some jobs)
      × AllInPacket (rounds at jobs)
unfolding read_jobs
read_jobs-AllInPacket [] packet_id at h = ([], refl, tt)
read_jobs-AllInPacket (raw ∷ raws) packet_id at h =
    let (r, e, k) = read_job-ReadFrom raw packet_id h.0 in
    next r e k (λ i. read_jobs-AllInPacket raws i at h.1)
  where
    Good : List RawPacket → ℕ → Type 0
    Good rs i =
        (jobs : List PacketJob) × (read_jobs rs i ≡ some jobs) × AllInPacket (rounds at jobs)

    next :
        (r : Option PacketJob)
        → read_job raw packet_id ≡ some r
        → ReadFrom raw r
        → ((i : ℕ) → Good raws i)
        → Good (raw ∷ raws) packet_id
    next none e k later = let (jobs, f, inside) = later packet_id in (jobs, rw (e, f), inside)
    next (some job) e k later =
        let (jobs, f, inside) = later ((packet_id + 1) % 2 ^ 32) in
        (job ∷ jobs, rw (e, f), (ReadFrom-InPacket raw job k, inside))

-- From the bytes of a capture to the verdicts: whatever packets a capture holds, the reader makes
-- jobs of it with no read outside a packet, and a valid fast path that is given all these jobs,
-- under any rules and at any time for each, ends its run, gives one action for each job, and is
-- valid after it.
pub read_jobs-Ran :
    (raws : List RawPacket) (packet_id : ℕ) (at : PacketJob → Option RuleManager × Clock)
    (fp : FastPath)
    → AllBytes raws
    → IsValid fp
    → (jobs : List PacketJob) × (read_jobs raws packet_id ≡ some jobs)
      × ((r : List PacketAction × FastPath) × (run (rounds at jobs) fp ≡ some r)
          × Ran (rounds at jobs) fp r)
read_jobs-Ran raws packet_id at fp bytes v =
    let (jobs, e, inside) = read_jobs-AllInPacket raws packet_id at bytes in
    (jobs, e, run-Ran (rounds at jobs) fp inside v)

-- ===== src/Working/Run.antt =====
-- Whole runs of src/main_working.cpp.
use multi_threaded_dpi_engin.Base.{
  AllOf, ℕ, zero, suc, ◌+◌, ◌%◌, ◌^◌, ◌≡◌, refl, sym, ap, ◌∙◌, false, if◌then◌else◌, List, [], ◌∷◌,
  ◌++◌, Option, none, some, ◌>>=◌, Ensures-some, Bool-cases, inl, inr, arith, length,
}
use multi_threaded_dpi_engin.Base.Eq.{nat_eq, contains}
use multi_threaded_dpi_engin.Base.Assoc.{total}
use multi_threaded_dpi_engin.Types.{PacketJob}
use multi_threaded_dpi_engin.Types.App.{app_eq}
use multi_threaded_dpi_engin.Types.Flow.{FiveTuple}
use multi_threaded_dpi_engin.Types.Cut.{Orderly, round-Orderly}
use multi_threaded_dpi_engin.Packet.{RawPacket}
use multi_threaded_dpi_engin.Packet.Job.{read_job}
use multi_threaded_dpi_engin.Packet.Capture.{read_jobs, AllBytes}
use multi_threaded_dpi_engin.Pcap.{PcapReader, read_packets, read_next_packet}
use multi_threaded_dpi_engin.Pcap.Images.{IsCaptured, AllCaptured}
use multi_threaded_dpi_engin.Engine.Output.{
  write_jobs, write_output_packet, job_header_bytes, IsWritable, AllWritable,
}
use multi_threaded_dpi_engin.Mt.Blocking.{BlockingRules}
use multi_threaded_dpi_engin.Working.{State, run_packet, run_file}
use multi_threaded_dpi_engin.Working.Rounds.{flow_blocked, Done, Did, run_packet-Did}

-- The rounds with these packets.
unfoldable pub run_rounds : BlockingRules → List RawPacket → State → Option State
run_rounds rules [] s = some s
run_rounds rules (raw ∷ raws) s = run_packet rules raw s >>= run_rounds rules raws

bind_none :
    {A B : Type 0} → (m : Option A) (f : A → Option B) → ((a : A) → f a ≡ none) → m >>= f ≡ none
bind_none none f h = refl
bind_none (some a) f h = h a

-- Reading all packets before the first round makes no difference.
module _ (rules : BlockingRules) (raw : RawPacket) (s : State) where
  swap :
      (read : Option (List RawPacket)) (m : Option State) (later : State → Option State)
      → m ≡ run_packet rules raw s
      → ((t : State) → later t ≡ (read >>= λ raws. run_rounds rules raws t))
      → (m >>= later) ≡ ((read >>= λ raws. some (raw ∷ raws)) >>= λ raws. run_rounds rules raws s)
  unfolding run_rounds
  swap none m later e ih = bind_none m later ih
  swap (some raws) none later e ih = ap (λ n. n >>= run_rounds rules raws) e
  swap (some raws) (some t) later e ih = ih t ∙ ap (λ n. n >>= run_rounds rules raws) e

-- The packets that were read, and the rounds with them.
pub run_file-read_packets :
    (fuel : ℕ) (rules : BlockingRules) (reader : PcapReader) (s : State)
    → run_file fuel rules reader s ≡ (read_packets fuel reader >>= λ raws. run_rounds rules raws s)
unfolding run_file read_packets
run_file-read_packets zero rules reader s = refl
run_file-read_packets (suc fuel) rules reader s =
    let (next, after) = read_next_packet reader in
    from next after (λ t. run_file-read_packets fuel rules after t)
  where
    from :
        (next : Option RawPacket) (after : PcapReader)
        → ((t : State)
            → run_file fuel rules after t
              ≡ (read_packets fuel after >>= λ raws. run_rounds rules raws t))
        → elim next [
          | none ↦ some s
          | some raw ↦ (run_packet rules raw s >>= λ t. run_file fuel rules after t)
        ]
          ≡ (elim next [
            | none ↦ some []
            | some raw ↦ (read_packets fuel after >>= λ raws. some (raw ∷ raws))
          ]
              >>= λ raws. run_rounds rules raws s)
    from none after ih = unfold run_rounds in refl
    from (some raw) after ih =
        swap rules raw s (read_packets fuel after) (run_packet rules raw s)
          (run_file fuel rules after) refl ih

-- The job's source is not a blocked address.
abbrev pub IsAllowed : BlockingRules → PacketJob → Type 0
IsAllowed rules job = contains job.tuple.src_ip rules.blocked_ips ≡ false

-- What the loop has done: of the packets that the engine's reader makes jobs of it has written
-- those in `out`, and counted all.
pub record Ran (rules : BlockingRules) (raws : List RawPacket) (jobs out : List PacketJob)
    (s u : State) : Type 0 where
  pub total_packets : u.total_packets ≡ s.total_packets + length raws
  pub sorted : u.forwarded + u.dropped ≡ s.forwarded + s.dropped + length jobs
  pub forwarded : u.forwarded ≡ s.forwarded + length out
  pub apps : total u.app_stats ≡ total s.app_stats + length jobs
  pub output : write_jobs out (some s.output) ≡ some u.output
  pub allowed : AllOf (IsAllowed rules) out
  pub orderly : (t : FiveTuple) → Orderly (λ (j : PacketJob). j.tuple) flow_blocked t s jobs out u
  pub captured : (n : ℕ) → AllCaptured n raws → AllWritable n out

abbrev pub Good : BlockingRules → List RawPacket → ℕ → State → Type 0
Good rules raws id s =
    (jobs : List PacketJob) × (out : List PacketJob) × (u : State) × (read_jobs raws id ≡ some jobs)
    × (run_rounds rules raws s ≡ some u)
    × Ran rules raws jobs out s u

module _ (rules : BlockingRules) (raw : RawPacket) (raws : List RawPacket) (id : ℕ)
    (s : State) where
  abbrev skipped : State
  skipped = record s { total_packets = s.total_packets + 1 }

  after_skipped :
      read_job raw id ≡ some none
      → run_packet rules raw s ≡ some skipped
      → Good rules raws id skipped
      → Good rules (raw ∷ raws) id s
  unfolding read_jobs run_rounds
  after_skipped e round (jobs, out, u, reads, rounds, r) = (
    jobs,
    out,
    u,
    rw (e, reads),
    rw (round, rounds),
    record {
      total_packets = omega (arith, r.total_packets);
      sorted = r.sorted;
      forwarded = r.forwarded;
      apps = r.apps;
      output = r.output;
      allowed = r.allowed;
      orderly = r.orderly;
      captured = λ n h. r.captured n h.1;
    },
  )

-- What a job adds to those written.
module _ (rules : BlockingRules) (raw : RawPacket) (job : PacketJob) (s v : State)
    (did : Done rules raw job s v) (out : List PacketJob) where
  abbrev written_of : List PacketJob
  written_of = if did.passed then job ∷ out else out

  length-written_of : length written_of ≡ (if did.passed then 1 else 0) + length out
  length-written_of = elim (Bool-cases did.passed) [
    | inl passed ↦ rw passed (omega arith)
    | inr dropped ↦ rw dropped (omega arith)
  ]

  AllOf-written_of : AllOf (IsAllowed rules) out → AllOf (IsAllowed rules) written_of
  AllOf-written_of h = elim (Bool-cases did.passed) [
    | inl passed ↦ rw passed (did.allowed passed, h)
    | inr dropped ↦ rw dropped h
  ]

  write_jobs-written_of : write_jobs written_of (some s.output) ≡ write_jobs out (some v.output)
  write_jobs-written_of = elim (Bool-cases did.passed) [
    | inl passed ↦
        ap (λ b. write_jobs (if b then job ∷ out else out) (some s.output)) passed
        ∙ (unfold write_jobs write_output_packet in
            ap (λ o. write_jobs out (some o))
              (sym (
                did.output
                ∙ ap (λ b. if b then s.output ++ job_header_bytes job ++ job.packet else s.output)
                    passed)))
    | inr dropped ↦
        ap (λ b. write_jobs (if b then job ∷ out else out) (some s.output)) dropped
        ∙ ap (λ o. write_jobs out (some o))
            (sym (
              did.output
              ∙ ap (λ b. if b then s.output ++ job_header_bytes job ++ job.packet else s.output)
                  dropped))
  ]

  IsWritable-job : (n : ℕ) → IsCaptured n raw → IsWritable n job
  IsWritable-job n (a, b, c, d, e, f) =
      rw (did.same_sec, did.same_usec, did.same_packet) (a, b, omega arith, omega arith)

  AllWritable-written_of : (n : ℕ) → IsCaptured n raw → AllWritable n out → AllWritable n written_of
  AllWritable-written_of n h k = elim (Bool-cases did.passed) [
    | inl passed ↦ rw passed (IsWritable-job n h, k)
    | inr dropped ↦ rw dropped k
  ]

after_job :
    (rules : BlockingRules) (raw : RawPacket) (raws : List RawPacket) (id : ℕ) (s v : State)
    (job : PacketJob)
    → run_packet rules raw s ≡ some v
    → read_job raw id ≡ some (some job)
    → Done rules raw job s v
    → Good rules raws ((id + 1) % 2 ^ 32) v
    → Good rules (raw ∷ raws) id s
unfolding read_jobs run_rounds
after_job rules raw raws id s v job round e did (jobs, out, u, reads, rounds, r) = (
  job ∷ jobs,
  (if did.passed then job ∷ out else out),
  u,
  rw (e, reads),
  rw (round, rounds),
  record {
    total_packets = omega (arith, r.total_packets, did.total_packets);
    sorted = omega (arith, r.sorted, did.sorted);
    forwarded =
        omega (arith, r.forwarded, did.forwarded, length-written_of rules raw job s v did out);
    apps = omega (arith, r.apps, did.apps);
    output = write_jobs-written_of rules raw job s v did out ∙ r.output;
    allowed = AllOf-written_of rules raw job s v did out r.allowed;
    orderly = λ t.
        round-Orderly (λ (j : PacketJob). j.tuple) flow_blocked t job jobs out s v u did.passed
          did.cut (r.orderly t);
    captured = λ n h. AllWritable-written_of rules raw job s v did out n h.0 (r.captured n h.1);
  },
)

pub run_rounds-Good :
    (rules : BlockingRules) (raws : List RawPacket) (id : ℕ) (s : State)
    → AllBytes raws
    → Good rules raws id s
unfolding read_jobs run_rounds
run_rounds-Good rules [] id s h = (
  [],
  [],
  s,
  refl,
  refl,
  record {
    total_packets = omega arith;
    sorted = omega arith;
    forwarded = omega arith;
    apps = omega arith;
    output = unfold write_jobs in refl;
    allowed = tt;
    orderly = λ t. (([], refl), (λ b. (refl, b)));
    captured = λ n h. tt;
  },
)
run_rounds-Good rules (raw ∷ raws) id s h =
    let (r, e, ensured) = run_packet-Did rules raw id s h.0 in
    let (v, round, did) = Ensures-some (Did rules raw r s) (run_packet rules raw s) ensured in
    next r v e round did (λ i t. run_rounds-Good rules raws i t h.1)
  where
    next :
        (r : Option PacketJob) (v : State)
        → read_job raw id ≡ some r
        → run_packet rules raw s ≡ some v
        → Did rules raw r s v
        → ((i : ℕ) (t : State) → Good rules raws i t)
        → Good rules (raw ∷ raws) id s
    next none v e round did later =
        after_skipped rules raw raws id s e (round ∙ ap some did)
          (later id (skipped rules raw raws id s))
    next (some job) v e round did later =
        after_job rules raw raws id s v job round e did (later ((id + 1) % 2 ^ 32) v)

-- ===== src/FastPath/Run.antt =====
-- The loop of `FastPathProcessor::run` over what its queue hands it, and its invariant.
use multi_threaded_dpi_engin.Base.{
  ℕ, ◌+◌, ◌<◌, if◌then◌else◌, List, [], ◌∷◌, Option, some, ◌>>=◌, ◌≡◌, refl, sym, subst, ap, ◌∙◌,
  arith, length,
}
use multi_threaded_dpi_engin.Types.{PacketJob, PacketAction, drop}
use multi_threaded_dpi_engin.Rules.{RuleManager}
use multi_threaded_dpi_engin.Tracker.{Clock, get_or_create_connection}
use multi_threaded_dpi_engin.Tracker.Keys.{
  DistinctKeys, get_or_create_connection-DistinctKeys, replace-DistinctKeys, cleanup-DistinctKeys,
  cleanup-length,
}
use multi_threaded_dpi_engin.Tracker.Capacity.{
  InCapacity, get_or_create_connection-InCapacity, length-replace,
}
use multi_threaded_dpi_engin.FastPath.Inspection.{InPacket}
use multi_threaded_dpi_engin.FastPath.Verdict.{Settled, process_packet-Settled}
use multi_threaded_dpi_engin.FastPath.{FastPath, run_packet, run_idle, is_drop, count_action}

-- What a round of the loop gets from `popWithTimeout`: a packet, or nothing in time. The rules may
-- change between rounds.
pub data Event : Type 0 where
  packet : Option RuleManager → Clock → PacketJob → Event
  idle : Clock → Event

-- The loop; the list is what it hands to the output callback, the latest last.
unfoldable pub run : List Event → FastPath → Option (List PacketAction × FastPath)
unfolding run_packet run_idle
run [] fp = some ([], fp)
run (idle now ∷ es) fp = run es (run_idle now fp)
run (packet rules now job ∷ es) fp = do
  (action, fp1) ← run_packet rules now job fp
  (actions, fp2) ← run es fp1
  some (action ∷ actions, fp2)

pub record IsValid (fp : FastPath) : Type 0 where
  pub balanced : fp.packets_processed ≡ fp.packets_forwarded + fp.packets_dropped
  pub distinct : DistinctKeys fp.tracker.connections
  pub capacity : InCapacity fp.tracker
  pub limit : 0 < fp.tracker.max_connections

abbrev pub AllInPacket : List Event → Type 0
AllInPacket [] = Unit
AllInPacket (idle now ∷ es) = AllInPacket es
AllInPacket (packet rules now job ∷ es) = InPacket job × AllInPacket es

abbrev pub count_dropped : List PacketAction → ℕ
count_dropped [] = 0
count_dropped (a ∷ rest) = (if is_drop a then 1 else 0) + count_dropped rest

-- What one round with a packet does to a valid processor.
record Round (fp : FastPath) (r : PacketAction × FastPath) : Type 0 where
  valid : IsValid r.1
  processed : r.1.packets_processed ≡ fp.packets_processed + 1
  dropped : r.1.packets_dropped ≡ fp.packets_dropped + (if is_drop r.0 then 1 else 0)

-- The table and its limit after the call.
Table-keeps :
    (rules : Option RuleManager) (now : Clock) (job : PacketJob) (fp q : FastPath)
    (action : PacketAction)
    → IsValid fp
    → Settled rules now job (record fp { packets_processed = fp.packets_processed + 1 }) (action, q)
    → DistinctKeys q.tracker.connections × InCapacity q.tracker × (0 < q.tracker.max_connections)
Table-keeps rules now job fp q action v s =
    let made = get_or_create_connection-InCapacity job.tuple now fp.tracker v.limit v.capacity in
    let keys =
      replace-DistinctKeys s.conn _
        (get_or_create_connection-DistinctKeys job.tuple now fp.tracker v.distinct) in
    (
      subst DistinctKeys (sym s.table) keys,
      omega (
        arith,
        made,
        s.limit,
        ap length s.table,
        length-replace s.conn (get_or_create_connection job.tuple now fp.tracker).1.connections,
      ),
      omega (arith, made, s.limit, v.limit),
    )

count_action-Round :
    (rules : Option RuleManager) (now : Clock) (job : PacketJob) (fp q : FastPath)
    (action : PacketAction)
    → IsValid fp
    → Settled rules now job (record fp { packets_processed = fp.packets_processed + 1 }) (action, q)
    → Round fp (count_action (action, q))
unfolding count_action
count_action-Round rules now job fp q drop v s =
    let t = Table-keeps rules now job fp q drop v s in
    let n = s.same_counters in
    record {
      valid = record {
        balanced = omega (arith, n, v.balanced);
        distinct = t.0;
        capacity = t.1;
        limit = t.2;
      };
      processed = n.0;
      dropped = omega (arith, n);
    }
count_action-Round rules now job fp q other v s =
    let t = Table-keeps rules now job fp q _ v s in
    let n = s.same_counters in
    record {
      valid = record {
        balanced = omega (arith, n, v.balanced);
        distinct = t.0;
        capacity = t.1;
        limit = t.2;
      };
      processed = n.0;
      dropped = omega (arith, n);
    }

run_packet-Round :
    (rules : Option RuleManager) (now : Clock) (job : PacketJob) (fp : FastPath)
    → InPacket job
    → IsValid fp
    → (r : PacketAction × FastPath) × (run_packet rules now job fp ≡ some r) × Round fp r
unfolding run_packet
run_packet-Round rules now job fp inside v =
    let counted = record fp { packets_processed = fp.packets_processed + 1 } in
    let ((action, q), e, s) = process_packet-Settled rules now job counted inside in
    (
      count_action (action, q),
      ap (λ m. m >>= λ r. some (count_action r)) e,
      count_action-Round rules now job fp q action v s,
    )

run_idle-IsValid : (now : Clock) (fp : FastPath) → IsValid fp → IsValid (run_idle now fp)
unfolding run_idle
run_idle-IsValid now fp v = record {
  balanced = v.balanced;
  distinct = cleanup-DistinctKeys 300 now fp.tracker v.distinct;
  capacity = omega (arith, cleanup-length 300 now fp.tracker, v.capacity);
  limit = omega (arith, cleanup-length 300 now fp.tracker, v.limit);
}

abbrev count_packets : List Event → ℕ
count_packets [] = 0
count_packets (idle now ∷ es) = count_packets es
count_packets (packet rules now job ∷ es) = 1 + count_packets es

-- The end of a run.
pub record Ran (es : List Event) (fp : FastPath) (r : List PacketAction × FastPath) : Type 0 where
  pub valid : IsValid r.1
  pub outputs : length r.0 ≡ count_packets es
  pub processed : r.1.packets_processed ≡ fp.packets_processed + count_packets es
  pub dropped : r.1.packets_dropped ≡ fp.packets_dropped + count_dropped r.0

-- From a valid processor any run of the loop comes to its end with no read outside a packet, on
-- every packet calls the output once, counts as dropped exactly the packets it gave out as DROP,
-- and leaves the processor valid: processed is forwarded plus dropped, no flow stands twice in the
-- table, and the table is within its limit.
pub run-Ran :
    (es : List Event) (fp : FastPath)
    → AllInPacket es
    → IsValid fp
    → (r : List PacketAction × FastPath) × (run es fp ≡ some r) × Ran es fp r
unfolding run
run-Ran [] fp inside v = (
  ([], fp),
  refl,
  record { valid = v; outputs = refl; processed = omega arith; dropped = omega arith },
)
run-Ran (idle now ∷ es) fp inside v =
    let (r, e, k) = run-Ran es (run_idle now fp) inside (run_idle-IsValid now fp v) in
    (
      r,
      e,
      record {
        valid = k.valid;
        outputs = k.outputs;
        processed = k.processed ∙ (unfold run_idle in refl);
        dropped = k.dropped ∙ (unfold run_idle in refl);
      },
    )
run-Ran (packet rules now job ∷ es) fp inside v =
    let ((action, fp1), e, round) = run_packet-Round rules now job fp inside.0 v in
    let ((actions, fp2), e', k) = run-Ran es fp1 inside.1 round.valid in
    (
      (action ∷ actions, fp2),
      ap (λ m. m >>= λ x. run es x.1 >>= λ y. some (x.0 ∷ y.0, y.1)) e
          ∙ ap (λ m. m >>= λ y. some (action ∷ y.0, y.1)) e',
      record {
        valid = k.valid;
        outputs = omega (arith, k.outputs);
        processed = omega (arith, k.processed, round.processed);
        dropped = omega (arith, k.dropped, round.dropped);
      },
    )

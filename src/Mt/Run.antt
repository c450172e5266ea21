-- ===== src/Mt/Run.antt =====
-- Whole runs of the fast path of src/dpi_mt.cpp.
use multi_threaded_dpi_engin.Base.{
  ◌+◌, ◌≡◌, refl, ap, ◌∙◌, Bool, if◌then◌else◌, List, [], ◌∷◌, some, Ensures, bind-Ensures,
  Ensures-some, arith, length,
}
use multi_threaded_dpi_engin.Base.Assoc.{at_key, total}
use multi_threaded_dpi_engin.Types.App.{app_eq}
use multi_threaded_dpi_engin.Types.Flow.{FiveTuple, flow_eq}
use multi_threaded_dpi_engin.Types.Cut as Cut
use multi_threaded_dpi_engin.Types.Cut.{Judged, round-Orderly}
use multi_threaded_dpi_engin.Mt.{
  Packet, FlowEntry, Stats, FastPath, Round, new_flow, run_packet, run,
}
use multi_threaded_dpi_engin.Mt.Blocking.{BlockingRules}
use multi_threaded_dpi_engin.Mt.Flows.{IsInside, Done, run_packet-Ensures}

abbrev pub AllInside : List Packet → Type 0
AllInside [] = Unit
AllInside (pkt ∷ pkts) = IsInside pkt × AllInside pkts

-- The flow is blocked in the table.
abbrev pub flow_blocked : FiveTuple → FastPath → Bool
flow_blocked t fp = (at_key t (new_flow t) fp.flows).blocked

abbrev pub Result : Type 0
Result = List Packet × FastPath × Stats

-- A postcondition of a run from that of its first round and of the rounds after it.
module _ (rules : BlockingRules) (pkt : Packet) (pkts : List Packet) (fp : FastPath) (stats : Stats)
    (Q : Result → Type 0) (Q_rest : Round → Result → Type 0) where
  run-step :
      IsInside pkt
      → ((r : Round) → Done rules pkt fp stats r → Ensures (Q_rest r) (run rules pkts r.fp r.stats))
      → ((r : Round) (out : List Packet) (last : FastPath) (s : Stats)
          → Done rules pkt fp stats r
          → Q_rest r (out, last, s)
          → Q (if r.passed then pkt ∷ out else out, last, s))
      → Ensures Q (run rules (pkt ∷ pkts) fp stats)
  unfolding run
  run-step inside later both =
      bind-Ensures (Done rules pkt fp stats) Q (run_packet rules pkt fp stats) _
        (run_packet-Ensures rules pkt fp stats inside)
        λ r did.
          bind-Ensures (Q_rest r) Q (run rules pkts r.fp r.stats) _ (later r did)
            λ (out, last, s) rest. both r out last s did rest

-- The counters and the fast path behind a run.
abbrev pub Counted : List Packet → FastPath → Stats → Result → Type 0
Counted pkts fp stats (out, last, s) =
    (last.processed ≡ fp.processed + length pkts)
    × (s.forwarded + s.dropped ≡ stats.forwarded + stats.dropped + length pkts)
    × (s.forwarded ≡ stats.forwarded + length out)
    × (total s.app_counts ≡ total stats.app_counts + length pkts)

run-Counted :
    (rules : BlockingRules) (pkts : List Packet) (fp : FastPath) (stats : Stats)
    → AllInside pkts
    → Ensures (Counted pkts fp stats) (run rules pkts fp stats)
run-Counted rules [] fp stats inside =
    unfold run in (omega arith, omega arith, omega arith, omega arith)
run-Counted rules (pkt ∷ pkts) fp stats inside =
    run-step rules pkt pkts fp stats (Counted (pkt ∷ pkts) fp stats)
      (λ r. Counted pkts r.fp r.stats) inside.0
      (λ r did. run-Counted rules pkts r.fp r.stats inside.1)
      λ r out last s did (a, b, c, d).
        ground (arith, did.processed, did.sorted, did.forwarded, did.apps)

-- Of the flow's packets those that passed are the first ones, and none passed if it was blocked.
abbrev pub Orderly : FiveTuple → FastPath → List Packet → Result → Type 0
Orderly t fp pkts (out, last, s) =
    Cut.Orderly (λ (pkt : Packet). pkt.tuple) flow_blocked t fp pkts out last

Done-Judged :
    (rules : BlockingRules) (pkt : Packet) (fp : FastPath) (stats : Stats) (r : Round)
    → Done rules pkt fp stats r
    → Judged (λ (p : Packet). p.tuple) flow_blocked pkt r.passed fp r.fp
Done-Judged rules pkt fp stats r did = record {
  after =
      ap (λ (f : FlowEntry). f.blocked) (did.stored (new_flow pkt.tuple))
      ∙ ground (arith, did.passed);
  keeps = λ b. ground (arith, did.passed, did.blocked);
  others = λ t differs. ap (λ (f : FlowEntry). f.blocked) (did.others t (new_flow t) differs);
}

run-Orderly :
    (t : FiveTuple) (rules : BlockingRules) (pkts : List Packet) (fp : FastPath) (stats : Stats)
    → AllInside pkts
    → Ensures (Orderly t fp pkts) (run rules pkts fp stats)
run-Orderly t rules [] fp stats inside = unfold run in (([], refl), (λ b. (refl, b)))
run-Orderly t rules (pkt ∷ pkts) fp stats inside =
    run-step rules pkt pkts fp stats (Orderly t fp (pkt ∷ pkts)) (λ r. Orderly t r.fp pkts) inside.0
      (λ r did. run-Orderly t rules pkts r.fp r.stats inside.1)
      λ r out last s did rest.
        round-Orderly (λ (p : Packet). p.tuple) flow_blocked t pkt pkts out fp r.fp last r.passed
          (Done-Judged rules pkt fp stats r did) rest

-- A run over packets whose payloads lie in them ends with no read outside a packet. Each packet
-- is counted once as processed, once under an application, and as forwarded or as dropped, and
-- as many are forwarded as go to the output.
pub run-Counts :
    (rules : BlockingRules) (pkts : List Packet) (fp : FastPath) (stats : Stats)
    → AllInside pkts
    → (r : Result) × (run rules pkts fp stats ≡ some r) × Counted pkts fp stats r
run-Counts rules pkts fp stats inside =
    Ensures-some (Counted pkts fp stats) (run rules pkts fp stats)
      (run-Counted rules pkts fp stats inside)

-- For every flow, a run over packets whose payloads lie in them sends out the flow's packets up
-- to some point, in their order, and none behind it; and where the flow was blocked before the run
-- it sends out none of them, and the flow stays blocked.
pub run-Cuts :
    (t : FiveTuple) (rules : BlockingRules) (pkts : List Packet) (fp : FastPath) (stats : Stats)
    → AllInside pkts
    → (r : Result) × (run rules pkts fp stats ≡ some r) × Orderly t fp pkts r
run-Cuts t rules pkts fp stats inside =
    Ensures-some (Orderly t fp pkts) (run rules pkts fp stats)
      (run-Orderly t rules pkts fp stats inside)

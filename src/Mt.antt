-- ===== src/Mt.antt =====
-- src/dpi_mt.cpp: the engine in one file. Its fast path and balancer, and in the modules below its
-- rules, its reader and its options. The statistics that all fast paths share are passed along.
pub mod Blocking
pub mod Reader
pub mod Agreement
pub mod Flows
pub mod Run
pub mod Options
pub mod Configured
use multi_threaded_dpi_engin.Base.{
  ℕ, ◌+◌, ◌%◌, Bool, true, false, not, ◌&&◌, ◌||◌, ◌==◌, ltb, if◌then◌else◌, List, [], ◌∷◌, Option,
  none, some, ◌>>=◌, Bytes, length, get_elem?,
}
use multi_threaded_dpi_engin.Base.Eq.{text_eq}
use multi_threaded_dpi_engin.Base.Assoc.{at_key, put}
use multi_threaded_dpi_engin.Types.App.{AppType, unknown, dns, https, http, app_eq}
use multi_threaded_dpi_engin.Types.Flow.{FiveTuple, flow_eq}
use multi_threaded_dpi_engin.Types.Hash.{StdHash, tuple_hash}
use multi_threaded_dpi_engin.Types.Classify.{sni_to_app_type}
use multi_threaded_dpi_engin.Inspect.Tls as Tls
use multi_threaded_dpi_engin.Inspect.Http as Http
use Blocking.{BlockingRules, is_blocked}

-- `struct Packet`
pub record Packet : Type 0 where
  pub id : ℕ
  pub ts_sec : ℕ
  pub ts_usec : ℕ
  pub tuple : FiveTuple
  pub packet : Bytes
  pub tcp_flags : ℕ
  pub payload_offset : ℕ
  pub payload_length : ℕ

-- `struct FlowEntry`
pub record FlowEntry : Type 0 where
  pub tuple : FiveTuple
  pub app_type : AppType
  pub sni : Bytes
  pub packets : ℕ
  pub bytes : ℕ
  pub blocked : Bool
  pub classified : Bool

-- `FlowEntry()`; the tuple has no initial value and is set before it is used.
abbrev pub new_flow : FiveTuple → FlowEntry
new_flow tuple = record {
  tuple = tuple;
  app_type = unknown;
  sni = [];
  packets = 0;
  bytes = 0;
  blocked = false;
  classified = false;
}

-- `struct Stats`
pub record Stats : Type 0 where
  pub total_packets : ℕ
  pub total_bytes : ℕ
  pub forwarded : ℕ
  pub dropped : ℕ
  pub tcp_packets : ℕ
  pub udp_packets : ℕ
  pub app_counts : List (AppType × ℕ)
  pub detected_snis : List (Bytes × AppType)

abbrev pub no_stats : Stats
no_stats = record {
  total_packets = 0;
  total_bytes = 0;
  forwarded = 0;
  dropped = 0;
  tcp_packets = 0;
  udp_packets = 0;
  app_counts = [];
  detected_snis = [];
}

abbrev pub is_empty : Bytes → Bool
is_empty [] = true
is_empty (_ ∷ _) = false

-- `recordApp`
unfoldable pub record_app : AppType → Bytes → Stats → Stats
record_app app sni stats = record stats {
  app_counts = put app (at_key app 0 stats.app_counts + 1) stats.app_counts;
  detected_snis =
      if not (is_empty sni) then put sni app stats.detected_snis else stats.detected_snis;
}

-- A name that was found, or what follows where there is none.
abbrev named : Option Bytes → FlowEntry → Option FlowEntry → Option FlowEntry
named none flow otherwise = otherwise
named (some name) flow otherwise =
    some (record flow { sni = name; app_type = sni_to_app_type name; classified = true })

-- `classifyFlow` behind the extractions.
classify_by_port : Packet → FlowEntry → FlowEntry
classify_by_port pkt flow =
    if pkt.tuple.dst_port == 53 || pkt.tuple.src_port == 53
    then record flow { app_type = dns; classified = true }
    else if pkt.tuple.dst_port == 443
    then record flow { app_type = https }
    else if pkt.tuple.dst_port == 80
    then record flow { app_type = http }
    else flow

-- `classifyFlow` from the HTTP host on.
classify_http : Packet → FlowEntry → Option FlowEntry
unfolding classify_by_port
classify_http pkt flow =
    if pkt.tuple.dst_port == 80 && ltb 10 pkt.payload_length
    then (Http.extract pkt.packet pkt.payload_offset pkt.payload_length >>= λ host.
        named host flow (some (classify_by_port pkt flow)))
    else some (classify_by_port pkt flow)

-- `classifyFlow`; `none` is a read outside the packet.
unfoldable pub classify_flow : Packet → FlowEntry → Option FlowEntry
unfolding classify_http
classify_flow pkt flow =
    if pkt.tuple.dst_port == 443 && ltb 5 pkt.payload_length
    then (Tls.extract pkt.packet pkt.payload_offset pkt.payload_length >>= λ sni.
        named sni flow (classify_http pkt flow))
    else classify_http pkt flow

-- `class FastPath` but for its thread; the queues are in the steps of the pipeline.
pub record FastPath : Type 0 where
  pub flows : List (FiveTuple × FlowEntry)
  pub processed : ℕ

abbrev pub new_fast_path : FastPath
new_fast_path = record { flows = []; processed = 0 }

-- The flow of a packet, created if need be, with the packet counted.
abbrev pub count_packet : Packet → List (FiveTuple × FlowEntry) → FlowEntry
count_packet pkt flows =
    let flow = at_key pkt.tuple (new_flow pkt.tuple) flows in
    record flow {
      tuple = if flow.packets == 0 then pkt.tuple else flow.tuple;
      packets = flow.packets + 1;
      bytes = flow.bytes + length pkt.packet;
    }

-- The classification of a flow that has none, and the check against the rules.
unfoldable pub judge : BlockingRules → Packet → FlowEntry → Option FlowEntry
unfolding is_blocked
judge rules pkt flow = do
  seen ← if flow.classified then some flow else classify_flow pkt flow
  some (record seen {
    blocked =
        if seen.blocked then true else is_blocked pkt.tuple.src_ip seen.app_type seen.sni rules;
  })

-- What a round leaves: whether the packet goes to the output queue, the fast path and the counters.
pub record Round : Type 0 where
  pub passed : Bool
  pub fp : FastPath
  pub stats : Stats

-- The rest of a round, with the flow as it was judged.
unfoldable pub settle : Packet → FlowEntry → FastPath → Stats → Round
settle pkt flow fp stats =
    let counted = record_app flow.app_type flow.sni stats in
    record {
      passed = not flow.blocked;
      fp = record { flows = put pkt.tuple flow fp.flows; processed = fp.processed + 1 };
      stats =
          if flow.blocked
          then record counted { dropped = counted.dropped + 1 }
          else record counted { forwarded = counted.forwarded + 1 };
    }

-- One round of `FastPath::run` with a packet.
unfoldable pub run_packet : BlockingRules → Packet → FastPath → Stats → Option Round
unfolding judge settle
run_packet rules pkt fp stats = do
  flow ← judge rules pkt (count_packet pkt fp.flows)
  some (settle pkt flow fp stats)

-- The packets of the output queue, in order, and the state behind the last.
unfoldable pub run :
    BlockingRules → List Packet → FastPath → Stats → Option (List Packet × FastPath × Stats)
unfolding run_packet
run rules [] fp stats = some ([], fp, stats)
run rules (pkt ∷ pkts) fp stats = do
  round ← run_packet rules pkt fp stats
  (out, last, total) ← run rules pkts round.fp round.stats
  some (if round.passed then pkt ∷ out else out, last, total)

-- One round of `LoadBalancer::run`: the fast path of a packet among those of the balancer.
unfoldable pub select_fp : StdHash → List ℕ → FiveTuple → Option ℕ
select_fp h fps tuple = get_elem? fps (tuple_hash h tuple % length fps)

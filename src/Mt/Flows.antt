-- ===== src/Mt/Flows.antt =====
-- What a round of `FastPath::run` of src/dpi_mt.cpp does to the flows, the counters and the packet.
use multi_threaded_dpi_engin.Base.{
  ◌+◌, ◌≤◌, ◌≡◌, ◌≢◌, refl, ap, ◌∙◌, Bool, true, false, not, ◌&&◌, ◌||◌, ◌==◌, ltb, if◌then◌else◌,
  Option, none, some, Ensures, bind-Ensures, if-Ensures, Ensures-some, arith, Bytes, length,
}
use multi_threaded_dpi_engin.Base.Assoc.{
  at_key, total, at_key-put_self, at_key-put_other, total-count,
}
use multi_threaded_dpi_engin.Types.App.{app_eq}
use multi_threaded_dpi_engin.Types.Flow.{FiveTuple, flow_eq}
use multi_threaded_dpi_engin.Inspect.Tls.Safety.{extract_inside}
use multi_threaded_dpi_engin.Inspect.Http.Safety.{extract_http_inside}
use multi_threaded_dpi_engin.Mt.{
  Packet, FlowEntry, Stats, FastPath, Round, new_flow, record_app, named, classify_by_port,
  classify_http, classify_flow, count_packet, judge, settle, run_packet,
}
use multi_threaded_dpi_engin.Mt.Blocking.{BlockingRules, is_blocked}

-- The payload lies in the packet.
abbrev pub IsInside : Packet → Type 0
IsInside pkt = pkt.payload_offset + pkt.payload_length ≤ length pkt.packet

-- What a classification leaves of a flow.
abbrev SameCounts : FlowEntry → FlowEntry → Type 0
SameCounts f g =
    (g.tuple ≡ f.tuple) × (g.packets ≡ f.packets) × (g.bytes ≡ f.bytes) × (g.blocked ≡ f.blocked)

classify_by_port-SameCounts : (pkt : Packet) (f : FlowEntry) → SameCounts f (classify_by_port pkt f)
unfolding classify_by_port
classify_by_port-SameCounts pkt f = ground arith

named-SameCounts :
    (r : Option Bytes) (f : FlowEntry) (m : Option FlowEntry)
    → Ensures (SameCounts f) m
    → Ensures (SameCounts f) (named r f m)
named-SameCounts none f m h = h
named-SameCounts (some name) f m h = (refl, refl, refl, refl)

classify_http-SameCounts :
    (pkt : Packet) (f : FlowEntry) → IsInside pkt → Ensures (SameCounts f) (classify_http pkt f)
unfolding classify_http
classify_http-SameCounts pkt f inside =
    let (r, e, _) = extract_http_inside pkt.packet pkt.payload_offset pkt.payload_length inside in
    if-Ensures (SameCounts f) (pkt.tuple.dst_port == 80 && ltb 10 pkt.payload_length) _ _
      (λ _. rw e (named-SameCounts r f _ (classify_by_port-SameCounts pkt f)))
      λ _. classify_by_port-SameCounts pkt f

classify_flow-SameCounts :
    (pkt : Packet) (f : FlowEntry) → IsInside pkt → Ensures (SameCounts f) (classify_flow pkt f)
unfolding classify_flow
classify_flow-SameCounts pkt f inside =
    let (r, e, _) = extract_inside pkt.packet pkt.payload_offset pkt.payload_length inside in
    if-Ensures (SameCounts f) (pkt.tuple.dst_port == 443 && ltb 5 pkt.payload_length) _ _
      (λ _. rw e (named-SameCounts r f _ (classify_http-SameCounts pkt f inside)))
      λ _. classify_http-SameCounts pkt f inside

-- A flow after the rules were asked.
abbrev Judged : BlockingRules → Packet → FlowEntry → FlowEntry → Type 0
Judged rules pkt f g =
    (g.tuple ≡ f.tuple)
    × (g.packets ≡ f.packets)
    × (g.bytes ≡ f.bytes)
    × (g.blocked ≡ (f.blocked || is_blocked pkt.tuple.src_ip g.app_type g.sni rules))

judge-Judged :
    (rules : BlockingRules) (pkt : Packet) (f : FlowEntry)
    → IsInside pkt
    → Ensures (Judged rules pkt f) (judge rules pkt f)
unfolding judge
judge-Judged rules pkt f inside =
    bind-Ensures (SameCounts f) (Judged rules pkt f)
      (if f.classified then some f else classify_flow pkt f) _
      (if-Ensures (SameCounts f) f.classified _ _ (λ _. (refl, refl, refl, refl))
        λ _. classify_flow-SameCounts pkt f inside)
      λ g (a, b, c, d). (
        a,
        b,
        c,
        or_if g.blocked _ ∙ ap (λ t. t || is_blocked pkt.tuple.src_ip g.app_type g.sni rules) d,
      )
  where
    or_if : (a b : Bool) → (if a then true else b) ≡ (a || b)
    or_if true b = refl
    or_if false b = refl

-- What a round has done, from the state before it.
pub record Done (rules : BlockingRules) (pkt : Packet) (fp : FastPath) (stats : Stats) (r : Round)
    : Type 0 where
  pub flow : FlowEntry
  pub stored : (d : FlowEntry) → at_key pkt.tuple d r.fp.flows ≡ flow
  pub packets : flow.packets ≡ (at_key pkt.tuple (new_flow pkt.tuple) fp.flows).packets + 1
  pub bytes :
      flow.bytes ≡ (at_key pkt.tuple (new_flow pkt.tuple) fp.flows).bytes + length pkt.packet
  pub blocked : flow.blocked ≡ (
      (at_key pkt.tuple (new_flow pkt.tuple) fp.flows).blocked
      || is_blocked pkt.tuple.src_ip flow.app_type flow.sni rules)
  pub passed : r.passed ≡ not flow.blocked
  pub others :
      (t : FiveTuple) (d : FlowEntry) → pkt.tuple ≢ t → at_key t d r.fp.flows ≡ at_key t d fp.flows
  pub processed : r.fp.processed ≡ fp.processed + 1
  pub sorted : r.stats.forwarded + r.stats.dropped ≡ stats.forwarded + stats.dropped + 1
  pub forwarded : r.stats.forwarded ≡ stats.forwarded + (if r.passed then 1 else 0)
  pub apps : total r.stats.app_counts ≡ total stats.app_counts + 1

settle-Done :
    (rules : BlockingRules) (pkt : Packet) (f : FlowEntry) (fp : FastPath) (stats : Stats)
    → Judged rules pkt (count_packet pkt fp.flows) f
    → Done rules pkt fp stats (settle pkt f fp stats)
unfolding settle record_app
settle-Done rules pkt f fp stats (a, b, c, d) = record {
  flow = f;
  stored = λ e. at_key-put_self pkt.tuple f e fp.flows;
  packets = b;
  bytes = c;
  blocked = d;
  passed = refl;
  others = λ t e other. at_key-put_other pkt.tuple t f e fp.flows other;
  processed = refl;
  sorted = ground arith;
  forwarded = ground arith;
  apps = ground (arith, total-count f.app_type stats.app_counts);
}

pub run_packet-Ensures :
    (rules : BlockingRules) (pkt : Packet) (fp : FastPath) (stats : Stats)
    → IsInside pkt
    → Ensures (Done rules pkt fp stats) (run_packet rules pkt fp stats)
unfolding run_packet
run_packet-Ensures rules pkt fp stats inside =
    let f = count_packet pkt fp.flows in
    bind-Ensures (Judged rules pkt f) (Done rules pkt fp stats) (judge rules pkt f) _
      (judge-Judged rules pkt f inside) λ g facts. settle-Done rules pkt g fp stats facts

-- Every round with a packet whose payload lies in it reads inside the packet only and ends. It
-- counts the packet in the packet's flow, which it creates if need be, and leaves all other flows
-- alone; it blocks the flow where it was blocked before or the rules block its source, its
-- application or its name as they are then known; the packet goes to the output just where the
-- flow is not blocked, and adds one to forwarded or to dropped, and one to its application.
pub run_packet-Done :
    (rules : BlockingRules) (pkt : Packet) (fp : FastPath) (stats : Stats)
    → IsInside pkt
    → (r : Round) × (run_packet rules pkt fp stats ≡ some r) × Done rules pkt fp stats r
run_packet-Done rules pkt fp stats inside =
    Ensures-some (Done rules pkt fp stats) (run_packet rules pkt fp stats)
      (run_packet-Ensures rules pkt fp stats inside)

-- ===== src/FastPath.antt =====
-- `FastPathProcessor` of src/fast_path.cpp. The `Connection*` that `processPacket` holds is the
-- field `conn` of a visit, and is written back when the call ends. `none` is a read outside the
-- packet's bytes. Log lines are left out.
pub mod Inspection
pub mod Verdict
pub mod Flows
pub mod Run
pub mod Totals
use multi_threaded_dpi_engin.Base.{
  ℕ, ◌+◌, Bool, true, false, not, ◌&&◌, ◌||◌, ◌==◌, ltb, leb, if◌then◌else◌, [], Option, none, some,
  ◌>>=◌, Bytes, length, bit_and,
}
use multi_threaded_dpi_engin.Types.App.{AppType, unknown, http, https, dns, app_beq}
use multi_threaded_dpi_engin.Types.Classify.{sni_to_app_type}
use multi_threaded_dpi_engin.Types.{
  ConnectionState, new_state, established, closed, PacketAction, forward, drop, Connection,
  PacketJob,
}
use multi_threaded_dpi_engin.Inspect.Tls
use multi_threaded_dpi_engin.Inspect.Http
use multi_threaded_dpi_engin.Inspect.Dns.{extract_query}
use multi_threaded_dpi_engin.Rules.{RuleManager, BlockReason, should_block}
use multi_threaded_dpi_engin.Tracker.{
  Tracker, Clock, new_tracker, is_blocked, is_classified, is_new, get_or_create_connection,
  update_connection, classify_connection, block_connection, store, cleanup_stale,
}

pub record FastPath : Type 0 where
  pub tracker : Tracker
  pub packets_processed : ℕ
  pub packets_forwarded : ℕ
  pub packets_dropped : ℕ
  pub sni_extractions : ℕ
  pub classification_hits : ℕ

-- `ConnectionTracker`'s default `max_connections`.
abbrev pub new_fast_path : FastPath
new_fast_path = record {
  tracker = new_tracker 100000;
  packets_processed = 0;
  packets_forwarded = 0;
  packets_dropped = 0;
  sni_extractions = 0;
  classification_hits = 0;
}

-- The processor and the connection of the packet at hand.
pub record Visit : Type 0 where
  pub conn : Connection
  pub fp : FastPath

abbrev has_flag : ℕ → ℕ → Bool
has_flag flags bit = not (bit_and flags bit == 0)

-- if (tcp_flags & SYN) ...
note_syn : Bool → Bool → Connection → Connection
note_syn true true c = record c { syn_ack_seen = true }
note_syn true false c = record c { syn_seen = true }
note_syn false ack c = c

-- if (conn->syn_seen && conn->syn_ack_seen && (tcp_flags & ACK)) ...
note_established : Bool → Connection → Connection
note_established ack c =
    if c.syn_seen && c.syn_ack_seen && ack && is_new c.state
    then record c { state = established }
    else c

-- if (tcp_flags & FIN) ..., if (tcp_flags & RST) ..., if (conn->fin_seen && (tcp_flags & ACK)) ...
note_end : Bool → Bool → Bool → Connection → Connection
note_end fin rst ack c =
    let ended = c.fin_seen || fin in
    record c { fin_seen = ended; state = if rst || ended && ack then closed else c.state }

-- `updateTCPState` on the four flags.
update_flags : Bool → Bool → Bool → Bool → Connection → Connection
unfolding note_syn note_established note_end
update_flags syn ack fin rst c = note_end fin rst ack (note_established ack (note_syn syn ack c))

-- `updateTCPState`
unfoldable pub update_tcp_state : ℕ → Connection → Connection
unfolding update_flags
update_tcp_state tcp_flags =
    update_flags (has_flag tcp_flags 0x02) (has_flag tcp_flags 0x10) (has_flag tcp_flags 0x01)
      (has_flag tcp_flags 0x04)

-- `conn_tracker_.classifyConnection(conn, app, name)`
classify : AppType → Bytes → Visit → Visit
classify app name v =
    let (c, tr) = classify_connection app name (v.conn, v.fp.tracker) in
    record { conn = c; fp = record v.fp { tracker = tr } }

count_hit : Bool → FastPath → FastPath
count_hit hit fp =
    if hit then record fp { classification_hits = fp.classification_hits + 1 } else fp

found_sni : Option Bytes → Visit → Bool × Visit
unfolding count_hit classify
found_sni none v = (false, v)
found_sni (some name) v =
    let app = sni_to_app_type name in
    let w =
      classify app name
        (record v { fp = record v.fp { sni_extractions = v.fp.sni_extractions + 1 } }) in
    (true, record w { fp = count_hit (not (app_beq app unknown) && not (app_beq app https)) w.fp })

-- `tryExtractSNI`
try_extract_sni : PacketJob → Visit → Option (Bool × Visit)
unfolding found_sni
try_extract_sni job v =
    if not (job.tuple.dst_port == 443) && ltb job.payload_length 50
    then some (false, v)
    else if leb (length job.packet) job.payload_offset || job.payload_length == 0
    then some (false, v)
    else do
      sni ← Tls.extract job.packet job.payload_offset job.payload_length
      some (found_sni sni v)

found_host : Option Bytes → Visit → Bool × Visit
unfolding count_hit classify
found_host none v = (false, v)
found_host (some host) v =
    let app = sni_to_app_type host in
    let w = classify app host v in
    (true, record w { fp = count_hit (not (app_beq app unknown) && not (app_beq app http)) w.fp })

-- `tryExtractHTTPHost`
try_extract_http_host : PacketJob → Visit → Option (Bool × Visit)
unfolding found_host
try_extract_http_host job v =
    if not (job.tuple.dst_port == 80)
    then some (false, v)
    else if leb (length job.packet) job.payload_offset || job.payload_length == 0
    then some (false, v)
    else do
      host ← Http.extract job.packet job.payload_offset job.payload_length
      some (found_host host v)

-- Basic port-based classification as fallback.
classify_by_port : ℕ → Visit → Visit
unfolding classify
classify_by_port dst_port v =
    if dst_port == 80
    then classify http [] v
    else if dst_port == 443
    then classify https [] v
    else v

found_domain : Option Bytes → ℕ → Visit → Visit
unfolding classify classify_by_port
found_domain none dst_port v = classify_by_port dst_port v
found_domain (some domain) dst_port v = classify dns domain v

-- `inspectPayload` from the check for DNS on.
inspect_dns : PacketJob → Visit → Option Visit
unfolding found_domain
inspect_dns job v =
    if job.tuple.dst_port == 53 || job.tuple.src_port == 53
    then (extract_query job.packet job.payload_offset job.payload_length >>= λ domain.
        some (found_domain domain job.tuple.dst_port v))
    else some (classify_by_port job.tuple.dst_port v)

-- `inspectPayload`
pub inspect_payload : PacketJob → Visit → Option Visit
unfolding try_extract_sni try_extract_http_host inspect_dns
inspect_payload job v =
    if job.payload_length == 0 || leb (length job.packet) job.payload_offset then some v else do
      (by_sni, v1) ← try_extract_sni job v
      if by_sni then some v1 else do
        (by_host, v2) ← try_extract_http_host job v1
        if by_host then some v2 else inspect_dns job v2

act_on : Option BlockReason → Visit → PacketAction × Visit
act_on none v = (forward, v)
act_on (some reason) v =
    let (c, tr) = block_connection (v.conn, v.fp.tracker) in
    (drop, record { conn = c; fp = record v.fp { tracker = tr } })

-- `checkRules`; no rule manager is `none`.
check_rules : Option RuleManager → PacketJob → Visit → PacketAction × Visit
unfolding act_on
check_rules none job v = (forward, v)
check_rules (some rules) job v =
    act_on (should_block job.tuple.src_ip job.tuple.dst_port v.conn.app_type v.conn.sni rules) v

-- `processPacket` behind the connection's updates.
judge : Option RuleManager → PacketJob → Visit → Option (PacketAction × Visit)
unfolding inspect_payload check_rules
judge rules job v =
    if is_blocked v.conn.state
    then some (drop, v)
    else if not (is_classified v.conn.state) && ltb 0 job.payload_length
    then (inspect_payload job v >>= λ w. some (check_rules rules job w))
    else some (check_rules rules job v)

-- The connection of a packet, created if need be, with the packet counted and the flags noted.
visit : Clock → PacketJob → FastPath → Visit
unfolding update_tcp_state
visit now job fp =
    let (c, tr) = get_or_create_connection job.tuple now fp.tracker in
    let counted = update_connection (length job.packet) true now c in
    record {
      conn = if job.tuple.protocol == 6 then update_tcp_state job.tcp_flags counted else counted;
      fp = record fp { tracker = tr };
    }

leave : PacketAction × Visit → PacketAction × FastPath
leave (action, v) = (action, record v.fp { tracker = store v.conn v.fp.tracker })

-- `processPacket`
unfoldable pub process_packet :
    Option RuleManager → Clock → PacketJob → FastPath → Option (PacketAction × FastPath)
unfolding visit judge leave
process_packet rules now job fp = do r ← judge rules job (visit now job fp); some (leave r)

abbrev pub is_drop : PacketAction → Bool
is_drop drop = true
is_drop _ = false

-- The counters at the end of a round of `run`.
count_action : PacketAction × FastPath → PacketAction × FastPath
count_action (action, fp) = (
  action,
  if is_drop action
      then record fp { packets_dropped = fp.packets_dropped + 1 }
      else record fp { packets_forwarded = fp.packets_forwarded + 1 },
)

-- One round of `run` with a packet; the action goes to the output callback.
unfoldable pub run_packet :
    Option RuleManager → Clock → PacketJob → FastPath → Option (PacketAction × FastPath)
unfolding process_packet count_action
run_packet rules now job fp = do
  r ← process_packet rules now job (record fp { packets_processed = fp.packets_processed + 1 })
  some (count_action r)

-- One round of `run` without a packet.
unfoldable pub run_idle : Clock → FastPath → FastPath
run_idle now fp = record fp { tracker = (cleanup_stale 300 now fp.tracker).1 }

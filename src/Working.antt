-- ===== src/Working.antt =====
-- src/main_working.cpp: the engine as one loop, without threads. `BlockingRules` and its parseIP are
-- those of src/dpi_mt.cpp, in Mt.Blocking. A read outside the packet is `none`.
pub mod Flows
pub mod Rounds
pub mod Run
pub mod Whole
use multi_threaded_dpi_engin.Base.{
  ℕ, zero, suc, ◌+◌, ◌-◌, ◌*◌, ◌%◌, ◌^◌, Bool, true, false, not, ◌&&◌, ◌||◌, ◌==◌, ltb,
  if◌then◌else◌, List, [], ◌∷◌, ◌++◌, Option, none, some, ◌>>=◌, Bytes, codes, bytes_eq, length,
  bit_and,
}
use multi_threaded_dpi_engin.Base.Bits.{shr}
use multi_threaded_dpi_engin.Base.Assoc.{at_key, put}
use multi_threaded_dpi_engin.Types.App.{AppType, unknown, dns, https, http, app_beq, app_eq}
use multi_threaded_dpi_engin.Types.Flow.{FiveTuple, flow_eq}
use multi_threaded_dpi_engin.Types.Classify.{sni_to_app_type}
use multi_threaded_dpi_engin.Inspect.Memory.{read}
use multi_threaded_dpi_engin.Inspect.Tls as Tls
use multi_threaded_dpi_engin.Inspect.Http as Http
use multi_threaded_dpi_engin.Rules.Address.{parse_ip}
use multi_threaded_dpi_engin.Packet.{RawPacket, ParsedPacket, parse}
use multi_threaded_dpi_engin.Pcap.{PcapReader, GlobalHeader, open_file, read_next_packet}
use multi_threaded_dpi_engin.Pcap.Words.{store_u32}
use multi_threaded_dpi_engin.Engine.Output.{header_bytes}
use multi_threaded_dpi_engin.Mt.{is_empty}
use multi_threaded_dpi_engin.Mt.Blocking.{
  BlockingRules, no_rules, block_ip, block_app, block_domain, is_blocked,
}

-- `struct Flow`
pub record Flow : Type 0 where
  pub tuple : FiveTuple
  pub app_type : AppType
  pub sni : Bytes
  pub packets : ℕ
  pub bytes : ℕ
  pub blocked : Bool

-- `Flow()`; the tuple has no initial value and is set before it is used.
abbrev pub new_flow : FiveTuple → Flow
new_flow tuple = record {
  tuple = tuple;
  app_type = unknown;
  sni = [];
  packets = 0;
  bytes = 0;
  blocked = false;
}

-- The variables of `main` that its loop changes, with the bytes of the output file so far.
pub record State : Type 0 where
  pub flows : List (FiveTuple × Flow)
  pub total_packets : ℕ
  pub forwarded : ℕ
  pub dropped : ℕ
  pub app_stats : List (AppType × ℕ)
  pub output : Bytes

abbrev pub new_state : Bytes → State
new_state output = record {
  flows = [];
  total_packets = 0;
  forwarded = 0;
  dropped = 0;
  app_stats = [];
  output = output;
}

unfoldable pub make_tuple : ParsedPacket → Option FiveTuple
make_tuple parsed = do
  src ← parse_ip parsed.src_ip
  dst ← parse_ip parsed.dest_ip
  some (record {
    src_ip = src;
    dst_ip = dst;
    src_port = parsed.src_port;
    dst_port = parsed.dest_port;
    protocol = parsed.protocol;
  })

-- The flow of a packet, created if need be, with the packet counted.
abbrev pub count_packet : FiveTuple → RawPacket → List (FiveTuple × Flow) → Flow
count_packet tuple raw flows =
    let flow = at_key tuple (new_flow tuple) flows in
    record flow {
      tuple = if flow.packets == 0 then tuple else flow.tuple;
      packets = flow.packets + 1;
      bytes = flow.bytes + length raw.packet;
    }

-- `payload_offset` and `payload_len` of a TCP packet, which both extractions work out alike.
unfoldable pub tcp_payload : Bytes → Option (Option (ℕ × ℕ))
tcp_payload mem = do
  b ← read mem 14
  let transport = 14 + bit_and b 0x0f * 4
  if not (ltb (transport + 12) (length mem)) then some none else do
    c ← read mem (transport + 12)
    let payload = transport + bit_and (shr c 4) 0x0f * 4
    some (if ltb payload (length mem) then some (payload, length mem - payload) else none)

-- A name that was found goes into the flow.
abbrev pub named : Option Bytes → Flow → Flow
named none flow = flow
named (some name) flow = record flow { sni = name; app_type = sni_to_app_type name }

-- The SNI extraction at a payload, and the HTTP host extraction at one.
unfoldable pub sni_at : Bytes → Flow → Option (ℕ × ℕ) → Option Flow
sni_at mem flow none = some flow
sni_at mem flow (some (start, len)) =
    if ltb 5 len then (Tls.extract mem start len >>= λ sni. some (named sni flow)) else some flow

unfoldable pub host_at : Bytes → Flow → Option (ℕ × ℕ) → Option Flow
host_at mem flow none = some flow
host_at mem flow (some (start, len)) = Http.extract mem start len >>= λ host. some (named host flow)

-- The flow is still without a name, its application open or what `generic` stands for.
abbrev pub is_open : AppType → Flow → Bool
is_open generic flow =
    (app_beq flow.app_type unknown || app_beq flow.app_type generic) && is_empty flow.sni

unfoldable pub try_sni : Bytes → ParsedPacket → Flow → Option Flow
unfolding tcp_payload sni_at
try_sni mem parsed flow =
    if is_open https flow && parsed.has_tcp && parsed.dest_port == 443
    then (tcp_payload mem >>= sni_at mem flow)
    else some flow

unfoldable pub try_host : Bytes → ParsedPacket → Flow → Option Flow
unfolding tcp_payload host_at
try_host mem parsed flow =
    if is_open http flow && parsed.has_tcp && parsed.dest_port == 80
    then (tcp_payload mem >>= host_at mem flow)
    else some flow

-- The classification as DNS, and the fallback by port.
unfoldable pub classify_dns : ParsedPacket → Flow → Flow
classify_dns parsed flow =
    if app_beq flow.app_type unknown && (parsed.dest_port == 53 || parsed.src_port == 53)
    then record flow { app_type = dns }
    else flow

unfoldable pub classify_by_port : ParsedPacket → Flow → Flow
classify_by_port parsed flow =
    if not (app_beq flow.app_type unknown)
    then flow
    else if parsed.dest_port == 443
    then record flow { app_type = https }
    else if parsed.dest_port == 80
    then record flow { app_type = http }
    else flow

unfoldable pub check_rules : BlockingRules → FiveTuple → Flow → Flow
unfolding is_blocked
check_rules rules tuple flow =
    if flow.blocked
    then flow
    else record flow { blocked = is_blocked tuple.src_ip flow.app_type flow.sni rules }

-- The round's work on the flow.
unfoldable pub judge : BlockingRules → Bytes → ParsedPacket → FiveTuple → Flow → Option Flow
unfolding try_sni try_host classify_dns classify_by_port check_rules
judge rules mem parsed tuple flow = do
  with_sni ← try_sni mem parsed flow
  with_host ← try_host mem parsed with_sni
  some (check_rules rules tuple (classify_by_port parsed (classify_dns parsed with_host)))

-- The packet's header and its data in the output; both lengths are cut to 32 bits.
abbrev pub record_bytes : RawPacket → Bytes
record_bytes raw =
    let n = length raw.packet % 2 ^ 32 in
    store_u32 raw.ts_sec ++ store_u32 raw.ts_usec ++ store_u32 n ++ store_u32 n ++ raw.packet

-- The rest of the round: the counters, and the packet forwarded or dropped.
unfoldable pub settle : RawPacket → FiveTuple → Flow → State → State
settle raw tuple flow s =
    let counted : State = record s {
      flows = put tuple flow s.flows;
      app_stats = put flow.app_type (at_key flow.app_type 0 s.app_stats + 1) s.app_stats;
    } in
    if flow.blocked
    then record counted { dropped = s.dropped + 1 }
    else record counted { forwarded = s.forwarded + 1; output = s.output ++ record_bytes raw }

unfoldable pub run_parsed : BlockingRules → RawPacket → ParsedPacket → State → Option State
unfolding make_tuple judge settle
run_parsed rules raw parsed s = do
  tuple ← make_tuple parsed
  flow ← judge rules raw.packet parsed tuple (count_packet tuple raw s.flows)
  some (settle raw tuple flow s)

-- One round of the loop.
unfoldable pub run_packet : BlockingRules → RawPacket → State → Option State
unfolding run_parsed
run_packet rules raw before = do
  let s : State = record before { total_packets = before.total_packets + 1 }
  r ← parse raw
  elim r [
    | none ↦ some s
    | some parsed ↦
        if not parsed.has_ip || (not parsed.has_tcp && not parsed.has_udp)
        then some s
        else run_parsed rules raw parsed s
  ]

-- while (reader.readNextPacket(raw)) ...; `none` is fuel that ran out, too.
unfoldable pub run_file : ℕ → BlockingRules → PcapReader → State → Option State
unfolding run_packet
run_file zero rules reader s = none
run_file (suc fuel) rules reader s =
    let (next, after) = read_next_packet reader in
    elim next [
      | none ↦ some s
      | some raw ↦ (run_packet rules raw s >>= λ t. run_file fuel rules after t)
    ]

-- `main` from the opening of the files to the report: its status, and the state behind the loop. An
-- output that cannot be opened is `none`; one that can is cleared.
unfoldable pub process :
    ℕ → BlockingRules → Option Bytes → Option Bytes → PcapReader → Option (ℕ × Option State)
unfolding run_file
process fuel rules input output closed =
    let (opened, reader) = open_file input closed in
    if not opened then some (1, none) else elim output [
      | none ↦ some (1, none)
      | some old ↦ do
        s ← run_file fuel rules reader (new_state (header_bytes reader.global_header))
        some (0, some s)
    ]

-- The `if`s of a round over the options with an argument behind it: `none` takes neither.
unfoldable pub take_option : Bytes → Bytes → BlockingRules → Option (Option BlockingRules)
unfolding block_ip block_app block_domain
take_option arg next rules =
    if bytes_eq arg (codes "--block-ip")
    then (block_ip next rules >>= λ r. some (some r))
    else if bytes_eq arg (codes "--block-app")
    then some (some (block_app next rules))
    else if bytes_eq arg (codes "--block-domain")
    then some (some (block_domain next rules))
    else some none

-- The loop over the arguments behind the two file names.
unfoldable pub read_options : List Bytes → BlockingRules → Option BlockingRules
unfolding take_option
read_options [] rules = some rules
read_options (arg ∷ []) rules = some rules
read_options (arg ∷ (next ∷ rest)) rules =
    let skipped = read_options (next ∷ rest) rules in
    let taken = read_options rest in
    elim (take_option arg next rules) [
      | none ↦ none
      | some none ↦ skipped
      | some (some more) ↦ taken more
    ]

-- `main` but for the report: `none` is undefined behaviour of the text of an address.
unfoldable pub run_main :
    ℕ → List Bytes → (Bytes → Option Bytes) → PcapReader → Option (ℕ × Option State)
unfolding read_options process
run_main fuel (input ∷ (output ∷ options)) files closed = do
  rules ← read_options options no_rules
  process fuel rules (files input) (files output) closed
run_main fuel _ files closed = some (1, none)

-- ===== src/Tracker.antt =====
-- `ConnectionTracker` of src/connection_tracker.cpp. The table is a list of connections, each under
-- its own tuple, in the order in which the table is walked; a new entry stands last. A
-- `Connection*` is a copy of the entry that `store` writes back under its tuple.
pub mod Lookup
pub mod Cleanup
pub mod Keys
pub mod Capacity
use multi_threaded_dpi_engin.Base.{
  ℕ, suc, ◌+◌, ◌-◌, ◌/◌, Bool, true, false, ◌||◌, ◌==◌, ltb, leb, if◌then◌else◌, List, [], ◌∷◌,
  ◌++◌, Option, none, some, Bytes, length,
}
use multi_threaded_dpi_engin.Types.App.{AppType, unknown}
use multi_threaded_dpi_engin.Types.Flow.{FiveTuple, tuple_eq, reverse_tuple}
use multi_threaded_dpi_engin.Types.{
  ConnectionState, new_state, established, classified, blocked, closed, PacketAction, forward, drop,
  Connection,
}

-- What `steady_clock::now` (in nanoseconds) and `nowEpochSeconds` read during one call.
pub record Clock : Type 0 where
  pub steady : ℕ
  pub epoch : ℕ

-- The values that `emitFlowTelemetry` computes for its line.
pub record Telemetry : Type 0 where
  pub flow : FiveTuple
  pub app : AppType
  pub name : Bytes
  pub timestamp : ℕ
  pub packet_count : ℕ
  pub avg_packet_size : ℕ
  pub flow_duration : ℕ

pub record Tracker : Type 0 where
  pub max_connections : ℕ
  pub connections : List Connection
  pub total_seen : ℕ
  pub classified_count : ℕ
  pub blocked_count : ℕ
  pub telemetry : List Telemetry

-- `ConnectionTracker(fp_id, max_connections)`
abbrev pub new_tracker : ℕ → Tracker
new_tracker max = record {
  max_connections = max;
  connections = [];
  total_seen = 0;
  classified_count = 0;
  blocked_count = 0;
  telemetry = [];
}

-- `connections_.find(tuple)`
unfoldable pub find_connection : FiveTuple → List Connection → Option Connection
find_connection t [] = none
find_connection t (c ∷ cs) = if tuple_eq c.tuple t then some c else find_connection t cs

-- `connections_.erase` of the entry under a tuple.
unfoldable pub erase_connection : FiveTuple → List Connection → List Connection
erase_connection t [] = []
erase_connection t (c ∷ cs) = if tuple_eq c.tuple t then cs else c ∷ erase_connection t cs

-- A write through the pointer to the entry under the connection's tuple.
unfoldable pub replace_connection : Connection → List Connection → List Connection
replace_connection d [] = []
replace_connection d (c ∷ cs) =
    if tuple_eq c.tuple d.tuple then d ∷ cs else c ∷ replace_connection d cs

unfoldable pub store : Connection → Tracker → Tracker
store c tr = record tr { connections = replace_connection c tr.connections }

-- `emitFlowTelemetry`
unfoldable pub flow_telemetry : Connection → Telemetry
flow_telemetry c =
    let packets = c.packets_in + c.packets_out in
    let total = c.bytes_in + c.bytes_out in
    record {
      flow = c.tuple;
      app = c.app_type;
      name = c.sni;
      timestamp = c.first_epoch_seconds;
      packet_count = packets;
      avg_packet_size = if ltb 0 packets then total / packets else 0;
      flow_duration =
          if leb c.first_epoch_seconds c.last_epoch_seconds
          then c.last_epoch_seconds - c.first_epoch_seconds
          else 0;
    }

-- The loop of `evictOldest`: a later entry takes over only if it is strictly older.
unfoldable pub oldest : Connection → List Connection → Connection
oldest best [] = best
oldest best (c ∷ cs) = oldest (if ltb c.last_seen best.last_seen then c else best) cs

evict_from : List Connection → Tracker → Tracker
evict_from [] tr = tr
evict_from (c ∷ cs) tr =
    let victim = oldest c (c ∷ cs) in
    record tr {
      connections = erase_connection victim.tuple tr.connections;
      telemetry = tr.telemetry ++ flow_telemetry victim ∷ [];
    }

-- `evictOldest`
unfoldable pub evict_oldest : Tracker → Tracker
unfolding evict_from
evict_oldest tr = evict_from tr.connections tr

abbrev pub fresh_connection : FiveTuple → Clock → Connection
fresh_connection t now = record {
  tuple = t;
  state = new_state;
  app_type = unknown;
  sni = [];
  packets_in = 0;
  packets_out = 0;
  bytes_in = 0;
  bytes_out = 0;
  first_epoch_seconds = now.epoch;
  last_epoch_seconds = now.epoch;
  first_seen = now.steady;
  last_seen = now.steady;
  action = forward;
  syn_seen = false;
  syn_ack_seen = false;
  fin_seen = false;
}

-- `getOrCreateConnection` behind the lookup.
create_connection : FiveTuple → Clock → Tracker → Connection × Tracker
create_connection t now tr =
    let c = fresh_connection t now in
    let roomy = if leb tr.max_connections (length tr.connections) then evict_oldest tr else tr in
    (
      c,
      record roomy { connections = roomy.connections ++ c ∷ []; total_seen = roomy.total_seen + 1 },
    )

or_create : Option Connection → FiveTuple → Clock → Tracker → Connection × Tracker
unfolding create_connection
or_create (some c) t now tr = (c, tr)
or_create none t now tr = create_connection t now tr

-- `getOrCreateConnection`
unfoldable pub get_or_create_connection : FiveTuple → Clock → Tracker → Connection × Tracker
unfolding or_create
get_or_create_connection t now tr = or_create (find_connection t tr.connections) t now tr

or_find : Option Connection → FiveTuple → List Connection → Option Connection
or_find (some c) t cs = some c
or_find none t cs = find_connection t cs

-- `getConnection`: the tuple, else its reverse.
unfoldable pub get_connection : FiveTuple → Tracker → Option Connection
unfolding or_find
get_connection t tr = or_find (find_connection t tr.connections) (reverse_tuple t) tr.connections

-- `updateConnection`
unfoldable pub update_connection : ℕ → Bool → Clock → Connection → Connection
update_connection size true now c = record c {
  last_seen = now.steady;
  last_epoch_seconds = now.epoch;
  packets_out = c.packets_out + 1;
  bytes_out = c.bytes_out + size;
}
update_connection size false now c = record c {
  last_seen = now.steady;
  last_epoch_seconds = now.epoch;
  packets_in = c.packets_in + 1;
  bytes_in = c.bytes_in + size;
}

-- `state == s`
abbrev pub is_classified : ConnectionState → Bool
is_classified classified = true
is_classified _ = false

abbrev pub is_blocked : ConnectionState → Bool
is_blocked blocked = true
is_blocked _ = false

abbrev pub is_closed : ConnectionState → Bool
is_closed closed = true
is_closed _ = false

abbrev pub is_new : ConnectionState → Bool
is_new new_state = true
is_new _ = false

-- `classifyConnection`
unfoldable pub classify_connection : AppType → Bytes → Connection × Tracker → Connection × Tracker
classify_connection app name (c, tr) = if is_classified c.state then (c, tr) else (
  record c { app_type = app; sni = name; state = classified },
  record tr { classified_count = tr.classified_count + 1 },
)

-- `blockConnection`
unfoldable pub block_connection : Connection × Tracker → Connection × Tracker
block_connection (c, tr) = (
  record c { state = blocked; action = drop },
  record tr { blocked_count = tr.blocked_count + 1 },
)

close_found : Option Connection → Tracker → Tracker
close_found none tr = tr
close_found (some c) tr = store (record c { state = closed }) tr

-- `closeConnection`
unfoldable pub close_connection : FiveTuple → Tracker → Tracker
unfolding close_found
close_connection t tr = close_found (find_connection t tr.connections) tr

-- The age in whole seconds is above the timeout, or the connection is closed.
unfoldable pub is_stale : ℕ → Clock → Connection → Bool
is_stale timeout now c =
    ltb timeout ((now.steady - c.last_seen) / 1_000_000_000) || is_closed c.state

pub record Sweep : Type 0 where
  pub kept : List Connection
  pub emitted : List Telemetry
  pub removed : ℕ

-- The loop of `cleanupStale`.
unfoldable pub sweep : ℕ → Clock → List Connection → Sweep
sweep timeout now [] = record { kept = []; emitted = []; removed = 0 }
sweep timeout now (c ∷ cs) =
    let rest = sweep timeout now cs in
    if is_stale timeout now c
    then record rest { emitted = flow_telemetry c ∷ rest.emitted; removed = rest.removed + 1 }
    else record rest { kept = c ∷ rest.kept }

-- `cleanupStale`
unfoldable pub cleanup_stale : ℕ → Clock → Tracker → ℕ × Tracker
cleanup_stale timeout now tr =
    let s = sweep timeout now tr.connections in
    (s.removed, record tr { connections = s.kept; telemetry = tr.telemetry ++ s.emitted })

-- `getAllConnections`, and what `forEach` hands to its callback, in turn.
unfoldable pub get_all_connections : Tracker → List Connection
get_all_connections tr = tr.connections

-- `clear`
unfoldable pub clear : Tracker → Tracker
clear tr = record tr { connections = [] }

pub record TrackerStats : Type 0 where
  pub active_connections : ℕ
  pub total_connections_seen : ℕ
  pub classified_connections : ℕ
  pub blocked_connections : ℕ

-- `getStats`
unfoldable pub get_stats : Tracker → TrackerStats
get_stats tr = record {
  active_connections = length tr.connections;
  total_connections_seen = tr.total_seen;
  classified_connections = tr.classified_count;
  blocked_connections = tr.blocked_count;
}

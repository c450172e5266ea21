-- ===== src/Tests/Table.antt =====
-- The connection table and the balancers on concrete input.
use multi_threaded_dpi_engin.Base.{
  ℕ, ◌+◌, ◌*◌, ◌<◌, ◌≡◌, refl, List, map, [], ◌∷◌, ◌++◌, some, length, arith,
}
use multi_threaded_dpi_engin.Types.{Connection, closed}
use multi_threaded_dpi_engin.Types.Flow.{FiveTuple, tuple_eq}
use multi_threaded_dpi_engin.Types.Hash.{StdHash}
use multi_threaded_dpi_engin.Tracker.{
  Clock, is_stale, sweep, Tracker, new_tracker, fresh_connection, find_connection, flow_telemetry,
  evict_oldest, get_or_create_connection, cleanup_stale,
}
use multi_threaded_dpi_engin.Tracker.Capacity.{
  InCapacity, NoneBefore, evict_oldest-NoneBefore, get_or_create_connection-InCapacity,
}
use multi_threaded_dpi_engin.Tracker.Keys.{DistinctKeys, find-cleanup_stale}
use multi_threaded_dpi_engin.Tracker.Cleanup.{survivor, gone}
use multi_threaded_dpi_engin.Balancer.{new_manager}
use multi_threaded_dpi_engin.Balancer.Routing.{
  fp_queues, fp_of, served, new_manager-served, new_manager-diagonal,
}
use multi_threaded_dpi_engin.Tests.{flow, other_flow, now}

abbrev third_flow : FiveTuple
third_flow = record flow { src_port = 50002 }

-- A table with one closed connection, and room for no other.
abbrev full_tracker : Tracker
full_tracker = record (new_tracker 1) {
  connections = record (fresh_connection flow now) { state = closed } ∷ [];
}

get_or_create_connection-InCapacity_example :
    InCapacity (get_or_create_connection other_flow now full_tracker).1
    × ((get_or_create_connection other_flow now full_tracker).1.max_connections
        ≡ full_tracker.max_connections)
get_or_create_connection-InCapacity_example =
    get_or_create_connection-InCapacity other_flow now full_tracker (omega arith) (omega arith)

-- Three connections, the second of them seen longest ago, and the third closed.
abbrev busy_tracker : Tracker
busy_tracker = record (new_tracker 3) {
  connections =
      record (fresh_connection flow now) { last_seen = 9_000_000_000 }
      ∷ record (fresh_connection other_flow now) { last_seen = 2_000_000_000 }
      ∷ record (fresh_connection third_flow now) { last_seen = 9_000_000_000; state = closed }
      ∷ [];
}

busy_tracker-DistinctKeys : DistinctKeys busy_tracker.connections
unfolding find_connection tuple_eq
busy_tracker-DistinctKeys = (refl, (refl, (refl, tt)))

evict_oldest-NoneBefore_example :
    (victim : Connection) × (before : List Connection) × (after : List Connection)
    × (busy_tracker.connections ≡ before ++ victim ∷ after)
    × NoneBefore victim.last_seen busy_tracker.connections
    × ((evict_oldest busy_tracker).connections ≡ before ++ after)
    × ((evict_oldest busy_tracker).telemetry ≡ busy_tracker.telemetry ++ flow_telemetry victim ∷ [])
evict_oldest-NoneBefore_example =
    evict_oldest-NoneBefore busy_tracker (omega arith) busy_tracker-DistinctKeys

-- Ten seconds and a half after the start of the clock.
abbrev later : Clock
later = record now { steady = 10_500_000_000 }

find-cleanup_stale_example :
    let after = cleanup_stale 5 later busy_tracker in
    ((t : FiveTuple)
      → find_connection t after.1.connections
        ≡ survivor 5 later (find_connection t busy_tracker.connections))
    × (after.0 ≡ length (gone 5 later busy_tracker.connections))
    × (length after.1.connections + after.0 ≡ length busy_tracker.connections)
    × (after.1.telemetry
        ≡ busy_tracker.telemetry ++ map flow_telemetry (gone 5 later busy_tracker.connections))
find-cleanup_stale_example = find-cleanup_stale 5 later busy_tracker busy_tracker-DistinctKeys

-- One connection is left: the second was not seen for eight seconds.
cleanup_stale_two : (cleanup_stale 5 later busy_tracker).0 ≡ 2
unfolding cleanup_stale sweep is_stale
cleanup_stale_two = refl

-- A standard library that hashes a number to itself.
abbrev plain_hash : StdHash
plain_hash = record { hash32 = λ n. n; hash16 = λ n. n; hash8 = λ n. n }

new_manager-served_example :
    (served plain_hash flow (new_manager 2 3 (fp_queues (2 * 3) 0))
      ≡ some (fp_of plain_hash 2 3 flow))
    × (fp_of plain_hash 2 3 flow < 2 * 3)
new_manager-served_example = new_manager-served plain_hash flow 2 3 (omega arith) (omega arith)

new_manager-diagonal_example :
    (k : ℕ) × (k < 2)
    × (served plain_hash flow (new_manager 2 2 (fp_queues (2 * 2) 0)) ≡ some (k * (2 + 1)))
new_manager-diagonal_example = new_manager-diagonal plain_hash flow 2 (omega arith)

-- ===== src/Tests/Reports.antt =====
-- The statistics and the reports on concrete input.
use multi_threaded_dpi_engin.Base.{
  suc, ap, arith, ◌+◌, List, [], ◌∷◌, Ensures, Bytes, codes, length, ◌≡◌, refl, some, take, decimal,
  ◌++◌, bytes_eq,
}
use multi_threaded_dpi_engin.Base.Assoc.{at_key, put}
use multi_threaded_dpi_engin.Base.Counters.{count_up}
use multi_threaded_dpi_engin.Base.Ranking.{sort_by_count}
use multi_threaded_dpi_engin.Types.App.{AppType, https, github}
use multi_threaded_dpi_engin.Types.{Connection, PacketJob, PacketAction, drop}
use multi_threaded_dpi_engin.Tracker.{new_tracker, fresh_connection}
use multi_threaded_dpi_engin.FastPath.{FastPath, new_fast_path}
use multi_threaded_dpi_engin.Packet.Capture.{read_jobs}
use multi_threaded_dpi_engin.Engine.Stats.{DpiStats, no_stats, read_all, handle_outputs}
use multi_threaded_dpi_engin.Engine.Counted.{read_all-balanced}
use multi_threaded_dpi_engin.Report.Table.{
  GlobalStats, get_global_stats, initialize_table, for_each, nothing_yet,
}
use multi_threaded_dpi_engin.Report.Exact.{Exact, get_global_stats-Exact}
use multi_threaded_dpi_engin.Report.Agree.{Agree, get_global_stats-Agree}
use multi_threaded_dpi_engin.Report.Json.{json_text, json_counts, json_text-ambiguous}
use multi_threaded_dpi_engin.Tests.Capture.{segment}
use multi_threaded_dpi_engin.Tests.{flow, other_flow, now}

abbrev plain : Connection
plain = fresh_connection flow now

abbrev named : AppType → Bytes → Connection
named app name = record (fresh_connection other_flow now) { app_type = app; sni = name }

abbrev path_of : List Connection → FastPath
path_of cs = record new_fast_path {
  tracker = record (new_tracker 100000) { connections = cs; total_seen = length cs };
}

-- Two fast paths, the one with three connections and the other with two.
abbrev two_paths : List FastPath
two_paths =
    path_of (plain ∷ named https (codes "a.io") ∷ named github (codes "github.com") ∷ [])
    ∷ path_of (named github (codes "github.com") ∷ plain ∷ [])
    ∷ []

get_global_stats-Exact_example :
    Ensures (Exact two_paths) (get_global_stats two_paths (initialize_table (length two_paths)))
get_global_stats-Exact_example = get_global_stats-Exact two_paths

get_global_stats-Agree_example :
    Ensures (Agree two_paths) (get_global_stats two_paths (initialize_table (length two_paths)))
get_global_stats-Agree_example = get_global_stats-Agree two_paths

-- The most frequent name comes first.
test_top_domains :
    take 20 (
      sort_by_count
        (for_each
          (named https (codes "a.io")
            ∷ named github (codes "b.io")
            ∷ named github (codes "b.io")
            ∷ [])
          nothing_yet.tally).domain_counts)
    ≡ (codes "b.io", 2) ∷ (codes "a.io", 1) ∷ []
unfolding sort_by_count for_each put at_key count_up bytes_eq
test_top_domains = refl

-- All packets of a capture, each dropped.
abbrev all_dropped : List PacketJob → List (PacketJob × PacketAction)
all_dropped [] = []
all_dropped (job ∷ jobs) = (job, drop) ∷ all_dropped jobs

length-all_dropped : (jobs : List PacketJob) → length (all_dropped jobs) ≡ length jobs
length-all_dropped [] = refl
length-all_dropped (job ∷ jobs) = ap suc (length-all_dropped jobs)

read_all-balanced_example :
    (jobs : List PacketJob) × (s : DpiStats) × (pushed : List PacketJob) × (t : DpiStats)
    × (read_jobs (segment ∷ segment ∷ []) 0 ≡ some jobs)
    × (read_all (segment ∷ segment ∷ []) 0 no_stats ≡ some (jobs, s))
    × (s.total_packets ≡ s.tcp_packets + s.udp_packets)
    × (s.total_packets ≡ length jobs)
    × (handle_outputs (all_dropped jobs) s ≡ (pushed, t))
    × (t.total_packets ≡ t.forwarded_packets + t.dropped_packets)
    × (t.forwarded_packets ≡ length pushed)
read_all-balanced_example =
    read_all-balanced (segment ∷ segment ∷ []) all_dropped (ground arith) length-all_dropped

-- The statistics of one packet and no connection.
abbrev some_stats : GlobalStats
some_stats = record {
  total_active_connections = 0;
  total_connections_seen = 0;
  app_distribution = [];
  top_domains = [];
}

json_text-ambiguous_example :
    json_text 1
      (record some_stats {
        top_domains =
            (codes "a" ++ codes "\": " ++ decimal 1 ++ codes ",\n    \"" ++ codes "b", 2) ∷ [];
      })
      (json_counts some_stats)
    ≡ json_text 1
        (record some_stats { top_domains = (codes "a", 1) ∷ (codes "b", 2) ∷ [] })
        (json_counts some_stats)
json_text-ambiguous_example =
    json_text-ambiguous 1 some_stats (json_counts some_stats) (codes "a") (codes "b") 1 2 []

-- ===== src/Report/Exact.antt =====
-- What `getGlobalStats` of src/connection_tracker.cpp reports of the fast paths of an engine.
use multi_threaded_dpi_engin.Base.{
  List, [], some, Bytes, take, Ensures, length, ◌≡◌, refl, ◌∙◌, arith,
}
use multi_threaded_dpi_engin.Base.Eq.{text_eq}
use multi_threaded_dpi_engin.Base.Assoc.{at_key, total}
use multi_threaded_dpi_engin.Base.Counters.{KeysOnce}
use multi_threaded_dpi_engin.Base.Ranking.{sort_by_count}
use multi_threaded_dpi_engin.Base.Largest.{IsTop, take-IsTop}
use multi_threaded_dpi_engin.Types.App.{AppType, app_eq}
use multi_threaded_dpi_engin.Types.{Connection}
use multi_threaded_dpi_engin.FastPath.{FastPath}
use multi_threaded_dpi_engin.FastPath.Totals.{all_connections}
use multi_threaded_dpi_engin.Report.Table.{
  Tally, GlobalStats, get_global_stats, initialize_table, nothing_yet, for_each,
}
use multi_threaded_dpi_engin.Report.Tallied.{
  count_if, has_app, has_name, for_each-app, for_each-domain, for_each-total, IsMap, for_each-IsMap,
}
use multi_threaded_dpi_engin.Report.Gather.{
  all_seen, initialize_table-numbered, gather_all, gather-numbered, gather_all-Summed,
}

-- What is reported of so many fast paths.
pub record Exact (fps : List FastPath) (stats : GlobalStats) : Type 0 where
  pub active : stats.total_active_connections ≡ length (all_connections fps)
  pub seen : stats.total_connections_seen ≡ all_seen fps
  pub apps :
      (a : AppType) → at_key a 0 stats.app_distribution ≡ count_if (has_app a) (all_connections fps)
  pub apps_once : KeysOnce stats.app_distribution
  pub whole : total stats.app_distribution ≡ stats.total_active_connections
  pub top : IsTop 20 (λ d. count_if (has_name d) (all_connections fps)) stats.top_domains

pub tally_all-IsMap : (cs : List Connection) → IsMap (for_each cs nothing_yet.tally)
unfolding KeysOnce
tally_all-IsMap cs = for_each-IsMap cs nothing_yet.tally (record { apps = tt; domains = tt })

pub found_app :
    (a : AppType) (cs : List Connection)
    → at_key a 0 (for_each cs nothing_yet.tally).app_distribution ≡ count_if (has_app a) cs
unfolding at_key
found_app a cs = for_each-app a cs nothing_yet.tally ∙ omega arith

pub found_name :
    (d : Bytes) (cs : List Connection)
    → at_key d 0 (for_each cs nothing_yet.tally).domain_counts ≡ count_if (has_name d) cs
unfolding at_key
found_name d cs = for_each-domain d cs nothing_yet.tally ∙ omega arith

-- One pass over all connections.
abbrev pub tally_all : List Connection → Tally
tally_all cs = for_each cs nothing_yet.tally

abbrev pub stats_of : List FastPath → GlobalStats
stats_of fps = record {
  total_active_connections = length (all_connections fps);
  total_connections_seen = all_seen fps;
  app_distribution = (tally_all (all_connections fps)).app_distribution;
  top_domains = take 20 (sort_by_count (tally_all (all_connections fps)).domain_counts);
}

pub get_global_stats-stats_of :
    (fps : List FastPath)
    → get_global_stats fps (initialize_table (length fps)) ≡ some (stats_of fps)
unfolding get_global_stats
get_global_stats-stats_of fps =
    let sums = gather_all-Summed fps nothing_yet in
    let gathered = gather_all fps nothing_yet in
    let active : gathered.active ≡ length (all_connections fps) = omega (arith, sums.active) in
    let seen : gathered.seen ≡ all_seen fps = omega (arith, sums.seen) in
    rw (
      initialize_table-numbered (length fps),
      gather-numbered fps [] fps 0 nothing_yet refl refl,
      active,
      seen,
      sums.tally,
    )

-- For any fast paths, with the table that the engine fills for as many, the statistics are returned:
-- the connections that are tracked and those that were seen are counted over all fast paths; each
-- application stands once, with the number of its connections, and these add up to all; of the names
-- that are not empty the list has the 20 most frequent, each with the number of its connections, in
-- descending order.
pub get_global_stats-Exact :
    (fps : List FastPath)
    → Ensures (Exact fps) (get_global_stats fps (initialize_table (length fps)))
get_global_stats-Exact fps =
    let cs = all_connections fps in
    let maps = tally_all-IsMap cs in
    rw (get_global_stats-stats_of fps) (record {
      active = refl;
      seen = refl;
      apps = λ a. found_app a cs;
      apps_once = maps.apps;
      whole = for_each-total cs nothing_yet.tally ∙ omega arith;
      top =
          take-IsTop 20 (λ d. count_if (has_name d) cs) (tally_all cs).domain_counts maps.domains
            (λ d. found_name d cs);
    })

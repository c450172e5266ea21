-- ===== src/Report/Table.antt =====
-- `GlobalConnectionTable` of src/connection_tracker.cpp, and how `DPIEngine::initialize` fills it.
-- A `ConnectionTracker*` is the number of the fast path that owns the tracker; the statistics read
-- the tracker as it is at the time of the call.
use multi_threaded_dpi_engin.Base.{
  ℕ, zero, suc, ◌+◌, ltb, if◌then◌else◌, List, [], ◌∷◌, Option, none, some, ◌>>=◌, Bytes, length,
  set, replicate, take, get_elem?,
}
use multi_threaded_dpi_engin.Base.Eq.{text_eq}
use multi_threaded_dpi_engin.Base.Counters.{count_up}
use multi_threaded_dpi_engin.Base.Ranking.{sort_by_count}
use multi_threaded_dpi_engin.Types.App.{AppType, app_eq}
use multi_threaded_dpi_engin.Types.{Connection}
use multi_threaded_dpi_engin.Tracker.{Tracker, get_stats}
use multi_threaded_dpi_engin.FastPath.{FastPath}

pub record GlobalConnectionTable : Type 0 where
  pub trackers : List (Option ℕ)

-- `GlobalConnectionTable(num_fps)`
abbrev pub new_table : ℕ → GlobalConnectionTable
new_table num_fps = record { trackers = replicate num_fps none }

-- `registerTracker`
unfoldable pub register_tracker : ℕ → ℕ → GlobalConnectionTable → GlobalConnectionTable
register_tracker fp_id tracker table =
    if ltb fp_id (length table.trackers)
    then record { trackers = set table.trackers fp_id (some tracker) }
    else table

-- The loop of `DPIEngine::initialize`, with so many fast paths to go.
unfoldable pub register_trackers : ℕ → ℕ → GlobalConnectionTable → GlobalConnectionTable
unfolding register_tracker
register_trackers zero i table = table
register_trackers (suc left) i table = register_trackers left (i + 1) (register_tracker i i table)

-- The table that `DPIEngine::initialize` builds.
unfoldable pub initialize_table : ℕ → GlobalConnectionTable
unfolding register_trackers
initialize_table total_fps = register_trackers total_fps 0 (new_table total_fps)

-- What the loops of `getGlobalStats` collect.
pub record Tally : Type 0 where
  pub app_distribution : List (AppType × ℕ)
  pub domain_counts : List (Bytes × ℕ)

unfoldable pub count_domain : Bytes → List (Bytes × ℕ) → List (Bytes × ℕ)
count_domain [] m = m
count_domain (b ∷ name) m = count_up (b ∷ name) m

-- The function that `forEach` is called with.
unfoldable pub count_connection : Connection → Tally → Tally
unfolding count_domain
count_connection conn t = record {
  app_distribution = count_up conn.app_type t.app_distribution;
  domain_counts = count_domain conn.sni t.domain_counts;
}

-- `forEach`
unfoldable pub for_each : List Connection → Tally → Tally
unfolding count_connection
for_each [] t = t
for_each (conn ∷ rest) t = for_each rest (count_connection conn t)

pub record Gathered : Type 0 where
  pub active : ℕ
  pub seen : ℕ
  pub tally : Tally

-- The body of the loop for one tracker.
unfoldable pub add_tracker : Tracker → Gathered → Gathered
unfolding for_each
add_tracker tracker g =
    let stats = get_stats tracker in
    record {
      active = g.active + stats.active_connections;
      seen = g.seen + stats.total_connections_seen;
      tally = for_each tracker.connections g.tally;
    }

-- The loop over `trackers_`; `none` is a pointer to no tracker.
unfoldable pub gather : List FastPath → List (Option ℕ) → Gathered → Option Gathered
unfolding add_tracker
gather fps [] g = some g
gather fps (none ∷ trackers) g = gather fps trackers g
gather fps (some i ∷ trackers) g = do
  fp ← get_elem? fps i
  gather fps trackers (add_tracker fp.tracker g)

abbrev pub nothing_yet : Gathered
nothing_yet = record {
  active = 0;
  seen = 0;
  tally = record { app_distribution = []; domain_counts = [] };
}

pub record GlobalStats : Type 0 where
  pub total_active_connections : ℕ
  pub total_connections_seen : ℕ
  pub app_distribution : List (AppType × ℕ)
  pub top_domains : List (Bytes × ℕ)

-- `getGlobalStats`
unfoldable pub get_global_stats : List FastPath → GlobalConnectionTable → Option GlobalStats
unfolding gather
get_global_stats fps table = do
  g ← gather fps table.trackers nothing_yet
  some (record {
    total_active_connections = g.active;
    total_connections_seen = g.seen;
    app_distribution = g.tally.app_distribution;
    top_domains = take 20 (sort_by_count g.tally.domain_counts);
  })

-- ===== src/Report/Text.antt =====
-- The reports in text: `GlobalConnectionTable::generateReport` of src/connection_tracker.cpp,
-- `FPManager::generateClassificationReport` of src/fast_path.cpp, and `DPIEngine::generateReport`,
-- `generateClassificationReport` and `printStatus` of src/dpi_engine.cpp.
use multi_threaded_dpi_engin.Base.{
  ℕ, ◌+◌, ltb, if◌then◌else◌, List, [], ◌∷◌, ◌++◌, Option, none, some, ◌>>=◌, Bytes, codes, decimal,
  length, take,
}
use multi_threaded_dpi_engin.Base.Assoc.{total}
use multi_threaded_dpi_engin.Base.Ranking.{sort_by_count}
use multi_threaded_dpi_engin.Types.App.{AppType, app_name}
use multi_threaded_dpi_engin.Rules as Rules
use multi_threaded_dpi_engin.Rules.{RuleManager}
use multi_threaded_dpi_engin.FastPath.{FastPath}
use multi_threaded_dpi_engin.FastPath.Totals.{fp_totals}
use multi_threaded_dpi_engin.Balancer.{LoadBalancer}
use multi_threaded_dpi_engin.Balancer.Totals.{lb_totals}
use multi_threaded_dpi_engin.Engine.Stats.{DpiStats}
use multi_threaded_dpi_engin.Report.Table.{GlobalConnectionTable, GlobalStats, get_global_stats}
use multi_threaded_dpi_engin.Report.Classified.{Classified, classification, listed_domains}

-- A line with a number.
abbrev number_line : Bytes → ℕ → Bytes
number_line label n = label ++ decimal n ++ codes "\n"

-- `domain.substr(0, 32) + "..."` of a name that is longer than 35 bytes.
unfoldable pub shorten : Bytes → Bytes
shorten domain = if ltb 35 (length domain) then take 32 domain ++ codes "..." else domain

domain_lines : List (Bytes × ℕ) → Bytes
domain_lines [] = []
domain_lines ((domain, n) ∷ rest) =
    codes "  - " ++ domain ++ codes ": " ++ decimal n ++ codes "\n" ++ domain_lines rest

shortened_lines : List (Bytes × ℕ) → Bytes
unfolding shorten
shortened_lines [] = []
shortened_lines ((domain, n) ∷ rest) =
    codes "  - " ++ shorten domain ++ codes ": " ++ decimal n ++ codes "\n" ++ shortened_lines rest

-- The list of domains under its heading, if there is one.
under_heading : Bytes → List (Bytes × ℕ) → Bytes → Bytes
under_heading heading [] lines = []
under_heading heading (_ ∷ _) lines = heading ++ lines

-- `fixed d part whole` is what a stream with `std::fixed << std::setprecision(d)` prints for the
-- `double` that is `100.0 * part / whole`.
module _ (fixed : ℕ → ℕ → ℕ → Bytes) where
  percentage : ℕ → ℕ → Bytes
  percentage part whole = if ltb 0 whole then fixed 1 part whole else codes "0.0"

  app_lines : ℕ → List (AppType × ℕ) → Bytes
  unfolding percentage
  app_lines whole [] = []
  app_lines whole ((app, n) ∷ rest) =
      codes "  - "
      ++ app_name app
      ++ codes ": "
      ++ decimal n
      ++ codes " ("
      ++ percentage n whole
      ++ codes "%)\n"
      ++ app_lines whole rest

  connection_text : GlobalStats → Bytes
  unfolding app_lines shortened_lines under_heading
  connection_text stats =
      codes "\n[ConnectionTracker] Statistics\n"
      ++ number_line (codes "  active_connections=") stats.total_active_connections
      ++ number_line (codes "  total_connections_seen=") stats.total_connections_seen
      ++ codes "[ConnectionTracker] Application breakdown\n"
      ++ app_lines (total stats.app_distribution) (sort_by_count stats.app_distribution)
      ++ under_heading (codes "[ConnectionTracker] Top domains\n") stats.top_domains
          (shortened_lines stats.top_domains)

  -- `GlobalConnectionTable::generateReport`
  unfoldable pub connection_report : List FastPath → GlobalConnectionTable → Option Bytes
  unfolding connection_text
  connection_report fps table =
      (get_global_stats fps table >>= λ stats. some (connection_text stats))

  classification_text : Classified → Bytes
  unfolding percentage app_lines domain_lines under_heading
  classification_text c =
      let whole = c.total_classified + c.total_unknown in
      codes "\n[Classification] Summary\n"
      ++ number_line (codes "  total_connections=") whole
      ++ codes "  classified="
      ++ decimal c.total_classified
      ++ codes " ("
      ++ percentage c.total_classified whole
      ++ codes "%)\n"
      ++ codes "  unknown="
      ++ decimal c.total_unknown
      ++ codes " ("
      ++ percentage c.total_unknown whole
      ++ codes "%)\n"
      ++ codes "[Classification] Application distribution\n"
      ++ app_lines whole (sort_by_count c.app_counts)
      ++ under_heading (codes "[Classification] Top domains\n") c.domain_counts
          (domain_lines (listed_domains c))

  -- `FPManager::generateClassificationReport`
  unfoldable pub classification_report : List FastPath → Bytes
  unfolding classification_text
  classification_report fps = classification_text (classification fps)

  -- `DPIEngine::generateClassificationReport`; `none` is an engine without fast paths.
  unfoldable pub engine_classification_report : Option (List FastPath) → Bytes
  unfolding classification_report
  engine_classification_report none = []
  engine_classification_report (some fps) = classification_report fps

  drop_rate : DpiStats → Bytes
  drop_rate stats =
      if ltb 0 stats.total_packets
      then codes "  drop_rate_pct="
        ++ fixed 2 stats.dropped_packets stats.total_packets
        ++ codes "\n"
      else []

  lb_lines : Option (List LoadBalancer) → Bytes
  lb_lines none = []
  lb_lines (some lbs) =
      let lb_stats = lb_totals lbs in
      number_line (codes "  lb_received=") lb_stats.total_received
      ++ number_line (codes "  lb_dispatched=") lb_stats.total_dispatched

  fp_lines : Option (List FastPath) → Bytes
  fp_lines none = []
  fp_lines (some fps) =
      let fp_stats = fp_totals fps in
      number_line (codes "  fp_processed=") fp_stats.total_processed
      ++ number_line (codes "  fp_forwarded=") fp_stats.total_forwarded
      ++ number_line (codes "  fp_dropped=") fp_stats.total_dropped
      ++ number_line (codes "  active_connections=") fp_stats.total_connections

  rule_lines : Option RuleManager → Bytes
  rule_lines none = []
  rule_lines (some rules) =
      let rule_stats = Rules.get_stats rules in
      number_line (codes "  blocked_ips=") rule_stats.ips
      ++ number_line (codes "  blocked_apps=") rule_stats.apps
      ++ number_line (codes "  blocked_domains=") rule_stats.domains
      ++ number_line (codes "  blocked_ports=") rule_stats.ports

  -- `DPIEngine::generateReport`; a manager that was not created yet is `none`.
  unfoldable pub engine_report :
      DpiStats → Option (List LoadBalancer) → Option (List FastPath) → Option RuleManager → Bytes
  unfolding drop_rate lb_lines fp_lines rule_lines
  engine_report stats lbs fps rules =
      codes "\n[DPIEngine] Statistics\n"
      ++ number_line (codes "  total_packets=") stats.total_packets
      ++ number_line (codes "  total_bytes=") stats.total_bytes
      ++ number_line (codes "  tcp_packets=") stats.tcp_packets
      ++ number_line (codes "  udp_packets=") stats.udp_packets
      ++ number_line (codes "  forwarded_packets=") stats.forwarded_packets
      ++ number_line (codes "  dropped_packets=") stats.dropped_packets
      ++ drop_rate stats
      ++ lb_lines lbs
      ++ fp_lines fps
      ++ rule_lines rules

-- The line of `printStatus` on the connections.
status_connections : Option (List FastPath) → Bytes
status_connections none = []
status_connections (some fps) =
    number_line (codes "Connections: ") (fp_totals fps).total_connections

-- `printStatus`
unfoldable pub print_status : DpiStats → Option (List FastPath) → Bytes
unfolding status_connections
print_status stats fps =
    codes "\n--- Live Status ---\n"
    ++ codes "Packets: "
    ++ decimal stats.total_packets
    ++ codes " | Forwarded: "
    ++ decimal stats.forwarded_packets
    ++ number_line (codes " | Dropped: ") stats.dropped_packets
    ++ status_connections fps
